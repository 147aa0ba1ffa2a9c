-- ===== src/Sharing/Archive/Reads.antt =====
-- The counts that the calls of `SharedSolutionsArchive` keep, and what its readers report by them.
use dmeic.Prelude.{
  ℕ, suc, ◌+◌, ◌≡◌, ◌⊎◌, inl, inr, refl, sym, ap, ◌∙◌, subst, Bool, true, false, ◌||◌, List, [],
  ◌∷◌, ◌++◌, map, if◌then◌else◌, ltb, ◌==◌, length, arith, Bool-cases, length-append, min, take,
  take_all, ◌↔◌,
}
use dmeic.Point.{YPoint, dominates, equal}
use dmeic.Sharing.Vector
use dmeic.Sharing.Vector.{Tagged}
use dmeic.Sharing.Archive.{
  Entry, Archive, inspect, examine, publish, push_solutions, pull_solutions, sync_solutions,
  reported, get_solutions, empty,
}
use dmeic.Sharing.Archive.View.{live, view, live-append}

module _ {Sol : Type 0} where
  -- `liveCount` is the number of entries that are not dominated, `published` that of the entries
  -- that `entries` has room for, and `archiveOverflow` tells whether there are others.
  pub record IsValid (capacity : ℕ) (s : Archive Sol) : Type 0 where
    pub counted : s.live_count ≡ length (live s.archive)
    pub listed : s.published ≡ min capacity (length s.archive)
    pub full : s.overflow ≡ ltb capacity (length s.archive)

module _ {Sol : Type 0} (y_point : Sol → YPoint) where
  inspect-counts :
      (c : YPoint) (es : List (Entry Sol))
      → (length (inspect y_point c es).0 ≡ length es)
        × (length (live (inspect y_point c es).0) + (inspect y_point c es).1 ≡ length (live es))
  unfolding inspect live
  inspect-counts c [] = (refl, refl)
  inspect-counts c (e ∷ es) =
      let ih = inspect-counts c es in
      elim (Bool-cases e.dominated) [
        | inl h ↦ simp h (omega (arith, ih.0), omega (arith, ih.1))
        | inr h ↦ elim (Bool-cases (equal (y_point e.sol) c || dominates (y_point e.sol) c)) [
          | inl t ↦ simp (h, t) (refl, omega arith)
          | inr t ↦ elim (Bool-cases (dominates c (y_point e.sol))) [
            | inl d ↦ simp (h, t, d) (omega (arith, ih.0), omega (arith, ih.1))
            | inr d ↦ simp (h, t, d) (omega (arith, ih.0), omega (arith, ih.1))
          ]
        ]
      ]

  abbrev new_entry : ℕ → ℕ → Sol → Entry Sol
  new_entry thread time c = record {
    sol = c;
    ts = time;
    added_by_thread = thread;
    dominated = false;
  }

  nil-live : length (live {Sol = Sol} []) ≡ 0
  unfolding live
  nil-live = refl

  live-new :
      (skip : Bool) (e : Entry Sol) (fs : List (Entry Sol))
      → e.dominated ≡ false
      → length (live fs) ≡ length fs
      → length (live (if skip then fs else fs ++ e ∷ []))
        ≡ length (if skip then fs else fs ++ e ∷ [])
  unfolding live
  live-new true e fs f h = h
  live-new false e fs f h =
      let one : length (live (e ∷ [])) ≡ 1 = ground arith in
      omega (
        arith,
        ap length (live-append fs (e ∷ [])),
        length-append (live fs) (live (e ∷ [])),
        length-append fs (e ∷ []),
        h,
        one,
      )

  examine-counts :
      (thread time : ℕ) (cs : List Sol) (es : List (Entry Sol)) (k : ℕ) (fs : List (Entry Sol))
      → length (live fs) ≡ length fs
      → (length (examine y_point thread time cs es k fs).0 ≡ length es)
        × (length (live (examine y_point thread time cs es k fs).0)
              + (examine y_point thread time cs es k fs).1
            ≡ length (live es) + k)
        × (length (live (examine y_point thread time cs es k fs).2)
            ≡ length (examine y_point thread time cs es k fs).2)
  unfolding examine
  examine-counts thread time [] es k fs h = (refl, refl, h)
  examine-counts thread time (c ∷ cs) es k fs h =
      let one = inspect-counts (y_point c) es in
      let (a, b, d) =
        examine-counts thread time cs _ (k + (inspect y_point (y_point c) es).1) _
          (live-new (inspect y_point (y_point c) es).2 (new_entry thread time c) fs refl h) in
      (a ∙ one.0, omega (arith, b, one.1), d)

  publish-counts :
      (capacity m : ℕ) (fs : List (Entry Sol)) (n : ℕ) (o : Bool)
      → n ≡ min capacity m
      → o ≡ ltb capacity m
      → ((publish y_point capacity fs n o).0 ≡ min capacity (m + length fs))
        × ((publish y_point capacity fs n o).1 ≡ ltb capacity (m + length fs))
  unfolding publish
  publish-counts capacity m [] n o hn ho = ground arith
  publish-counts capacity m (f ∷ fs) n o hn ho =
      let step : (if ltb n capacity then suc n else n) ≡ min capacity (suc m) =
        ground (arith, hn) in
      let over : (if ltb n capacity then o else true) ≡ ltb capacity (suc m) =
        ground (arith, hn, ho) in
      let ih = publish-counts capacity (suc m) fs _ _ step over in
      (ih.0 ∙ ap (min capacity) (omega arith), ih.1 ∙ ap (ltb capacity) (omega arith))

  push_solutions-IsValid :
      (capacity : ℕ) (s : Archive Sol) (cs : List Sol) (thread : ℕ)
      → IsValid capacity s
      → IsValid capacity (push_solutions y_point capacity s cs thread)
  unfolding push_solutions
  push_solutions-IsValid capacity s cs thread v =
      let a = examine y_point thread (s.last_update_time + 1) cs s.archive 0 [] in
      let (len, lives, new) =
        examine-counts thread (s.last_update_time + 1) cs s.archive 0 [] nil-live in
      let both = live-append a.0 a.2 in
      let p =
        publish-counts capacity (length s.archive) a.2 s.published s.overflow v.listed v.full in
      record {
        counted =
            omega
              (arith, ap length both, length-append (live a.0) (live a.2), lives, new, v.counted);
        listed = p.0 ∙ ap (min capacity) (omega (arith, len, length-append a.0 a.2));
        full = p.1 ∙ ap (ltb capacity) (omega (arith, len, length-append a.0 a.2));
      }

  -- `syncSolutions` keeps `liveCount` the number of entries that are not dominated, `published` that
  -- of the entries that `entries` has room for, and `archiveOverflow` true just where there are more.
  pub sync_solutions-IsValid :
      (capacity : ℕ) (s : Archive Sol) (cs : List Sol) (thread : ℕ) (also_pull : Bool)
      → IsValid capacity s
      → IsValid capacity (sync_solutions y_point capacity s cs thread also_pull).1
  unfolding sync_solutions pull_solutions
  sync_solutions-IsValid capacity s cs thread false v =
      push_solutions-IsValid capacity s cs thread v
  sync_solutions-IsValid capacity s cs thread true v =
      push_solutions-IsValid capacity (pull_solutions y_point s thread).1 cs thread
        (record { counted = v.counted; listed = v.listed; full = v.full })

  reported-live :
      (es : List (Entry Sol))
      → reported y_point es ≡ map {A = Tagged Sol} (λ t. (t.added_by_thread, t.sol)) (live es)
  unfolding reported live
  reported-live [] = refl
  reported-live (e ∷ es) = ground (arith, reported-live es)

  all_shown :
      (s : Archive Sol)
      → s.published ≡ length s.archive
      → reported y_point (take s.published s.archive) ≡ reported y_point s.archive
  all_shown s e = ap (reported y_point) (take_all s.published s.archive (sym e))

  shown :
      (capacity : ℕ) (s : Archive Sol) (locked : Bool)
      → IsValid capacity s
      → (ltb capacity (length s.archive) ≡ false) ⊎ (locked ≡ true)
      → get_solutions y_point s locked ≡ reported y_point s.archive
  unfolding get_solutions
  shown capacity s locked v h = elim (Bool-cases s.overflow) [
    | inr f ↦ simp f (all_shown s (ground (arith, f, v.full, v.listed)))
    | inl t ↦ elim h [ inl small ↦ cc | inr l ↦ simp (t, l) refl ]
  ]

  none_left :
      (ts : List (Tagged Sol)) (n : ℕ)
      → n ≡ length ts
      → ((n == 0) ≡ true)
        ↔ (map {A = Tagged Sol} {B = ℕ × Sol} (λ t. (t.added_by_thread, t.sol)) ts ≡ [])
  none_left [] n e = ground arith
  none_left (t ∷ ts) n e = ground arith

  -- Where the counts are right, and `entries` has room for all entries or the mutex is got,
  -- `getSolutions` reports what that of the vector reports; and `empty` is true only when that is
  -- nothing.
  pub get_solutions-view :
      (capacity : ℕ) (s : Archive Sol) (locked : Bool)
      → IsValid capacity s
      → (ltb capacity (length s.archive) ≡ false) ⊎ (locked ≡ true)
      → (get_solutions y_point s locked ≡ Vector.get_solutions y_point (view s))
        × ((empty y_point s ≡ true) ↔ (get_solutions y_point s locked ≡ []))
  unfolding get_solutions Vector.get_solutions view empty
  get_solutions-view capacity s locked v h =
      let e = shown capacity s locked v h ∙ reported-live s.archive in
      (
        e,
        subst (λ r. (empty y_point s ≡ true) ↔ (r ≡ [])) (sym e)
            (none_left (live s.archive) _ v.counted),
      )
