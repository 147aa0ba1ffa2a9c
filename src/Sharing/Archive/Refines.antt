-- ===== src/Sharing/Archive/Refines.antt =====
-- The calls of `SharedSolutionsArchive` beside those of `SharedSolutionsVector`.
use dmeic.Prelude.{
  ℕ, ◌+◌, ◌≡◌, refl, sym, subst, ap, ◌∙◌, Bool, true, false, List, [], ◌∷◌, ◌++◌, if◌then◌else◌,
  length, arith, All, length-append, set,
}
use dmeic.Point.{YPoint}
use dmeic.Sharing.Vector
use dmeic.Sharing.Vector.{Tagged, Shared, Marked, unmark, stamp, add_at}
use dmeic.Sharing.Archive
use dmeic.Sharing.Archive.{Entry, Archive}
use dmeic.Sharing.Archive.View.{
  live, view, Beside, start-Beside, Beside-live, live-append, inspect-Beside, IsMarkedBy,
  inspect-IsMarkedBy, IsApart, IsMarkedBy-IsClear,
}

module _ {Sol : Type 0} (y_point : Sol → YPoint) where
  -- No candidate strictly dominates a later one, nor do those of `earlier`.
  abbrev pub IsSpread : List YPoint → List Sol → Type 0
  IsSpread earlier [] = Unit {0}
  IsSpread earlier (c ∷ cs) =
      IsApart y_point earlier (y_point c) × IsSpread (y_point c ∷ earlier) cs

  -- The two loops over the candidates side by side.
  record Together (time : ℕ) (es : List (Entry Sol)) (fs : List (Entry Sol))
      (ms : List (Marked Sol)) (ts : List (Tagged Sol)) : Type 0 where
    beside : Beside es ms
    added : live fs ≡ stamp y_point time ts
    size : length fs ≡ length ts

  new_entry : ℕ → ℕ → Sol → Entry Sol
  new_entry thread time c = record {
    sol = c;
    ts = time;
    added_by_thread = thread;
    dominated = false;
  }

  new_tagged : ℕ → Sol → Tagged Sol
  new_tagged thread c = record { sol = c; ts = 0; added_by_thread = thread }

  stamp-append :
      (time : ℕ) (ts us : List (Tagged Sol))
      → stamp y_point time (ts ++ us) ≡ stamp y_point time ts ++ stamp y_point time us
  stamp-append time [] us = refl
  stamp-append time (t ∷ ts) us = ap (◌∷◌ (record t { ts = time })) (stamp-append time ts us)

  -- What one candidate adds to both.
  add-Together :
      (thread time : ℕ) (c : Sol) (a b : Bool) (es fs : List (Entry Sol))
      → (ms : List (Marked Sol)) (ts : List (Tagged Sol)) → a ≡ b
      → Beside es ms
      → live fs ≡ stamp y_point time ts
      → length fs ≡ length ts
      → Together time es
          (if a then fs else fs ++ new_entry thread time c ∷ [])
          ms
          (if b then ts else ts ++ new_tagged thread c ∷ [])
  unfolding live new_entry new_tagged
  add-Together thread time c true b es fs ms ts e beside added size =
      simp (sym e) (record { beside = beside; added = added; size = size })
  add-Together thread time c false b es fs ms ts e beside added size =
      let new = new_entry thread time c in
      let tag = new_tagged thread c in
      simp (sym e) (record {
        beside = beside;
        added =
            live-append fs (new ∷ [])
            ∙ (ap (λ r. r ++ live (new ∷ [])) added ∙ sym (stamp-append time ts (tag ∷ [])));
        size = omega (arith, length-append fs (new ∷ []), length-append ts (tag ∷ []));
      })

  examine-Together :
      (thread time : ℕ) (cs : List Sol) (earlier : List YPoint)
      → (es : List (Entry Sol)) (k : ℕ) (fs : List (Entry Sol)) (ms : List (Marked Sol))
        (ts : List (Tagged Sol))
      → IsSpread earlier cs
      → All (IsMarkedBy y_point earlier) ms
      → Together time es fs ms ts
      → Together time
          (Archive.examine y_point thread time cs es k fs).0
          (Archive.examine y_point thread time cs es k fs).2
          (Vector.examine y_point thread cs ms ts).0
          (Vector.examine y_point thread cs ms ts).1
  unfolding Archive.examine Vector.examine new_entry new_tagged
  examine-Together thread time [] earlier es k fs ms ts spread marked t = t
  examine-Together thread time (c ∷ cs) earlier es k fs ms ts spread marked t =
      let p = y_point c in
      let (same, beside') =
        inspect-Beside y_point p es ms t.beside
          (IsMarkedBy-IsClear y_point p earlier ms spread.0 marked) in
      let marked' = inspect-IsMarkedBy y_point p earlier ms marked in
      examine-Together thread time cs (p ∷ earlier) (Archive.inspect y_point p es).0
        (k + (Archive.inspect y_point p es).1) _ (Vector.inspect y_point p ms).0 _ spread.1 marked'
        (add-Together thread time c _ _ _ fs _ ts same beside' t.added t.size)

  push_solutions-view_of :
      (thread time last : ℕ) (es fs : List (Entry Sol)) (ms : List (Marked Sol))
      (ts : List (Tagged Sol))
      → last + 1 ≡ time
      → Together time es fs ms ts
      → ((if Archive.is_empty y_point fs then last else last + 1)
          ≡ (if Vector.is_empty y_point ts then last else last + 1))
        × (live (es ++ fs)
            ≡ Vector.unmarked y_point ms
              ++ stamp y_point (if Vector.is_empty y_point ts then last else last + 1) ts)
  unfolding live
  push_solutions-view_of thread time last es [] ms [] e t =
      (refl, live-append es [] ∙ ap (λ r. r ++ []) (Beside-live y_point es ms t.beside))
  push_solutions-view_of thread time last es (f ∷ fs) ms [] e t = absurd (omega (arith, t.size))
  push_solutions-view_of thread time last es [] ms (u ∷ ts) e t = absurd (omega (arith, t.size))
  push_solutions-view_of thread time last es (f ∷ fs) ms (u ∷ ts) e t =
      let joined : live (es ++ f ∷ fs) ≡ Vector.unmarked y_point ms ++ stamp y_point time (u ∷ ts) =
        live-append es (f ∷ fs)
        ∙ (ap (λ r. r ++ live (f ∷ fs)) (Beside-live y_point es ms t.beside)
            ∙ ap (λ r. Vector.unmarked y_point ms ++ r) t.added) in
      (
        refl,
        subst (λ n. live (es ++ f ∷ fs) ≡ Vector.unmarked y_point ms ++ stamp y_point n (u ∷ ts))
            (sym e) joined,
      )

  none-marked : (ts : List (Tagged Sol)) → All (IsMarkedBy y_point []) (unmark y_point ts)
  none-marked [] = tt
  none-marked (t ∷ ts) = ((λ q. absurd (ground (arith, q))), none-marked ts)

  -- What a push leaves: the solutions, the time of the last update, and the counts.
  abbrev pushed_state : List ℕ → List ℕ → List ℕ → ℕ → List (Tagged Sol) → ℕ → ℕ → Shared Sol
  pushed_state stamps pushed pulled thread sols time n = record {
    shared_solutions = sols;
    last_update_time = time;
    solver_timestamps = set stamps thread time;
    solutions_pushed = add_at pushed thread n;
    solutions_pulled = pulled;
  }

  pushed_eq :
      (stamps pushed pulled : List ℕ) (thread : ℕ) (sols sols' : List (Tagged Sol)) (t t' n n' : ℕ)
      → sols ≡ sols'
      → t ≡ t'
      → n ≡ n'
      → pushed_state stamps pushed pulled thread sols t n
        ≡ pushed_state stamps pushed pulled thread sols' t' n'
  pushed_eq stamps pushed pulled thread sols sols' t t' n n' e f g = rw (e, f, g) refl

  -- Where no candidate strictly dominates a later one, `pushSolutions` of the archive shares what
  -- `pushSolutions` of the vector shares, with the same stamps and counts.
  pub push_solutions-view :
      (capacity : ℕ) (s : Archive Sol) (cs : List Sol) (thread : ℕ)
      → IsSpread [] cs
      → view (Archive.push_solutions y_point capacity s cs thread)
        ≡ Vector.push_solutions y_point (view s) cs thread
  unfolding Archive.push_solutions Vector.push_solutions view
  push_solutions-view capacity s cs thread spread =
      let time = s.last_update_time + 1 in
      let ms = unmark y_point (live s.archive) in
      let a = Archive.examine y_point thread time cs s.archive 0 [] in
      let v = Vector.examine y_point thread cs ms [] in
      let t : Together time a.0 a.2 v.0 v.1 =
        examine-Together thread time cs [] s.archive 0 [] ms [] spread
          (none-marked (live s.archive))
          (record { beside = start-Beside y_point s.archive; added = refl; size = refl }) in
      let (stamps, shared) =
        push_solutions-view_of thread time s.last_update_time a.0 a.2 v.0 v.1 refl t in
      pushed_eq s.solver_timestamps s.solutions_pushed s.solutions_pulled thread _ _ _ _ _ _ shared
        stamps t.size

  pulled-live :
      (s : Archive Sol) (thread : ℕ) (es : List (Entry Sol))
      → Archive.pulled y_point s thread es ≡ Vector.pulled y_point (view s) thread (live es)
  unfolding Archive.pulled Vector.pulled view live
  pulled-live s thread [] = refl
  pulled-live s thread (e ∷ es) = ground (arith, pulled-live s thread es)

  -- `pullSolutions` of the archive returns and counts what `pullSolutions` of the vector does.
  pub pull_solutions-view :
      (s : Archive Sol) (thread : ℕ)
      → ((Archive.pull_solutions y_point s thread).0
          ≡ (Vector.pull_solutions y_point (view s) thread).0)
        × (view (Archive.pull_solutions y_point s thread).1
            ≡ (Vector.pull_solutions y_point (view s) thread).1)
  unfolding Archive.pull_solutions Vector.pull_solutions view
  pull_solutions-view s thread =
      let e = pulled-live s thread s.archive in
      (
        e,
        ap (λ r. record (view s) { solutions_pulled = add_at s.solutions_pulled thread (length r) })
            e,
      )

  -- Where no candidate strictly dominates a later one, `syncSolutions` of the archive returns what
  -- `syncSolutions` of the vector returns, and shares what it shares, with the same stamps and
  -- counts.
  pub sync_solutions-view :
      (capacity : ℕ) (s : Archive Sol) (cs : List Sol) (thread : ℕ) (also_pull : Bool)
      → IsSpread [] cs
      → ((Archive.sync_solutions y_point capacity s cs thread also_pull).0
          ≡ (Vector.sync_solutions y_point (view s) cs thread also_pull).0)
        × (view (Archive.sync_solutions y_point capacity s cs thread also_pull).1
            ≡ (Vector.sync_solutions y_point (view s) cs thread also_pull).1)
  unfolding Archive.sync_solutions Vector.sync_solutions
  sync_solutions-view capacity s cs thread false spread =
      (refl, push_solutions-view capacity s cs thread spread)
  sync_solutions-view capacity s cs thread true spread =
      let (result, state) = pull_solutions-view s thread in
      (
        result,
        push_solutions-view capacity (Archive.pull_solutions y_point s thread).1 cs thread spread
            ∙ ap (λ r. Vector.push_solutions y_point r cs thread) state,
      )
