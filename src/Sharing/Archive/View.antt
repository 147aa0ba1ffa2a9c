-- ===== src/Sharing/Archive/View.antt =====
-- What `SharedSolutionsArchive` shares, as a state of `SharedSolutionsVector`, and how the marks of
-- the one follow those of the other while candidates are inspected.
use dmeic.Prelude.{
  ◌≡◌, refl, subst, ◌∙◌, Bool, true, false, ◌||◌, List, [], ◌∷◌, ◌++◌, if◌then◌else◌, arith,
  Bool-cases, inl, inr, All, All-In, Any, Any-witness, All-mono,
}
use dmeic.Point.{YPoint, dominates, equal}
use dmeic.Point.Order.{dominates_refl, dominates_trans, equal_iff}
use dmeic.Sharing.Vector
use dmeic.Sharing.Vector.{Tagged, Shared, Marked, unmark}
use dmeic.Sharing.Archive.{Entry, Archive, inspect}

module _ {Sol : Type 0} where
  abbrev pub untag : Entry Sol → Tagged Sol
  untag e = record { sol = e.sol; ts = e.ts; added_by_thread = e.added_by_thread }

  -- The entries that are not dominated.
  unfoldable pub live : List (Entry Sol) → List (Tagged Sol)
  live [] = []
  live (e ∷ es) = let rest = live es in if e.dominated then rest else untag e ∷ rest

  unfoldable pub view : Archive Sol → Shared Sol
  unfolding live
  view s = record {
    shared_solutions = live s.archive;
    last_update_time = s.last_update_time;
    solver_timestamps = s.solver_timestamps;
    solutions_pushed = s.solutions_pushed;
    solutions_pulled = s.solutions_pulled;
  }

  -- The entries beside the vector with its marks: those that were dominated at first are not in the
  -- vector, and the others are marked there when they are dominated.
  pub data Beside : List (Entry Sol) → List (Marked Sol) → Type 0 where
    nil : Beside [] []
    dead :
        (e : Entry Sol) (es : List (Entry Sol)) (ms : List (Marked Sol))
        → e.dominated ≡ true
        → Beside es ms
        → Beside (e ∷ es) ms
    both :
        (e : Entry Sol) (f : Bool) (es : List (Entry Sol)) (ms : List (Marked Sol))
        → e.dominated ≡ f
        → Beside es ms
        → Beside (e ∷ es) ((untag e, f) ∷ ms)

  pub live-append : (es fs : List (Entry Sol)) → live (es ++ fs) ≡ live es ++ live fs
  unfolding live
  live-append [] fs = refl
  live-append (e ∷ es) fs = ground (arith, live-append es fs)

module _ {Sol : Type 0} (y_point : Sol → YPoint) where
  pub start-Beside : (es : List (Entry Sol)) → Beside es (unmark y_point (live es))
  unfolding live
  start-Beside [] = nil
  start-Beside (e ∷ es) = elim (Bool-cases e.dominated) [
    | inl h ↦ simp h (dead e es _ h (start-Beside es))
    | inr h ↦ simp h (both e false es _ h (start-Beside es))
  ]

  pub Beside-live :
      (es : List (Entry Sol)) (ms : List (Marked Sol))
      → Beside es ms
      → live es ≡ Vector.unmarked y_point ms
  unfolding live Vector.unmarked
  Beside-live es ms nil = refl
  Beside-live es ms (dead e es' ms' h b) = rw h (Beside-live es' ms' b)
  Beside-live es ms (both e f es' ms' h b) = ground (arith, Beside-live es' ms' b)

  -- The test by which both skip a candidate.
  abbrev pub covers : YPoint → Sol → Bool
  covers c s = equal (y_point s) c || dominates (y_point s) c

  -- A marked entry does not make the vector skip the candidate.
  abbrev pub IsClear : YPoint → Marked Sol → Type 0
  IsClear c m = m.1 ≡ true → covers c m.0.sol ≡ false

  pub inspect-Beside :
      (c : YPoint) (es : List (Entry Sol)) (ms : List (Marked Sol))
      → Beside es ms
      → All (IsClear c) ms
      → ((inspect y_point c es).2 ≡ (Vector.inspect y_point c ms).1)
        × Beside (inspect y_point c es).0 (Vector.inspect y_point c ms).0
  unfolding inspect Vector.inspect
  inspect-Beside c es ms nil clear = (refl, nil)
  inspect-Beside c es ms (dead e es' ms' h b) clear =
      let (same, b') = inspect-Beside c es' ms' b clear in simp h (same, dead e _ _ h b')
  inspect-Beside c es ms (both e true es' ms' h b) clear =
      let (same, b') = inspect-Beside c es' ms' b clear.1 in
      let marked : true ≡ (if dominates c (y_point e.sol) then true else true) = ground arith in
      simp (h, clear.0 refl) (same, both e _ _ _ (h ∙ marked) b')
  inspect-Beside c es ms (both e false es' ms' h b) clear =
      let (same, b') = inspect-Beside c es' ms' b clear.1 in
      elim (Bool-cases (covers c e.sol)) [
        | inl t ↦ simp (h, t) (refl, both e false es' ms' h b)
        | inr t ↦ elim (Bool-cases (dominates c (y_point e.sol))) [
          | inl d ↦ simp (h, t, d) (same, both (record e { dominated = true }) true _ _ refl b')
          | inr d ↦ simp (h, t, d) (same, both e false _ _ h b')
        ]
      ]

  -- An earlier candidate strictly dominates each marked entry.
  abbrev pub IsMarkedBy : List YPoint → Marked Sol → Type 0
  IsMarkedBy earlier m =
      m.1 ≡ true
      → Any (λ a. (dominates a (y_point m.0.sol) ≡ true) × (dominates (y_point m.0.sol) a ≡ false))
          earlier

  pub inspect-IsMarkedBy :
      (c : YPoint) (earlier : List YPoint) (ms : List (Marked Sol))
      → All (IsMarkedBy earlier) ms
      → All (IsMarkedBy (c ∷ earlier)) (Vector.inspect y_point c ms).0
  unfolding Vector.inspect
  inspect-IsMarkedBy c earlier [] all = tt
  inspect-IsMarkedBy c earlier ((t, f) ∷ ms) all =
      let ih = inspect-IsMarkedBy c earlier ms all.1 in
      let s = y_point t.sol in
      elim (Bool-cases (covers c t.sol)) [
        | inl h ↦ rw h (
          (λ q. inr (all.0 q)),
          All-mono (IsMarkedBy earlier) (IsMarkedBy (c ∷ earlier)) ms (λ m k q. inr (k q)) all.1,
        )
        | inr h ↦ elim (Bool-cases (dominates c s)) [
          | inl d ↦ rw (h, d) ((λ q. inl (refl, ground arith)), ih)
          | inr d ↦ rw (h, d) ((λ q. inr (all.0 q)), ih)
        ]
      ]

  -- An earlier candidate that dominates the point is the same point.
  abbrev pub IsApart : List YPoint → YPoint → Type 0
  IsApart earlier c = All (λ a. dominates a c ≡ true → a ≡ c) earlier

  pub IsMarkedBy-IsClear :
      (c : YPoint) (earlier : List YPoint) (ms : List (Marked Sol))
      → IsApart earlier c
      → All (IsMarkedBy earlier) ms
      → All (IsClear c) ms
  IsMarkedBy-IsClear c earlier ms apart = All-mono _ _ ms (λ m by q. clear m (by q))
    where
      clear :
          (m : Marked Sol)
          → Any
              (λ a.
                (dominates a (y_point m.0.sol) ≡ true) × (dominates (y_point m.0.sol) a ≡ false))
              earlier
          → covers c m.0.sol ≡ false
      clear m some_a =
          let s = y_point m.0.sol in
          let (a, mem, d) = Any-witness _ earlier some_a in
          elim (Bool-cases (covers c m.0.sol)) [
            | inr h ↦ h
            | inl h ↦
                let below : dominates s c ≡ true =
                  ground (arith, equal_iff s c, dominates_refl s) in
                let e : a ≡ c = All-In _ earlier apart a mem (dominates_trans a s c d.0 below) in
                let far : dominates s c ≡ false = subst (λ p. dominates s p ≡ false) e d.1 in cc
          ]
