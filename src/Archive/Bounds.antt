-- ===== src/Archive/Bounds.antt =====
-- The points that `updateLowerBoundSet` keeps in `LBset` (MOCO.cc).
use dmeic.Prelude.{
  ℕ, ◌+◌, ◌≤◌, ◌≡◌, refl, sym, ap, ◌∙◌, ◌⊎◌, inl, inr, ◌↔◌, Bool, true, false, List, [], ◌∷◌, arith,
  length, In, All, All-In, All-of_In, Bool-cases, In-append_cases, take_all, ==_iff,
}
use dmeic.Point.{YPoint, wdominates}
use dmeic.Archive.{LowerBound, bounds_above, filter_bounds, update_lower_bound_set}

module _ (d ireencode : ℕ) (p : YPoint) where
  kept-In :
      (bs : List LowerBound) (b : LowerBound) → In b (filter_bounds d p ireencode bs).0 → In b bs
  unfolding filter_bounds
  kept-In [] b m = m
  kept-In (c ∷ bs) b m = ground (arith, kept-In bs b)

  isdom-false :
      (bs : List LowerBound)
      → (filter_bounds d p ireencode bs).1 ≡ false
      → All (λ b. bounds_above d p ireencode b ≡ false) bs
  unfolding filter_bounds
  isdom-false [] h = tt
  isdom-false (c ∷ bs) h = ground (arith, isdom-false bs)

  isdom-true :
      (bs : List LowerBound)
      → All (λ b. bounds_above d p ireencode b ≡ false) bs
      → (filter_bounds d p ireencode bs).1 ≡ false
  unfolding filter_bounds
  isdom-true [] h = refl
  isdom-true (c ∷ bs) h = ground (arith, isdom-true bs h.1)

  kept_recent :
      (bs : List LowerBound)
      → All (λ b. ireencode ≤ b.iteration + 1) (filter_bounds d p ireencode bs).0
  unfolding filter_bounds
  kept_recent [] = tt
  kept_recent (c ∷ bs) = ground (arith, kept_recent bs)

  kept_apart :
      (bs : List LowerBound) (b : LowerBound)
      → In b (filter_bounds d p ireencode bs).0
      → b.iteration ≡ ireencode
      → wdominates p b.point d ≡ true
      → bounds_above d p ireencode b ≡ true
  unfolding filter_bounds
  kept_apart [] b m e w = elim m [ ]
  kept_apart (c ∷ bs) b m e w = ground (arith, kept_apart bs b)

-- No point dominates another point of the same iteration.
abbrev pub IsLayered : ℕ → List LowerBound → Type 0
IsLayered d bs =
    (a b : LowerBound)
    → In a bs
    → In b bs
    → a.iteration ≡ b.iteration
    → wdominates a.point b.point d ≡ true
    → a.point ≡ b.point

module _ (d : ℕ) (bs : List LowerBound) (p : YPoint) (ireencode : ℕ) (sized : length p ≡ d) where
  abbrev kept : List LowerBound
  kept = (filter_bounds d p ireencode bs).0

  abbrev pub updated : List LowerBound × Bool
  updated = update_lower_bound_set d bs p true ireencode

  updated_cases :
      (b : LowerBound)
      → In b updated.0
      → In b kept
        ⊎ ((filter_bounds d p ireencode bs).1 ≡ false) × (b.point ≡ p) × (b.iteration ≡ ireencode)
  unfolding update_lower_bound_set
  updated_cases b m = elim (Bool-cases (filter_bounds d p ireencode bs).1) [
    | inl e ↦ inl (rw e at m)
    | inr e ↦ elim (In-append_cases kept _ b (rw e at m)) [
      | inl k ↦ inl k
      | inr (inl q) ↦ inr (e, ap (λ c. c.point) q ∙ take_all d p sized, ap (λ c. c.iteration) q)
      | inr (inr q) ↦ absurd q
    ]
  ]

  apart :
      (b : LowerBound)
      → (filter_bounds d p ireencode bs).1 ≡ false
      → In b kept
      → b.iteration ≡ ireencode
      → (wdominates p b.point d ≡ false) × (wdominates b.point p d ≡ false)
  unfolding bounds_above
  apart b e m same =
      let f = All-In _ bs (isdom-false d ireencode p bs e) b (kept-In d ireencode p bs b m) in
      ground (arith, kept_apart d ireencode p bs b m same, ==_iff b.iteration ireencode)

  flag : (updated.1 ≡ true) ↔ All (λ b. bounds_above d p ireencode b ≡ false) bs
  unfolding update_lower_bound_set
  flag = (λ h. isdom-false d ireencode p bs (ground arith), λ h. rw (isdom-true d ireencode p bs h))

  recent : (b : LowerBound) → In b updated.0 → ireencode ≤ b.iteration + 1
  recent b m = elim (updated_cases b m) [
    | inl k ↦ All-In _ kept (kept_recent d ireencode p bs) b k
    | inr (_, _, i) ↦ omega arith
  ]

  -- With `filter` set and a point of `d` coordinates, on a set in which no point dominates another
  -- one of its iteration: `updateLowerBoundSet` returns true exactly when no stored point of the
  -- same iteration dominates the new one, leaves no point that is older than the iteration before,
  -- and keeps the points of each iteration free of dominance.
  pub update_lower_bound_set-IsLayered :
      IsLayered d bs
      → ((updated.1 ≡ true) ↔ All (λ b. bounds_above d p ireencode b ≡ false) bs)
        × All (λ b. ireencode ≤ b.iteration + 1) updated.0
        × IsLayered d updated.0
  update_lower_bound_set-IsLayered h = (flag, All-of_In _ updated.0 (λ b m. recent b m), layered)
    where
      layered : IsLayered d updated.0
      layered a b ma mb same w = elim (updated_cases a ma) [
        | inl ka ↦ elim (updated_cases b mb) [
          | inl kb ↦ h a b (kept-In d ireencode p bs a ka) (kept-In d ireencode p bs b kb) same w
          | inr (e, pb, ib) ↦ ground (arith, apart a e ka)
        ]
        | inr (e, pa, ia) ↦ elim (updated_cases b mb) [
          | inl kb ↦ ground (arith, apart b e kb)
          | inr (_, pb, ib) ↦ pa ∙ sym pb
        ]
      ]
