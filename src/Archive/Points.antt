-- ===== src/Archive/Points.antt =====
-- The points that `saveEfficientSol` keeps in `nondom` (MOCO.cc).
use dmeic.Prelude.{
  ℕ, ◌≡◌, refl, sym, ap, subst, ◌∙◌, ◌⊎◌, inl, inr, Bool, true, false, not, List, [], ◌∷◌, ◌++◌,
  arith, length, take, In, All, Any, Bool-cases, In-append_cases, In-append_left, Any_of_In,
  Any-append_right, Any-witness, take_all,
}
use dmeic.Point.{YPoint, dominates}
use dmeic.Point.Order.{wdominates-eq-dominates, dominates_refl, dominates_trans}
use dmeic.ThinSet.{dominates_by, scan}
use dmeic.ThinSet.Scan.{scan-In, scan-dropped, scan-stopped, scan-ended}
use dmeic.Archive.{Saved, filter_saved, save_efficient_sol}

abbrev pub point_of : Saved → YPoint
point_of s = s.point

-- All points have `d` coordinates.
abbrev pub AreSized : ℕ → List Saved → Type 0
AreSized d = All (λ s. length s.point ≡ d)

abbrev probe : YPoint → Saved
probe p = record { point = p; model = []; position = 0 }

-- The loop is that of `ThinSet::safe_insert`, but for the sense of its flag.
filter_saved-scan :
    (d : ℕ) (p : YPoint) (ss : List Saved)
    → length p ≡ d
    → AreSized d ss
    → filter_saved d p ss
      ≡ ((scan false point_of (probe p) ss).0, not (scan false point_of (probe p) ss).1)
unfolding filter_saved scan dominates_by
filter_saved-scan d p [] h k = refl
filter_saved-scan d p (s ∷ ss) h k =
    rw
      (
        wdominates-eq-dominates s.point p d k.0 h,
        wdominates-eq-dominates p s.point d h k.0,
        filter_saved-scan d p ss h k.1,
      )
      (ground arith)

-- No point of the list dominates another one.
abbrev pub IsFront : List Saved → Type 0
IsFront ss =
    (s t : Saved) → In s ss → In t ss → dominates s.point t.point ≡ true → s.point ≡ t.point

module _ (d n_vars : ℕ) (ss : List Saved) (m : List Bool) (p : YPoint) (sized : length p ≡ d)
    (all_sized : AreSized d ss) where
  abbrev kept : List Saved
  kept = (filter_saved d p ss).0

  abbrev new_saved : Saved
  new_saved = record { point = take d p; model = take n_vars m; position = length kept }

  abbrev pub saved : List Saved
  saved = save_efficient_sol d n_vars ss m p true

  new_point : new_saved.point ≡ p
  new_point = take_all d p sized

  loop :
      filter_saved d p ss
      ≡ ((scan false point_of (probe p) ss).0, not (scan false point_of (probe p) ss).1)
  loop = filter_saved-scan d p ss sized all_sized

  saved_dominated : (filter_saved d p ss).1 ≡ true → saved ≡ kept
  unfolding save_efficient_sol
  saved_dominated e = rw e

  saved_new : (filter_saved d p ss).1 ≡ false → saved ≡ kept ++ new_saved ∷ []
  unfolding save_efficient_sol
  saved_new e = rw e

  kept-In : (s : Saved) → In s kept → In s ss
  kept-In s h = scan-In false point_of (probe p) ss s (subst (λ r. In s r.0) loop h)

  kept_apart :
      (s : Saved)
      → (filter_saved d p ss).1 ≡ false
      → In s kept
      → (dominates s.point p ≡ false) × (dominates p s.point ≡ false)
  unfolding dominates_by
  kept_apart s e h =
      scan-ended false point_of (probe p) ss s (ground (arith, loop)) (subst (λ r. In s r.0) loop h)

  kept_dropped : (s : Saved) → In s ss → In s kept ⊎ (dominates p s.point ≡ true)
  unfolding dominates_by
  kept_dropped s h = elim (scan-dropped false point_of (probe p) ss s h) [
    | inl q ↦ inl (subst (λ r. In s r.0) (sym loop) q)
    | inr q ↦ inr q
  ]

  kept_dominator : (filter_saved d p ss).1 ≡ true → Any (λ s. dominates s.point p ≡ true) kept
  unfolding dominates_by
  kept_dominator e =
      subst (λ r. Any (λ s. dominates s.point p ≡ true) r.0) (sym loop)
        (scan-stopped false point_of (probe p) ss (ground (arith, loop)))

  -- The new point is dominated by one that is stored afterwards.
  saved_self : Any (λ t. dominates t.point p ≡ true) saved
  saved_self = elim (Bool-cases (filter_saved d p ss).1) [
    | inl e ↦ rw (saved_dominated e) (kept_dominator e)
    | inr e ↦
        rw (saved_new e)
          (Any-append_right _ kept (new_saved ∷ []) (inl (rw new_point (dominates_refl p))))
  ]

  saved-kept : (s : Saved) → In s kept → In s saved
  saved-kept s h = elim (Bool-cases (filter_saved d p ss).1) [
    | inl e ↦ rw (saved_dominated e) h
    | inr e ↦ rw (saved_new e) (In-append_left kept (new_saved ∷ []) s h)
  ]

  saved_cases :
      (s : Saved) → In s saved → In s kept ⊎ ((filter_saved d p ss).1 ≡ false) × (s.point ≡ p)
  saved_cases s h = elim (Bool-cases (filter_saved d p ss).1) [
    | inl e ↦ inl (rw (saved_dominated e) at h)
    | inr e ↦ elim (In-append_cases kept (new_saved ∷ []) s (rw (saved_new e) at h)) [
      | inl q ↦ inl q
      | inr (inl q) ↦ inr (e, ap point_of q ∙ new_point)
      | inr (inr q) ↦ absurd q
    ]
  ]

  -- With `filter` set and points of `d` coordinates, `saveEfficientSol` keeps the stored points free
  -- of dominance, and each point that was stored, and the new one, is weakly dominated by a point
  -- that is stored afterwards.
  pub save_efficient_sol-IsFront :
      IsFront ss
      → IsFront saved
        × ((s : Saved) → In s ss → Any (λ t. dominates t.point s.point ≡ true) saved)
        × Any (λ t. dominates t.point p ≡ true) saved
  save_efficient_sol-IsFront front = (
    λ s t hs ht q. elim (saved_cases s hs) [
      | inl ks ↦ elim (saved_cases t ht) [
        | inl kt ↦ front s t (kept-In s ks) (kept-In t kt) q
        | inr (e, pt) ↦ ground (arith, kept_apart s e ks)
      ]
      | inr (e, ps) ↦ elim (saved_cases t ht) [
        | inl kt ↦ ground (arith, kept_apart t e kt)
        | inr (_, pt) ↦ ps ∙ sym pt
      ]
    ],
    λ s h. elim (kept_dropped s h) [
      | inl k ↦ Any_of_In _ saved s (saved-kept s k) (dominates_refl s.point)
      | inr q ↦
          let (t, mt, k) = Any-witness _ saved saved_self in
          Any_of_In _ saved t mt (dominates_trans t.point p s.point k q)
    ],
    saved_self,
  )
