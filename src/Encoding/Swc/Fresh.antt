-- ===== src/Encoding/Swc/Fresh.antt =====
-- The new rows of `SWC::encode`, and the literals that it fixes.
use dmeic.Prelude.{
  ℕ, zero, suc, ◌<◌, ◌≡◌, refl, ap, true, false, List, [], ◌∷◌, none, some, arith, leb, leb→le,
  ◌==◌, Bool-cases, inl, inr, All, length,
}
use dmeic.Encoding.Solver.{Assignment, Sat, neg}
use dmeic.Encoding.Clauses.{add_unit, unit-holds}
use dmeic.Encoding.Swc.{Term, int32_max, fix_literals, fresh_row, fresh_rows}
use dmeic.Encoding.Swc.Counting.{weight, FitIn}

module _ (sat : Sat) where
  pub length-fresh_row : (n : ℕ) (s : sat.Solver) → length (fresh_row sat n s).1 ≡ n
  unfolding fresh_row
  length-fresh_row zero s = refl
  length-fresh_row (suc n) s = ap suc (length-fresh_row n (sat.new_var s))

  pub length-fresh_rows :
      (rhs : ℕ) (ts : List Term) (s : sat.Solver) → length (fresh_rows sat rhs ts s).1 ≡ length ts
  unfolding fresh_rows
  length-fresh_rows rhs [] s = refl
  length-fresh_rows rhs (t ∷ ts) s = ap suc (length-fresh_rows rhs ts (fresh_row sat rhs s).0)

  pub rows_of_fresh :
      (rhs : ℕ) (ts : List Term) (s : sat.Solver)
      → All (λ r. length r ≡ rhs) (fresh_rows sat rhs ts s).1
  unfolding fresh_rows
  rows_of_fresh rhs [] s = tt
  rows_of_fresh rhs (t ∷ ts) s =
      (length-fresh_row rhs s, rows_of_fresh rhs ts (fresh_row sat rhs s).0)

module _ (sat : Sat) (σ : Assignment) where
  open sat use {Solver, holds, new_var, holds-new_var}

  pub holds-fresh_row : (n : ℕ) (s : Solver) → holds (fresh_row sat n s).0 σ ≡ holds s σ
  unfolding fresh_row
  holds-fresh_row zero s = refl
  holds-fresh_row (suc n) s = rw (holds-fresh_row n (new_var s), holds-new_var s σ) refl

  pub holds-fresh_rows :
      (rhs : ℕ) (ts : List Term) (s : Solver) → holds (fresh_rows sat rhs ts s).0 σ ≡ holds s σ
  unfolding fresh_rows
  holds-fresh_rows rhs [] s = refl
  holds-fresh_rows rhs (t ∷ ts) s =
      rw (holds-fresh_rows rhs ts (fresh_row sat rhs s).0, holds-fresh_row rhs s) refl

  pub fix_literals-weight :
      (rhs : ℕ) (s : Solver) (ts : List Term)
      → All (λ t. t.coeff < int32_max) ts
      → (s' : Solver) × (kept : List Term) × (fix_literals sat rhs s ts ≡ some (s', kept))
        × FitIn σ rhs kept
        × (holds s' σ ≡ true → (holds s σ ≡ true) × (weight σ ts ≡ weight σ kept))
  unfolding fix_literals weight
  fix_literals-weight rhs s [] fits = (s, [], refl, tt, λ h. (h, refl))
  fix_literals-weight rhs s (t ∷ ts) fits = elim (Bool-cases (t.coeff == 0)) [
    | inl z ↦
        let (s', kept, e, fit, w) = fix_literals-weight rhs s ts fits.1 in
        (s', kept, rw z e, fit, λ h. let (h0, v) = w h in (h0, ground (arith, z, v)))
    | inr z ↦
        let fine : leb int32_max t.coeff ≡ false = ground (arith, fits.0) in
        elim (Bool-cases (leb t.coeff rhs)) [
          | inl l ↦
              let (s', kept, e, fit, w) = fix_literals-weight rhs s ts fits.1 in
              (
                s',
                t ∷ kept,
                rw (z, fine, l, e) refl,
                (leb→le _ _ l, fit),
                λ h. let (h0, v) = w h in (h0, ground (arith, v)),
              )
          | inr l ↦
              let (s', kept, e, fit, w) =
                fix_literals-weight rhs (add_unit sat s (neg t.lit) none) ts fits.1 in
              let u = unit-holds sat s (neg t.lit) none σ in
              (
                s',
                kept,
                rw (z, fine, l) e,
                fit,
                λ h. let (h1, v) = w h in (ground (arith, h1, u), ground (arith, h1, u, v)),
              )
        ]
  ]
