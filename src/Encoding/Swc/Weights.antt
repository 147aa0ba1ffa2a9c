-- ===== src/Encoding/Swc/Weights.antt =====
-- Sums of coefficients over terms that `SWC` splits and joins.
use dmeic.Prelude.{
  some_injective, ℕ, ◌+◌, ◌≡◌, refl, subst, ap, false, List, [], ◌∷◌, ◌++◌, some, arith, leb,
  leb→le, Bool-cases, inl, inr, length,
}
use dmeic.Encoding.Solver.{Lit, Assignment}
use dmeic.Encoding.Swc.{Term, split, last_row}
use dmeic.Encoding.Swc.Increment.{unfit, last_two}
use dmeic.Encoding.Swc.Counting.{
  weight, last_row-Counts, gain, weight-gain, Counts, AllCount, FitIn,
}

module _ (σ : Assignment) where
  pub weight-append : (ts us : List Term) → weight σ (ts ++ us) ≡ weight σ ts + weight σ us
  unfolding weight
  weight-append [] us = omega arith
  weight-append (t ∷ ts) us = ground (arith, weight-append ts us)

  split-weight :
      (rhs : ℕ) (ts : List Term)
      → weight σ ts ≡ weight σ (split rhs ts).0 + weight σ (split rhs ts).1
  unfolding split weight
  split-weight rhs [] = refl
  split-weight rhs (t ∷ ts) =
      let ih = split-weight rhs ts in
      elim (Bool-cases (leb t.coeff rhs)) [
        | inl l ↦ rw l (ground (arith, ih))
        | inr l ↦ rw l (ground (arith, ih))
      ]

  pub split-FitIn : (rhs : ℕ) (ts : List Term) → FitIn σ rhs (split rhs ts).0
  unfolding split
  split-FitIn rhs [] = tt
  split-FitIn rhs (t ∷ ts) = elim (Bool-cases (leb t.coeff rhs)) [
    | inl l ↦ rw l (leb→le _ _ l, split-FitIn rhs ts)
    | inr l ↦ rw l (split-FitIn rhs ts)
  ]

  pub split_both :
      (rhs : ℕ) (us ts : List Term)
      → weight σ us + weight σ ts
        ≡ weight σ ((split rhs us).0 ++ (split rhs ts).0)
          + weight σ ((split rhs us).1 ++ (split rhs ts).1)
  split_both rhs us ts = omega (
    arith,
    split-weight rhs us,
    split-weight rhs ts,
    weight-append (split rhs us).0 (split rhs ts).0,
    weight-append (split rhs us).1 (split rhs ts).1,
  )

  pub unfit-FitIn : (rhs : ℕ) (ts : List Term) → unfit rhs ts ≡ false → FitIn σ rhs ts
  unfit-FitIn rhs [] h = tt
  unfit-FitIn rhs (t ∷ ts) h = (ground (arith, h), unfit-FitIn rhs ts (ground (arith, h)))

  pub AllCount-append :
      (rhs n : ℕ) (ts us : List Term) (rows new : List (List Lit))
      → length rows ≡ length ts
      → AllCount σ rhs n ts rows
      → AllCount σ rhs (n + weight σ ts) us new
      → AllCount σ rhs n (ts ++ us) (rows ++ new)
  unfolding weight
  AllCount-append rhs n [] us [] new same all later =
      subst (λ k. AllCount σ rhs k us new) (omega arith) later
  AllCount-append rhs n [] us (row ∷ rows) new same all later = absurd (omega (arith, same))
  AllCount-append rhs n (t ∷ ts) us [] new same all later = absurd (omega (arith, same))
  AllCount-append rhs n (t ∷ ts) us (row ∷ rows) new same all later = (
    all.0,
    AllCount-append rhs (gain σ t n) ts us rows new (omega (arith, same)) all.1
        (subst (λ k. AllCount σ rhs k us new) (weight-gain σ t ts n) later),
  )

  last_two-last_row :
      (rows : List (List Lit)) (prev row : List Lit)
      → last_two rows ≡ some (prev, row)
      → last_row rows ≡ row
  last_two-last_row [] prev row e = absurd (ground (arith, e))
  last_two-last_row (r ∷ []) prev row e = absurd (ground (arith, e))
  last_two-last_row (r ∷ q ∷ []) prev row e = ap (λ p. p.1) (some_injective e)
  last_two-last_row (r ∷ q ∷ p ∷ rows) prev row e = last_two-last_row (q ∷ p ∷ rows) prev row e

  -- The row that `join` goes on from counts the whole sum.
  pub last_two-Counts :
      (rhs n : ℕ) (ts : List Term) (rows : List (List Lit)) (prev row : List Lit)
      → length rows ≡ length ts
      → AllCount σ rhs n ts rows
      → last_two rows ≡ some (prev, row)
      → Counts σ rhs (n + weight σ ts) row
  last_two-Counts rhs n ts [] prev row same all e = absurd (ground (arith, e))
  last_two-Counts rhs n [] (r ∷ rows) prev row same all e = absurd (omega (arith, same))
  last_two-Counts rhs n (t ∷ ts) (r ∷ rows) prev row same all e =
      subst (Counts σ rhs (n + weight σ (t ∷ ts))) (last_two-last_row (r ∷ rows) prev row e)
        (last_row-Counts σ rhs n t ts r rows (omega (arith, same)) all)
