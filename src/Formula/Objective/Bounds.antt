-- ===== src/Formula/Objective/Bounds.antt =====
-- The bounds that the constructor of `PBObjFunction` (FormulaPB.h) stores with the coefficients.
use native.Mathlib.Nat
use dmeic.Prelude.{
  ℕ, ◌+◌, ◌*◌, ◌/◌, ◌≤◌, ◌<◌, ◌∣◌, ◌^◌, ◌==◌, ◌≡◌, sym, ap, ◌∙◌, subst, false, List, [], ◌∷◌, none,
  some, arith, All, Bool-cases, inl, inr, if◌then◌else◌, ltb, length, some_injective, Option-cases,
}
use dmeic.Prelude.Int.{ℤ, pos, ◌≤ℤ◌}
use dmeic.Formula.Pb.{Term}
use dmeic.Formula.Pb.Meaning.{total}
use dmeic.Formula.Objective.{
  Objective, Model, sum_terms, evaluate, answer, divide_terms, divided, factorize, coeffs,
  objective, raw, compute_sparse, extent, extend, Extent,
}
use dmeic.Formula.Objective.Word.{word, word-small, to_int64, to_int64-le}
use dmeic.Formula.Objective.Factors.{largest}
use dmeic.Formula.Objective.Values.{divide_by-cases, model_weight, sum_terms-Covers, Covers-of_sum}

abbrev pub IsWithin : Objective → List Term → Type 0
IsWithin o ts = All (λ c. (o.min_coeff ≤ c) × (c ≤ o.max_coeff)) (coeffs ts)

-- The bounds hold of the coefficients and of the normalised value.
pub record IsBounded (o : Objective) : Type 0 where
  pub coefficients : IsWithin o o.terms
  pub sum : total o.terms ≤ o.ub

extend-bounds :
    (e : Extent) (ts : List Term)
    → let r = extend e (coeffs ts) in
      (r.least ≤ e.least)
      × (e.greatest ≤ r.greatest)
      × (r.sum ≡ e.sum + total ts)
      × All (λ c. (r.least ≤ c) × (c ≤ r.greatest)) (coeffs ts)
unfolding extend total
extend-bounds e [] = (omega arith, omega arith, omega arith, tt)
extend-bounds e (t ∷ ts) =
    let next : Extent = record {
      least = if ltb t.coeff e.least then t.coeff else e.least;
      greatest = if ltb e.greatest t.coeff then t.coeff else e.greatest;
      sum = if ltb 0 t.coeff then e.sum + t.coeff else e.sum;
    } in
    let (low, high, sum, rest) = extend-bounds next ts in
    (
      ground (arith, low),
      ground (arith, high),
      ground (arith, sum),
      ((ground (arith, low), ground (arith, high)), rest),
    )

raw-IsBounded :
    (ts : List Term) (c : ℤ) (factor : ℕ)
    → 0 < factor
    → total ts * factor < 2 ^ 64
    → IsBounded (raw ts c factor)
unfolding raw extent total
raw-IsBounded [] c factor h fits = record { coefficients = tt; sum = omega arith }
raw-IsBounded (t ∷ ts) c factor h fits =
    let first : Extent = record {
      least = t.coeff;
      greatest = t.coeff;
      sum = if ltb 0 t.coeff then t.coeff else 0;
    } in
    let (low, high, sum, rest) = extend-bounds first ts in
    record {
      coefficients = ((low, high), rest);
      sum =
          let whole : (extend first (coeffs ts)).sum ≡ t.coeff + total ts = ground (arith, sum) in
          subst (λ s. t.coeff + total ts ≤ word (s * factor)) (sym whole)
            (subst (λ s. t.coeff + total ts ≤ s)
              (sym (word-small ((t.coeff + total ts) * factor) fits))
              (subst (λ s. s ≤ (t.coeff + total ts) * factor) (Nat.mul-one (t.coeff + total ts))
                (Nat.mul-le-mul_left (t.coeff + total ts) h)));
    }

divide_terms-total :
    (g : ℕ) (ts : List Term)
    → All (λ c. g ∣ c) (coeffs ts)
    → total (divide_terms g ts) * g ≡ total ts
unfolding total divide_terms
divide_terms-total g [] h = Nat.zero-mul g
divide_terms-total g (t ∷ ts) h = rw (
  Nat.add-mul (t.coeff / g) (total (divide_terms g ts)) g,
  Nat.div-mul_cancel g h.0,
  divide_terms-total g ts h.1,
)

div_mono : (g a b : ℕ) → 0 < g → a ≤ b → a / g ≤ b / g
div_mono g a b gp h = (Nat.le-div_iff_mul-le gp).1 (Nat.le_trans (Nat.div-mul-le_self a g) h)

divided-within :
    (g low high : ℕ) (ts : List Term)
    → 0 < g
    → All (λ c. (low ≤ c) × (c ≤ high)) (coeffs ts)
    → All (λ c. (low / g ≤ c) × (c ≤ high / g)) (coeffs (divide_terms g ts))
unfolding divide_terms
divided-within g low high [] gp h = tt
divided-within g low high (t ∷ ts) gp h = (
  (div_mono g low t.coeff gp h.0.0, div_mono g t.coeff high gp h.0.1),
  divided-within g low high ts gp h.1,
)

divided-IsBounded :
    (o : Objective) (g : ℕ)
    → 0 < g
    → All (λ c. g ∣ c) (coeffs o.terms)
    → IsBounded o
    → IsBounded (divided o g)
unfolding divided
divided-IsBounded o g gp ds h = record {
  coefficients = divided-within g o.min_coeff o.max_coeff o.terms gp h.coefficients;
  sum =
      (Nat.le-div_iff_mul-le gp).1
        (subst (λ s. s ≤ o.ub) (sym (divide_terms-total g o.terms ds)) h.sum);
}

compute_sparse-IsBounded : (o : Objective) → IsBounded o → IsBounded (compute_sparse o).1
unfolding compute_sparse
compute_sparse-IsBounded o h = elim (Bool-cases (length o.terms == 0)) [
  | inl e ↦ rw e h
  | inr e ↦ rw e (record { coefficients = h.coefficients; sum = h.sum })
]

objective-IsBounded :
    (ts : List Term) (c : ℤ) (factor : ℕ)
    → 0 < factor
    → 1 ≤ largest (coeffs ts)
    → largest (coeffs ts) < 2 ^ 53
    → total ts * factor < 2 ^ 64
    → IsBounded (objective ts c factor)
unfolding objective raw
objective-IsBounded ts c factor f h small fits =
    let start = raw-IsBounded ts c factor f fits in
    compute_sparse-IsBounded (factorize (raw ts c factor)).1 (
      divide_by-cases IsBounded (raw ts c factor) h small start
        (λ g gp le ds. divided-IsBounded (raw ts c factor) g gp ds start))

pub model_weight-le : (m : Model) (ts : List Term) → model_weight m ts ≤ total ts
unfolding model_weight total
model_weight-le m [] = omega arith
model_weight-le m (t ∷ ts) = ground (arith, model_weight-le m ts)

answer_sum :
    (o : Objective) (m : Model) (v : ℤ)
    → evaluate o m false ≡ some v
    → v ≡ to_int64 (pos (model_weight m o.terms))
unfolding evaluate answer
answer_sum o m v h = elim (Option-cases (sum_terms m 0 o.terms)) [
  | inl e ↦ absurd (off (rw e at h))
  | inr (s, e) ↦
      let covered = sum_terms-Covers m 0 o.terms (Covers-of_sum m 0 s o.terms e) in
      sym (some_injective (rw covered at h))
      ∙ ap (λ n. to_int64 (pos n)) (plain (model_weight m o.terms))
]
  where
    off : ¬ (none ≡ some v)
    off q = cc

    plain : (w : ℕ) → 0 + w ≡ w
    plain w = omega arith

-- An object from the constructor, where some coefficient and the factor are not 0, the coefficients
-- are below 2 ^ 53, and their sum times the factor is below 2 ^ 64: its least and greatest coefficient
-- bound them all, and under each model its normalised value is at most `_ub`.
pub objective-evaluate_le :
    (ts : List Term) (c : ℤ) (factor : ℕ) (m : Model) (v : ℤ)
    → 0 < factor
    → 1 ≤ largest (coeffs ts)
    → largest (coeffs ts) < 2 ^ 53
    → total ts * factor < 2 ^ 64
    → evaluate (objective ts c factor) m false ≡ some v
    → IsWithin (objective ts c factor) (objective ts c factor).terms
      × (v ≤ℤ pos (objective ts c factor).ub)
objective-evaluate_le ts c factor m v f h small fits e =
    let o = objective ts c factor in
    let b = objective-IsBounded ts c factor f h small fits in
    let w = model_weight-le m o.terms in
    (
      b.coefficients,
      subst (λ t. t ≤ℤ pos o.ub) (sym (answer_sum o m v e))
          (omega (arith, to_int64-le (model_weight m o.terms), w, b.sum)),
    )
