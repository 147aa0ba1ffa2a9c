-- ===== src/Formula/Objective/Values.antt =====
-- The value of an objective function, and what the constructor and `factorize` of
-- `PBObjFunction` (FormulaPB.h) keep of it.
use native.Mathlib.Nat
use dmeic.Prelude.{
  ℕ, ◌+◌, ◌*◌, ◌/◌, ◌≤◌, ◌<◌, ◌∣◌, ◌^◌, ◌==◌, ◌≡◌, refl, sym, ap, ◌∙◌, true, List, [], ◌∷◌, Option,
  none, some, arith, All, Bool-cases, inl, inr, if◌then◌else◌, ltb, length, lt→ltb, ltb→lt,
}
use dmeic.Prelude.Int.{ℤ, pos, ◌+ℤ◌}
use dmeic.Formula.Pb.{Term}
use dmeic.Formula.Objective.{
  Objective, Model, satisfied, sum_terms, denormalize, evaluate, divide_terms, factorize, coeffs,
  objective, raw, compute_sparse, answer, divide_by, divided,
}
use dmeic.Formula.Objective.Word.{word-small, to_int64-fits, IsInt64}
use dmeic.Formula.Objective.Factors.{largest}
use dmeic.Formula.Objective.Factors.Gcd.{common_factor-cases}

-- What the true terms add up to, when the model has all variables.
unfoldable pub model_weight : Model → List Term → ℕ
unfolding satisfied
model_weight m [] = 0
model_weight m (t ∷ ts) = (if satisfied m t.lit then t.coeff else 0) + model_weight m ts

abbrev pub Covers : Model → List Term → Type 0
Covers m ts = All (λ t. t.lit.var < length m) ts

pub sum_terms-Covers :
    (m : Model) (res : ℕ) (ts : List Term)
    → Covers m ts
    → sum_terms m res ts ≡ some (res + model_weight m ts)
unfolding sum_terms model_weight
sum_terms-Covers m res [] h = ap some (omega arith)
sum_terms-Covers m res (t ∷ ts) h =
    rw (lt→ltb t.lit.var (length m) h.0) (elim (Bool-cases (satisfied m t.lit)) [
      | inl e ↦ rw e (sum_terms-Covers m (res + t.coeff) ts h.1 ∙ ap some (omega arith))
      | inr e ↦ rw e (sum_terms-Covers m res ts h.1 ∙ ap some (omega arith))
    ])

pub Covers-of_sum :
    (m : Model) (res v : ℕ) (ts : List Term) → sum_terms m res ts ≡ some v → Covers m ts
unfolding sum_terms
Covers-of_sum m res v [] h = tt
Covers-of_sum m res v (t ∷ ts) h = elim (Bool-cases (ltb t.lit.var (length m))) [
  | inl e ↦ (
    ltb→lt t.lit.var (length m) e,
    Covers-of_sum m (if satisfied m t.lit then res + t.coeff else res) v ts (rw e at h),
  )
  | inr e ↦ absurd (off (rw e at h))
]
  where
    off : ¬ (none ≡ some v)
    off q = cc

abbrev times : ℕ → Option ℕ → Option ℕ
times g none = none
times g (some v) = some (v * g)

sum_terms-divide :
    (m : Model) (g acc : ℕ) (ts : List Term)
    → All (λ c. g ∣ c) (coeffs ts)
    → sum_terms m (acc * g) ts ≡ times g (sum_terms m acc (divide_terms g ts))
unfolding sum_terms divide_terms
sum_terms-divide m g acc [] h = refl
sum_terms-divide m g acc (t ∷ ts) h = elim (Bool-cases (ltb t.lit.var (length m))) [
  | inr e ↦ rw e refl
  | inl e ↦ rw e (elim (Bool-cases (satisfied m t.lit)) [
    | inl s ↦
        rw s (ap (λ v. sum_terms m v ts) joined ∙ sum_terms-divide m g (acc + t.coeff / g) ts h.1)
    | inr s ↦ rw s (sum_terms-divide m g acc ts h.1)
  ])
]
  where
    joined : acc * g + t.coeff ≡ (acc + t.coeff / g) * g
    joined = rw (Nat.add-mul acc (t.coeff / g) g, Nat.div-mul_cancel g h.0)

answer-times :
    (o p : Objective) (g : ℕ) (v : Option ℕ)
    → p.factor ≡ o.factor * g
    → p.shift_by ≡ o.shift_by
    → answer p true v ≡ answer o true (times g v)
unfolding answer denormalize
answer-times o p g none e f = refl
answer-times o p g (some v) e f = rw (e, f, Nat.mul_comm o.factor g, Nat.mul_assoc v g o.factor)

-- What `divide_by` does, by whether it divides.
pub divide_by-cases :
    (P : Objective → Type 0) (o : Objective)
    → 1 ≤ largest (coeffs o.terms)
    → largest (coeffs o.terms) < 2 ^ 53
    → P o
    → ((g : ℕ)
        → 0 < g
        → g ≤ largest (coeffs o.terms)
        → All (λ c. g ∣ c) (coeffs o.terms)
        → P (divided o g))
    → P (factorize o).1
unfolding factorize divide_by
divide_by-cases P o h small same other = elim (common_factor-cases (coeffs o.terms) h small) [
  | inl e ↦ rw e same
  | inr (g, e, ds, gp, le) ↦
      rw e (elim (Bool-cases (g == 1)) [
        | inl one ↦ rw one same
        | inr more ↦ rw more (other g gp le ds)
      ])
]

-- Where some coefficient is not 0, all are below 2 ^ 53, and the product of the factor and the
-- largest one fits, `factorize` keeps the value of the function under each model.
pub factorize-evaluate :
    (o : Objective) (m : Model)
    → 1 ≤ largest (coeffs o.terms)
    → largest (coeffs o.terms) < 2 ^ 53
    → o.factor * largest (coeffs o.terms) < 2 ^ 64
    → evaluate (factorize o).1 m true ≡ evaluate o m true
unfolding evaluate divided
factorize-evaluate o m h small fits =
    divide_by-cases (λ p. evaluate p m true ≡ evaluate o m true) o h small refl
      (λ g gp le ds.
        answer-times o (divided o g) g (sum_terms m 0 (divide_terms g o.terms))
          (word-small (o.factor * g) (omega (arith, Nat.mul-le-mul_left o.factor le, fits))) refl
        ∙ ap (answer o true) (
            sym (
              ap (λ v. sum_terms m v o.terms) (sym (Nat.zero-mul g))
              ∙ sum_terms-divide m g 0 o.terms ds)))

compute_sparse-evaluate :
    (o : Objective) (m : Model) → evaluate (compute_sparse o).1 m true ≡ evaluate o m true
unfolding compute_sparse evaluate answer denormalize
compute_sparse-evaluate o m = elim (Bool-cases (length o.terms == 0)) [
  | inl e ↦ rw e refl
  | inr e ↦ rw e refl
]

-- The constructor keeps the function that it is given. Some coefficient is not 0, all are below
-- 2 ^ 53, and the product of the factor and the largest one is below 2 ^ 63: where the true literals
-- add up to `v`, and `v * factor + c` is a number of `int64_t`, the new object has that value.
pub objective-evaluate :
    (ts : List Term) (c : ℤ) (factor : ℕ) (m : Model) (v : ℕ)
    → 1 ≤ largest (coeffs ts)
    → largest (coeffs ts) < 2 ^ 53
    → factor * largest (coeffs ts) < 2 ^ 63
    → sum_terms m 0 ts ≡ some v
    → IsInt64 (pos (v * factor) +ℤ c)
    → evaluate (objective ts c factor) m true ≡ some (pos (v * factor) +ℤ c)
unfolding objective evaluate answer denormalize raw
objective-evaluate ts c factor m v h small fits e int =
    compute_sparse-evaluate (factorize (raw ts c factor)).1 m
    ∙ factorize-evaluate (raw ts c factor) m h small (omega (arith, fits))
    ∙ rw e (ap some (to_int64-fits (pos (v * factor) +ℤ c) int))
