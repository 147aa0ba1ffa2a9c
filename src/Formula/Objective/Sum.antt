-- ===== src/Formula/Objective/Sum.antt =====
-- `add` of FormulaPB.cc: the sum of two objective functions.
use native.Mathlib.Nat
use dmeic.Prelude.{
  ℕ, ◌+◌, ◌*◌, ◌-◌, ◌^◌, subst, ◌≤◌, ◌<◌, ◌==◌, ==_iff, ◌≡◌, refl, sym, ap, ◌∙◌, Bool, true, false,
  List, [], ◌∷◌, none, some, arith, Bool-cases, inl, inr, if◌then◌else◌, ltb, length,
  some_injective, Option-cases,
}
use dmeic.Prelude.Int.{ℤ, pos, negsuc, ◌+ℤ◌, ◌≤ℤ◌, int_laws}
use dmeic.Encoding.Solver.{Lit, mk_lit}
use dmeic.Formula.Pb.{Term}
use dmeic.Formula.Pb.Meaning.{total}
use dmeic.Formula.Objective.{
  Objective, Model, satisfied, sum_terms, evaluate, answer, denormalize, coeffs, objective, add_to,
  gather, add, index,
}
use dmeic.Formula.Objective.Word.{word, word-small, to_int64, to_int64-fits, IsInt64}
use dmeic.Formula.Objective.Factors.{largest}
use dmeic.Formula.Objective.Bounds.{model_weight-le}
use dmeic.Formula.Objective.Values.{
  model_weight, Covers, sum_terms-Covers, Covers-of_sum, objective-evaluate,
}

index_parts :
    (v w : ℕ) (s t : Bool)
    → (if s then v * 2 + 1 else v * 2) ≡ (if t then w * 2 + 1 else w * 2)
    → mk_lit v s ≡ mk_lit w t
index_parts v w true true h = let e : v ≡ w = omega (arith, h) in ap (λ x. mk_lit x true) e
index_parts v w true false h = absurd (omega (arith, h))
index_parts v w false true h = absurd (omega (arith, h))
index_parts v w false false h = let e : v ≡ w = omega (arith, h) in ap (λ x. mk_lit x false) e

index-injective : (l r : Lit) → index l ≡ index r → l ≡ r
index-injective l r h = index_parts l.var r.var l.sign r.sign h

abbrev share : Model → Lit → ℕ → ℕ
share m l c = if satisfied m l then c else 0

add_to-weight :
    (m : Model) (l : Lit) (c : ℕ) (ts : List Term)
    → total ts + c < 2 ^ 64
    → (model_weight m (add_to l c ts) ≡ model_weight m ts + share m l c)
      × (total (add_to l c ts) ≡ total ts + c)
unfolding add_to model_weight total
add_to-weight m l c [] h = (omega arith, omega arith)
add_to-weight m l c (t ∷ ts) h = elim (Bool-cases (index l == index t.lit)) [
  | inl e ↦
      let same = index-injective l t.lit ((==_iff (index l) (index t.lit)).0 e) in
      let whole = word-small (t.coeff + c) (omega (arith, h)) in
      rw (e, same, whole) (joined (satisfied m t.lit) t.coeff (model_weight m ts), omega arith)
  | inr e ↦ rw e (elim (Bool-cases (ltb (index l) (index t.lit))) [
    | inl f ↦ rw f (omega arith, omega arith)
    | inr f ↦
        let (w, t') = add_to-weight m l c ts (omega (arith, h)) in
        rw f (omega (arith, w), omega (arith, t'))
  ])
]
  where
    joined :
        (b : Bool) (a r : ℕ)
        → (if b then a + c else 0) + r ≡ (if b then a else 0) + r + (if b then c else 0)
    joined b a r = ground arith

add_to-Covers :
    (m : Model) (l : Lit) (c : ℕ) (ts : List Term)
    → l.var < length m
    → Covers m ts
    → Covers m (add_to l c ts)
unfolding add_to
add_to-Covers m l c [] h k = (h, tt)
add_to-Covers m l c (t ∷ ts) h k = elim (Bool-cases (index l == index t.lit)) [
  | inl e ↦ rw e k
  | inr e ↦ rw e (elim (Bool-cases (ltb (index l) (index t.lit))) [
    | inl f ↦ rw f (h, k)
    | inr f ↦ rw f (k.0, add_to-Covers m l c ts h k.1)
  ])
]

gather-Covers :
    (m : Model) (f : ℕ) (acc ts : List Term)
    → Covers m acc
    → Covers m ts
    → Covers m (gather f acc ts)
unfolding gather
gather-Covers m f acc [] h k = h
gather-Covers m f acc (t ∷ ts) h k =
    gather-Covers m f (add_to t.lit (word (t.coeff * f)) acc) ts
      (add_to-Covers m t.lit (word (t.coeff * f)) acc k.0 h) k.1

gather-weight :
    (m : Model) (f : ℕ) (acc ts : List Term)
    → total acc + total ts * f < 2 ^ 64
    → (model_weight m (gather f acc ts) ≡ model_weight m acc + model_weight m ts * f)
      × (total (gather f acc ts) ≡ total acc + total ts * f)
unfolding gather model_weight total
gather-weight m f acc [] h = rw (Nat.zero-mul f) (omega arith, omega arith)
gather-weight m f acc (t ∷ ts) h =
    let apart = Nat.add-mul t.coeff (total ts) f in
    let whole = word-small (t.coeff * f) (omega (arith, h, apart)) in
    let (w, t') = add_to-weight m t.lit (t.coeff * f) acc (omega (arith, h, apart)) in
    let (w', t'') =
      gather-weight m f (add_to t.lit (t.coeff * f) acc) ts (omega (arith, h, apart, t')) in
    rw whole (
      w'
          ∙ rw (w, Nat.add-mul (share m t.lit t.coeff) (model_weight m ts) f)
              (spread (satisfied m t.lit) (model_weight m acc) (model_weight m ts * f)),
      omega (arith, t'', t', apart),
    )
  where
    spread :
        (b : Bool) (x y : ℕ)
        → x + (if b then t.coeff * f else 0) + y ≡ x + ((if b then t.coeff else 0) * f + y)
    spread true x y = omega arith
    spread false x y = rw (Nat.zero-mul f) (omega arith)

-- What a value says of the function.
value_parts :
    (o : Objective) (m : Model) (x : ℤ)
    → evaluate o m true ≡ some x
    → Covers m o.terms × (x ≡ to_int64 (pos (model_weight m o.terms * o.factor) +ℤ o.shift_by))
unfolding evaluate answer denormalize
value_parts o m x h = elim (Option-cases (sum_terms m 0 o.terms)) [
  | inl e ↦ absurd (off (rw e at h))
  | inr (s, e) ↦
      let c = Covers-of_sum m 0 s o.terms e in
      (
        c,
        sym (some_injective (rw (sum_terms-Covers m 0 o.terms c) at h))
            ∙ plain (model_weight m o.terms),
      )
]
  where
    off : ¬ (none ≡ some x)
    off q = cc

    plain :
        (w : ℕ)
        → to_int64 (pos ((0 + w) * o.factor) +ℤ o.shift_by)
          ≡ to_int64 (pos (w * o.factor) +ℤ o.shift_by)
    plain w = let e : 0 + w ≡ w = omega arith in rw e

-- A constant far from the ends of `int64_t`.
abbrev pub IsModest : ℤ → Type 0
IsModest c = (negsuc (2 ^ 61 - 1) ≤ℤ c) × (c ≤ℤ pos (2 ^ 61))

sum-IsInt64 :
    (p q : ℕ) (c d : ℤ)
    → p + q < 2 ^ 62
    → IsModest c
    → IsModest d
    → (to_int64 (pos p +ℤ c) +ℤ to_int64 (pos q +ℤ d)
        ≡ pos ((0 + (p + q)) * 1) +ℤ to_int64 (c +ℤ d))
      × IsInt64 (pos ((0 + (p + q)) * 1) +ℤ to_int64 (c +ℤ d))
sum-IsInt64 p q c d h hc hd =
    let first = to_int64-fits (pos p +ℤ c) (omega (int_laws, h, hc), omega (int_laws, h, hc)) in
    let second = to_int64-fits (pos q +ℤ d) (omega (int_laws, h, hd), omega (int_laws, h, hd)) in
    let both = to_int64-fits (c +ℤ d) (omega (int_laws, hc, hd), omega (int_laws, hc, hd)) in
    rw (first, second, both)
      (omega int_laws, (omega (int_laws, h, hc, hd), omega (int_laws, h, hc, hd)))

-- `add` of two functions that have the values `x` and `y` under a model is a function with the value
-- `x + y`, where some coefficient of the sum is not 0 and all are below 2 ^ 53, the two greatest
-- values without the constants add up to less than 2 ^ 62, and the constants are at most 2 ^ 61 in
-- size.
pub add-evaluate :
    (a b : Objective) (m : Model) (x y : ℤ)
    → 1 ≤ largest (coeffs (gather b.factor (gather a.factor [] a.terms) b.terms))
    → largest (coeffs (gather b.factor (gather a.factor [] a.terms) b.terms)) < 2 ^ 53
    → total a.terms * a.factor + total b.terms * b.factor < 2 ^ 62
    → IsModest a.shift_by
    → IsModest b.shift_by
    → evaluate a m true ≡ some x
    → evaluate b m true ≡ some y
    → (s : Objective) × (add (some a) (some b) ≡ some s) × (evaluate s m true ≡ some (x +ℤ y))
unfolding add model_weight total
add-evaluate a b m x y h small fits ac bc ha hb =
    let (ca, xa) = value_parts a m x ha in
    let (cb, yb) = value_parts b m y hb in
    let first = gather a.factor [] a.terms in
    let ts = gather b.factor first b.terms in
    let covered =
      gather-Covers m b.factor first b.terms (gather-Covers m a.factor [] a.terms tt ca) cb in
    let (wa, ta) = gather-weight m a.factor [] a.terms (omega (arith, fits)) in
    let (wb, tb) = gather-weight m b.factor first b.terms (omega (arith, fits, ta)) in
    let p = model_weight m a.terms * a.factor in
    let q = model_weight m b.terms * b.factor in
    let p_le : p ≤ total a.terms * a.factor =
      Nat.mul-le-mul_right a.factor (model_weight-le m a.terms) in
    let q_le : q ≤ total b.terms * b.factor =
      Nat.mul-le-mul_right b.factor (model_weight-le m b.terms) in
    let (same, int) =
      sum-IsInt64 p q a.shift_by b.shift_by (omega (arith, fits, p_le, q_le)) ac bc in
    let weight : model_weight m ts ≡ p + q = omega (arith, wa, wb) in
    let c = to_int64 (a.shift_by +ℤ b.shift_by) in
    (
      objective ts c 1,
      refl,
      objective-evaluate ts c 1 m (0 + model_weight m ts) h small (omega (arith, small))
            (sum_terms-Covers m 0 ts covered)
            (subst (λ w. IsInt64 (pos ((0 + w) * 1) +ℤ c)) (sym weight) int)
          ∙ ap some (ap (λ w. pos ((0 + w) * 1) +ℤ c) weight ∙ sym same ∙ sym (rw (xa, yb) refl)),
    )
