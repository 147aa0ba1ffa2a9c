-- ===== src/Formula/Objective/Factors/Trial.antt =====
-- The trial division of `PBObjFunction::factorize` (FormulaPB.h).
use native.Mathlib.Nat
use dmeic.Prelude.{
  ℕ, zero, suc, ◌+◌, ◌-◌, ◌*◌, ◌/◌, ◌%◌, ◌^◌, ◌≤◌, ◌<◌, ◌∣◌, ◌==◌, ◌≡◌, ◌≢◌, refl, ap, ◌∙◌, subst,
  List, [], ◌∷◌, some, leb, leb→le, leb→gt, ==_iff, arith, All, Pairwise, Bool-cases, inl, inr,
  IsPrime, HasNone, HasNone-dvd, HasNone-suc, IsPrime-of_least, IsPrime-of_small,
}
use dmeic.Formula.Objective.Factors.{Factor, bump, trial_loop}
use dmeic.Formula.Objective.Factors.Double.{power_product}

-- Different primes.
abbrev pub IsFactored : List Factor → Type 0
IsFactored fs = Pairwise (λ f g. f.base ≢ g.base) fs × All (λ f. IsPrime f.base) fs

bump-ne :
    (d b : ℕ) (fs : List Factor)
    → b ≢ d
    → All (λ g. b ≢ g.base) fs
    → All (λ g. b ≢ g.base) (bump d fs)
unfolding bump
bump-ne d b [] ne h = (ne, tt)
bump-ne d b (f ∷ fs) ne h = elim (Bool-cases (f.base == d)) [
  | inl e ↦ rw e (ne, h.1)
  | inr e ↦ rw e (h.0, bump-ne d b fs ne h.1)
]

bump-power_product : (d : ℕ) (fs : List Factor) → power_product (bump d fs) ≡ d * power_product fs
unfolding bump power_product
bump-power_product d [] = rw (Nat.pow-succ' d 0, Nat.pow-zero d, Nat.mul-one d, Nat.mul-one d)
bump-power_product d (f ∷ fs) = elim (Bool-cases (f.base == d)) [
  | inl e ↦ rw e (rw ((==_iff f.base d).0 e, Nat.pow-succ' d f.count, Nat.mul_assoc d))
  | inr e ↦
      rw (e, bump-power_product d fs, Nat.mul_left_comm d (f.base ^ f.count) (power_product fs))
]

bump-IsFactored : (d : ℕ) (fs : List Factor) → IsPrime d → IsFactored fs → IsFactored (bump d fs)
unfolding bump
bump-IsFactored d [] p h = ((tt, tt), (p, tt))
bump-IsFactored d (f ∷ fs) p h = elim (Bool-cases (f.base == d)) [
  | inl e ↦
      let b = (==_iff f.base d).0 e in
      rw e ((subst (λ t. All (λ g. t ≢ g.base) fs) b h.0.0, h.0.1), (p, h.1.1))
  | inr e ↦
      let rest = bump-IsFactored d fs p (h.0.1, h.1.1) in
      let ne : f.base ≢ d = λ q. cc (e, (==_iff f.base d).1 q) in
      rw e ((bump-ne d f.base fs ne h.0.0, rest.0), (h.1.0, rest.1))
]

square-le : (d n : ℕ) → 2 ≤ d → d * d ≤ n → d ≤ n
square-le d n two le =
    Nat.le_trans (subst (λ t. t ≤ d * d) (Nat.mul-one d) (Nat.mul-le-mul_left d (omega arith))) le

-- What the loop keeps: the factors found so far are different primes, and what is left has no
-- divisor below the next one to try.
abbrev Result : (n cur d : ℕ) → List Factor → Type 0
Result n cur d fs =
    (r : List Factor) × (trial_loop n cur d fs ≡ some r)
    × IsFactored r
    × (power_product r ≡ power_product fs * cur)

pub trial_loop-some :
    (n cur d : ℕ) (fs : List Factor)
    → 2 ≤ cur
    → 2 ≤ d
    → HasNone d cur
    → IsFactored fs
    → cur + 1 - d < n
    → Result n cur d fs
unfolding trial_loop
trial_loop-some zero cur d fs c two none h fuel = absurd (omega arith)
trial_loop-some (suc n) cur d fs c two none h fuel = elim (Bool-cases (leb (d * d) cur)) [
  | inr big ↦ rw big (
    bump cur fs,
    refl,
    bump-IsFactored cur fs (IsPrime-of_small d cur c none (leb→gt (d * d) cur big)) h,
    bump-power_product cur fs ∙ Nat.mul_comm cur (power_product fs),
  )
  | inl small ↦
      let le = leb→le (d * d) cur small in
      let below = square-le d cur two le in
      elim (Bool-cases (cur % d == 0)) [
        | inr e ↦
            let ndvd : ¬ (d ∣ cur) =
              λ q. cc (e, (==_iff (cur % d) 0).1 (Nat.mod-eq-zero_of_dvd d q)) in
            rw (small, e)
              (trial_loop-some n cur (suc d) fs c (omega (arith, two)) (HasNone-suc d cur none ndvd)
                h (omega (arith, fuel, below)))
        | inl e ↦
            let dvd = Nat.dvd_of_mod-eq-zero d ((==_iff (cur % d) 0).0 e) in
            let back = Nat.mul-div_cancel' d dvd in
            let least : d ≤ cur / d = (Nat.le-div_iff_mul-le (omega (arith, two))).1 le in
            let lt : cur / d < cur = Nat.div-lt_self (omega (arith, c)) (omega (arith, two)) in
            let part : cur / d ∣ cur =
              subst (λ t. cur / d ∣ t) back (Nat.dvd-mul_left (cur / d) d) in
            let (r, eq, factored, prod) =
              trial_loop-some n (cur / d) d (bump d fs) (omega (arith, two, least)) two
                (HasNone-dvd d (cur / d) cur part none)
                (bump-IsFactored d fs (IsPrime-of_least d cur two none dvd) h)
                (omega (arith, fuel, lt, below)) in
            rw (small, e)
              (
                r,
                eq,
                factored,
                prod ∙ regroup d cur (power_product fs) (bump d fs) (bump-power_product d fs) back,
              )
      ]
]
  where
    regroup :
        (d cur q : ℕ) (gs : List Factor)
        → power_product gs ≡ d * q
        → d * (cur / d) ≡ cur
        → power_product gs * (cur / d) ≡ q * cur
    regroup d cur q gs e back =
        rw e (Nat.mul_right_comm d q (cur / d) ∙ ap (λ t. t * q) back ∙ Nat.mul_comm cur q)
