-- ===== src/Formula/Objective/Factors/Powers.antt =====
-- The least exponents in `PBObjFunction::factorize` (FormulaPB.h): which powers divide a coefficient.
use native.Mathlib.Nat
use native.Mathlib.Decide.{dec_lt}
use dmeic.Prelude.{
  ℕ, zero, suc, ◌+◌, ◌-◌, ◌*◌, ◌/◌, ◌%◌, ◌^◌, ◌≤◌, ◌<◌, ◌∣◌, ◌==◌, ◌≡◌, ◌≢◌, sym, ◌∙◌, subst, List,
  [], ◌∷◌, ==_iff, arith, All, Bool-cases, inl, inr, IsPrime, dvd-pow_drop, pow-dvd_add, prime_pos,
}
use dmeic.Formula.Objective.Factors.{Factor, exponent, lower_counts}
use dmeic.Formula.Objective.Factors.Double.{power_product}
use dmeic.Formula.Objective.Factors.Trial.{IsFactored}

-- The exponent that is found is at most the bound, the power divides, and the next one does not
-- when the bound is not met.
pub exponent-power :
    (left n b cur c : ℕ)
    → 0 < b
    → b ^ n * cur ≡ c
    → let m = exponent left n b cur in
      (m ≤ n + left) × (b ^ m ∣ c) × (m < n + left → ¬ (b ^ suc m ∣ c))
unfolding exponent
exponent-power zero n b cur c p e = (
  omega arith,
  subst (λ t. b ^ n ∣ t) e (Nat.dvd-mul_right (b ^ n) cur),
  λ lt. absurd (omega (arith, lt)),
)
exponent-power (suc left) n b cur c p e = elim (Bool-cases (cur % b == 0)) [
  | inl q ↦
      let dvd = Nat.dvd_of_mod-eq-zero b ((==_iff (cur % b) 0).0 q) in
      let (le, pow, next) = exponent-power left (suc n) b (cur / b) c p (shift dvd ∙ e) in
      rw q (omega (arith, le), pow, λ lt. next (omega (arith, lt)))
  | inr q ↦ rw q (
    omega arith,
    subst (λ t. b ^ n ∣ t) e (Nat.dvd-mul_right (b ^ n) cur),
    λ _ d. cc (q, (==_iff (cur % b) 0).1 (Nat.mod-eq-zero_of_dvd b (rest d))),
  )
]
  where
    shift : b ∣ cur → b ^ suc n * (cur / b) ≡ b ^ n * cur
    shift dvd = rw (Nat.pow-suc b n, Nat.mul_assoc (b ^ n) b (cur / b), Nat.mul-div_cancel' b dvd)

    rest : b ^ suc n ∣ c → b ∣ cur
    rest d =
        Nat.dvd_of_mul-dvd-mul_left b (Nat.one-le-pow n b p)
          (subst (λ t. t ∣ b ^ n * cur) (Nat.pow-suc b n) (subst (λ t. b ^ suc n ∣ t) (sym e) d))

-- Down to the exponent of a number that `k` divides.
drop_to : (p k m i q : ℕ) → IsPrime p → ¬ (p ^ suc m ∣ k) → k ∣ p ^ (m + i) * q → k ∣ p ^ m * q
drop_to p k m zero q prime few h = subst (λ t. k ∣ p ^ t * q) (Nat.add-zero m) h
drop_to p k m (suc i) q prime few h = drop_to p k m i q prime few (
    dvd-pow_drop p k (m + i) q prime (subst (λ t. k ∣ p ^ t * q) (Nat.add-suc m i) h) (λ d. few (
      Nat.dvd_trans (p ^ suc m) (pow-dvd_add p (suc m) i)
        (subst (λ t. p ^ t ∣ k) (sym (Nat.suc-add m i)) d))))

-- A number that divides the power_product and the coefficient divides the power_product that is left.
pub lower_counts-greatest :
    (k c q : ℕ) (fs : List Factor)
    → All (λ f. IsPrime f.base) fs
    → k ∣ c
    → k ∣ q * power_product fs
    → k ∣ q * power_product (lower_counts c fs)
unfolding lower_counts power_product
lower_counts-greatest k c q [] primes kc h = h
lower_counts-greatest k c q (f ∷ fs) primes kc h =
    let m = exponent f.count 0 f.base c in
    let (le, _, next) = exponent-power f.count 0 f.base c c (prime_pos f.base primes.0) start in
    let first : k ∣ f.base ^ f.count * (q * power_product fs) =
      subst (λ t. k ∣ t) (Nat.mul_left_comm q (f.base ^ f.count) (power_product fs)) h in
    let down : k ∣ f.base ^ m * (q * power_product fs) = lowered m first (omega (arith, le)) next in
    subst (λ t. k ∣ t) (Nat.mul_assoc q (f.base ^ m) (power_product (lower_counts c fs)))
      (lower_counts-greatest k c (q * f.base ^ m) fs primes.1 kc (subst (λ t. k ∣ t) (turn m) down))
  where
    start : f.base ^ 0 * c ≡ c
    start = rw (Nat.pow-zero f.base, Nat.one-mul c)

    turn : (m : ℕ) → f.base ^ m * (q * power_product fs) ≡ q * f.base ^ m * power_product fs
    turn m = rw (← Nat.mul_assoc (f.base ^ m) q (power_product fs), Nat.mul_comm (f.base ^ m) q)

    lowered :
        (m : ℕ)
        → k ∣ f.base ^ f.count * (q * power_product fs)
        → m ≤ f.count
        → (m < 0 + f.count → ¬ (f.base ^ suc m ∣ c))
        → k ∣ f.base ^ m * (q * power_product fs)
    lowered m i le next = elim (dec_lt m f.count) [
      | yes lt ↦
          let split : f.count ≡ m + (f.count - m) = omega arith in
          drop_to f.base k m (f.count - m) (q * power_product fs) primes.0
            (λ d. next (omega arith) (Nat.dvd_trans (f.base ^ suc m) d kc))
            (subst (λ t. k ∣ f.base ^ t * (q * power_product fs)) split i)
      | no ge ↦
          let e : f.count ≡ m = omega arith in
          subst (λ t. k ∣ f.base ^ t * (q * power_product fs)) e i
    ]

-- The lowered counts keep the primes.
lower_counts-All :
    (P : ℕ → Type 0) (c : ℕ) (fs : List Factor)
    → All (λ f. P f.base) fs
    → All (λ f. P f.base) (lower_counts c fs)
unfolding lower_counts
lower_counts-All P c [] h = tt
lower_counts-All P c (f ∷ fs) h = (h.0, lower_counts-All P c fs h.1)

pub lower_counts-IsFactored :
    (c : ℕ) (fs : List Factor) → IsFactored fs → IsFactored (lower_counts c fs)
unfolding lower_counts
lower_counts-IsFactored c [] h = h
lower_counts-IsFactored c (f ∷ fs) h =
    let rest = lower_counts-IsFactored c fs (h.0.1, h.1.1) in
    ((lower_counts-All (λ b. f.base ≢ b) c fs h.0.0, rest.0), (h.1.0, rest.1))

pub lower_counts-powers :
    (c : ℕ) (fs : List Factor)
    → All (λ f. IsPrime f.base) fs
    → All (λ f. f.base ^ f.count ∣ c) (lower_counts c fs)
unfolding lower_counts
lower_counts-powers c [] h = tt
lower_counts-powers c (f ∷ fs) h =
    let start : f.base ^ 0 * c ≡ c = rw (Nat.pow-zero f.base, Nat.one-mul c) in
    (
      (exponent-power f.count 0 f.base c c (prime_pos f.base h.0) start).1,
      lower_counts-powers c fs h.1,
    )
