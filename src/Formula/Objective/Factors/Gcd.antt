-- ===== src/Formula/Objective/Factors/Gcd.antt =====
-- The number that `PBObjFunction::factorize` (FormulaPB.h) divides by.
use native.Mathlib.Nat
use native.Mathlib.Decide.{dec_lt}
use dmeic.Prelude.{
  ℕ, suc, ◌+◌, ◌-◌, ◌*◌, ◌^◌, ◌≤◌, ◌<◌, ◌∣◌, ◌==◌, ◌≡◌, ◌≢◌, refl, sym, ◌∙◌, subst, false, List, [],
  ◌∷◌, some, none, Option, ◌⊎◌, arith, All, All-mono, Bool-cases, inl, inr, IsPrime, IsClear,
  IsClear-of_primes, IsClear-mul, IsClear-one, IsClear-pow, IsClear-pow_left, dvd-mul_of_clear, ltb,
  pow-dvd_add, prime_pos,
}
use dmeic.Formula.Objective.Factors.{
  Factor, exponent, lower_counts, lower_all, largest, product, common_factor, trial_loop, finish,
}
use dmeic.Formula.Objective.Factors.Double.{power_product, product-exact, AreAbove}
use dmeic.Formula.Objective.Factors.Trial.{IsFactored, trial_loop-some}
use dmeic.Formula.Objective.Factors.Powers.{
  exponent-power, lower_counts-greatest, lower_counts-IsFactored, lower_counts-powers,
}

power_product-IsClear :
    (b : ℕ) (fs : List Factor)
    → IsPrime b
    → All (λ f. b ≢ f.base) fs
    → All (λ f. IsPrime f.base) fs
    → IsClear b (power_product fs)
unfolding power_product
power_product-IsClear b [] h ne primes = IsClear-one b
power_product-IsClear b (f ∷ fs) h ne primes =
    let p = prime_pos f.base primes.0 in
    IsClear-mul b (f.base ^ f.count) (power_product fs) (Nat.one-le-pow f.count f.base p)
      (IsClear-pow b f.base f.count p (IsClear-of_primes b f.base h primes.0 ne.0))
      (power_product-IsClear b fs h ne.1 primes.1)

power_product-dvd :
    (c : ℕ) (fs : List Factor)
    → IsFactored fs
    → All (λ f. f.base ^ f.count ∣ c) fs
    → power_product fs ∣ c
unfolding power_product
power_product-dvd c [] h pow = Nat.one-dvd c
power_product-dvd c (f ∷ fs) h pow =
    dvd-mul_of_clear (f.base ^ f.count) (power_product fs) c
      (IsClear-pow_left f.base (power_product fs) f.count
        (power_product-IsClear f.base fs h.1.0 h.0.0 h.1.1))
      pow.0 (power_product-dvd c fs (h.0.1, h.1.1) pow.1)

lower_counts-dvd :
    (c : ℕ) (fs : List Factor)
    → All (λ f. IsPrime f.base) fs
    → power_product (lower_counts c fs) ∣ power_product fs
unfolding lower_counts power_product
lower_counts-dvd c [] h = Nat.dvd_refl 1
lower_counts-dvd c (f ∷ fs) h =
    let start : f.base ^ 0 * c ≡ c = rw (Nat.pow-zero f.base, Nat.one-mul c) in
    let m = exponent f.count 0 f.base c in
    let le = (exponent-power f.count 0 f.base c c (prime_pos f.base h.0) start).0 in
    let split : m + (f.count - m) ≡ f.count = omega (arith, le) in
    Nat.mul-dvd-mul (f.base ^ m) (power_product (lower_counts c fs))
      (subst (λ t. f.base ^ m ∣ f.base ^ t) split (pow-dvd_add f.base m (f.count - m)))
      (lower_counts-dvd c fs h.1)

abbrev IsGcdOf : (g n : ℕ) → List ℕ → Type 0
IsGcdOf g n cs = (g ∣ n) × All (λ c. g ∣ c) cs × ((k : ℕ) → k ∣ n → All (λ c. k ∣ c) cs → k ∣ g)

lower_all-gcd :
    (cs : List ℕ) (fs : List Factor)
    → IsFactored fs
    → IsGcdOf (power_product (lower_all cs fs)) (power_product fs) cs
unfolding lower_all
lower_all-gcd [] fs h = (Nat.dvd_refl (power_product fs), tt, λ k d _. d)
lower_all-gcd (c ∷ cs) fs h =
    let kept = lower_counts-IsFactored c fs h in
    let (d, ds, most) = lower_all-gcd cs (lower_counts c fs) kept in
    let g = power_product (lower_all cs (lower_counts c fs)) in
    let here = power_product-dvd c (lower_counts c fs) kept (lower_counts-powers c fs h.1) in
    (
      Nat.dvd_trans g d (lower_counts-dvd c fs h.1),
      (Nat.dvd_trans g d here, ds),
      λ k kn ks. most k (one_step k kn ks.0) ks.1,
    )
  where
    one_step : (k : ℕ) → k ∣ power_product fs → k ∣ c → k ∣ power_product (lower_counts c fs)
    one_step k kn kc =
        subst (λ t. k ∣ t) (Nat.one-mul (power_product (lower_counts c fs)))
          (lower_counts-greatest k c 1 fs h.1 kc
            (subst (λ t. k ∣ t) (sym (Nat.one-mul (power_product fs))) kn))

largest-All : (P : ℕ → Type 0) (c : ℕ) (cs : List ℕ) → All P (c ∷ cs) → P (largest (c ∷ cs))
unfolding largest
largest-All P c [] h = elim (Bool-cases (ltb 0 c)) [
  | inl e ↦ rw e h.0
  | inr e ↦ let z : c ≡ 0 = ground arith in rw e (subst P z h.0)
]
largest-All P c (d ∷ cs) h = elim (Bool-cases (ltb (largest (d ∷ cs)) c)) [
  | inl e ↦ rw e h.0
  | inr e ↦ rw e (largest-All P d cs h.1)
]

largest-nil : ¬ (2 ≤ largest [])
unfolding largest
largest-nil h = omega (arith, h)

finish-one : (cs : List ℕ) (o : Option (List Factor)) → finish 1 cs o ≡ none
unfolding finish
finish-one cs none = refl
finish-one cs (some fs) = refl

trial_done :
    (cur : ℕ)
    → 2 ≤ cur
    → (r : List Factor) × (trial_loop (suc (suc cur)) cur 2 [] ≡ some r)
      × IsFactored r
      × (power_product r ≡ cur)
unfolding power_product
trial_done cur two =
    let (r, e, factored, prod) =
      trial_loop-some (suc (suc cur)) cur 2 [] two (omega arith)
        (λ k low up _. absurd (omega (arith, low, up))) (tt, tt) (omega (arith, two)) in
    (r, e, factored, prod ∙ Nat.one-mul cur)

primes-AreAbove : (fs : List Factor) → All (λ f. IsPrime f.base) fs → AreAbove fs
primes-AreAbove fs h =
    All-mono (λ f. IsPrime f.base) (λ f. 0 < f.base) fs (λ f p. prime_pos f.base p) h

lower_all-IsFactored :
    (cs : List ℕ) (fs : List Factor) → IsFactored fs → IsFactored (lower_all cs fs)
unfolding lower_all
lower_all-IsFactored [] fs h = h
lower_all-IsFactored (c ∷ cs) fs h =
    lower_all-IsFactored cs (lower_counts c fs) (lower_counts-IsFactored c fs h)

-- The product in `double` of divisors of a small number is exact.
product-lower_all :
    (cs : List ℕ) (fs : List Factor) (n : ℕ)
    → IsFactored fs
    → power_product fs ≡ n
    → 0 < n
    → n < 2 ^ 53
    → product 1 (lower_all cs fs) ≡ power_product (lower_all cs fs)
product-lower_all cs fs n h e pos small =
    let g = power_product (lower_all cs fs) in
    let divides : g ∣ n = subst (λ t. g ∣ t) e (lower_all-gcd cs fs h).0 in
    let above = primes-AreAbove (lower_all cs fs) (lower_all-IsFactored cs fs h).1 in
    product-exact 1 (lower_all cs fs) (omega arith) above
      (omega (arith, Nat.le_of_dvd pos divides, small))
    ∙ Nat.one-mul g

-- Where some coefficient is at least 2 and all are below 2 ^ 53, the divisor that `factorize` computes
-- is the greatest common divisor of the coefficients: it divides each of them, and each number that
-- divides them all divides it. The loops end within the given number of iterations.
pub common_factor-gcd :
    (cs : List ℕ)
    → 2 ≤ largest cs
    → largest cs < 2 ^ 53
    → (g : ℕ) × (common_factor cs ≡ some g)
      × All (λ c. g ∣ c) cs
      × ((k : ℕ) → All (λ c. k ∣ c) cs → k ∣ g)
unfolding common_factor finish
common_factor-gcd [] two small = absurd (largest-nil two)
common_factor-gcd (c ∷ cs) two small =
    let (r, e, factored, prod) = trial_done (largest (c ∷ cs)) two in
    let (_, ds, most) = lower_all-gcd (c ∷ cs) r factored in
    let not_one : (largest (c ∷ cs) == 1) ≡ false = ground (arith, two) in
    let exact =
      product-lower_all (c ∷ cs) r (largest (c ∷ cs)) factored prod (omega (arith, two)) small in
    rw (e, not_one, exact)
      (
        power_product (lower_all (c ∷ cs) r),
        refl,
        ds,
        λ k ks. most k (subst (λ t. k ∣ t) (sym prod) (largest-All (λ n. k ∣ n) c cs ks)) ks,
      )

common_factor-one : (cs : List ℕ) → largest cs ≡ 1 → common_factor cs ≡ none
unfolding common_factor
common_factor-one [] h = refl
common_factor-one (c ∷ cs) h = rw h (finish-one (c ∷ cs) (trial_loop 3 1 2 []))

-- Where some coefficient is not 0 and all are below 2 ^ 53, the result is a common divisor, or there
-- is none but 1.
pub common_factor-cases :
    (cs : List ℕ)
    → 1 ≤ largest cs
    → largest cs < 2 ^ 53
    → (common_factor cs ≡ none)
      ⊎ ((g : ℕ) × (common_factor cs ≡ some g) × All (λ c. g ∣ c) cs × (0 < g) × (g ≤ largest cs))
common_factor-cases cs h small = elim (dec_lt 1 (largest cs)) [
  | yes two ↦
      let (g, e, ds, _) = common_factor-gcd cs two small in
      let divides = largest-dvd g cs ds two in
      inr (
        g,
        e,
        ds,
        Nat.pos_of_dvd_of_pos divides (omega arith),
        Nat.le_of_dvd (omega (arith, two)) divides,
      )
  | no one ↦ inl (common_factor-one cs (omega arith))
]
  where
    largest-dvd : (g : ℕ) (cs : List ℕ) → All (λ c. g ∣ c) cs → 2 ≤ largest cs → g ∣ largest cs
    largest-dvd g [] ds two = absurd (largest-nil two)
    largest-dvd g (c ∷ cs) ds two = largest-All (λ n. g ∣ n) c cs ds
