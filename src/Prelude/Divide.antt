-- ===== src/Prelude/Divide.antt =====
-- Divisors of native numbers: what follows when two numbers have no common divisor but 1.
use Prim.Native.Nat.{ℕ, zero, suc, ◌+◌, ◌-◌, ◌*◌, ◌/◌, ◌^◌, ◌≤◌, ◌<◌, ◌∣◌}
use mathlib.Core.Path.{◌≡◌, sym, subst, ap, ◌∙◌}
use mathlib.Core.Logic.{◌⊎◌, inl, inr, ◌≢◌}
use native.Mathlib.Nat
use native.Mathlib.Omega.{arith}
use native.Mathlib.Decide.{dec_dvd, dec_lt}
use dmeic.Prelude.Tests.{leb, leb→le, leb→gt, Bool-cases}

-- `a` has no part in common with `d`.
abbrev pub IsClear : ℕ → ℕ → Type 0
IsClear d a = (x : ℕ) → a ∣ d * x → a ∣ x

abbrev pub IsPrime : ℕ → Type 0
IsPrime p = (2 ≤ p) × ((k : ℕ) → k ∣ p → (k ≡ 1) ⊎ (k ≡ p))

abbrev Common : (a b k c : ℕ) → Type 0
Common a b k c = (g : ℕ) × (g ∣ a) × (g ∣ b) × (k ∣ a * c → k ∣ b * c → k ∣ g * c)

Common-add : (a d k c : ℕ) → Common a d k c → Common a (a + d) k c
Common-add a d k c (g, ga, gd, f) =
    (g, ga, Nat.dvd-add g ga gd, λ h i. f h ((Nat.dvd-add_iff_right k h).1 (rw Nat.add-mul at i)))

Common-swap : (a b k c : ℕ) → Common a b k c → Common b a k c
Common-swap a b k c (g, ga, gb, f) = (g, gb, ga, λ h i. f i h)

common : (n a b k c : ℕ) → a + b < n → Common a b k c
common zero a b k c h = absurd (omega arith)
common (suc n) zero b k c h = (b, Nat.dvd-zero b, Nat.dvd_refl b, λ _ i. i)
common (suc n) (suc a) zero k c h = (suc a, Nat.dvd_refl (suc a), Nat.dvd-zero (suc a), λ i _. i)
common (suc n) (suc a) (suc b) k c h = elim (Bool-cases (leb a b)) [
  | inl e ↦
      let le = leb→le a b e in
      let split : suc a + (b - a) ≡ suc b = omega arith in
      subst (λ t. Common (suc a) t k c) split
        (Common-add (suc a) (b - a) k c (common n (suc a) (b - a) k c (omega arith)))
  | inr e ↦
      let gt = leb→gt a b e in
      let split : suc b + (a - b) ≡ suc a = omega arith in
      subst (λ t. Common t (suc b) k c) split
        (Common-swap (suc b) (suc b + (a - b)) k c
          (Common-add (suc b) (a - b) k c (common n (suc b) (a - b) k c (omega arith))))
]

-- Two numbers with no common divisor but 1.
pub IsClear-of_coprime : (d a : ℕ) → ((k : ℕ) → k ∣ a → k ∣ d → k ≡ 1) → IsClear d a
IsClear-of_coprime d a h x i =
    let (g, ga, gd, f) = common (suc (a + d)) a d a x (omega arith) in
    rw Nat.one-mul at (subst (λ t. a ∣ t * x) (h g ga gd) (f (Nat.dvd-mul_right a x) i))

pub IsClear-one : (d : ℕ) → IsClear d 1
IsClear-one d x i = Nat.one-dvd x

pub IsClear-mul : (d a b : ℕ) → 0 < a → IsClear d a → IsClear d b → IsClear d (a * b)
IsClear-mul d a b p ha hb x i =
    subst (λ t. a * b ∣ t) back
      (Nat.mul-dvd-mul_left b a (hb (x / a) (Nat.dvd_of_mul-dvd-mul_left b p inner)))
  where
    a_x : a ∣ x
    a_x = ha x (Nat.dvd_trans a (Nat.dvd-mul_right a b) i)

    back : a * (x / a) ≡ x
    back = Nat.mul-div_cancel' a a_x

    inner : a * b ∣ a * (d * (x / a))
    inner =
        subst (λ t. a * b ∣ t) (Nat.mul_left_comm d a (x / a))
          (subst (λ t. a * b ∣ d * t) (sym back) i)

pub IsClear-pow : (d a n : ℕ) → 0 < a → IsClear d a → IsClear d (a ^ n)
IsClear-pow d a zero p h = subst (IsClear d) (sym (Nat.pow-zero a)) (IsClear-one d)
IsClear-pow d a (suc n) p h =
    subst (IsClear d) (sym (Nat.pow-succ' a n))
      (IsClear-mul d a (a ^ n) p h (IsClear-pow d a n p h))

pub IsClear-pow_left : (d a n : ℕ) → IsClear d a → IsClear (d ^ n) a
IsClear-pow_left d a zero h x i = rw (Nat.pow-zero d, Nat.one-mul x) at i
IsClear-pow_left d a (suc n) h x i =
    IsClear-pow_left d a n h x (h (d ^ n * x) (subst (λ t. a ∣ t) split i))
  where
    split : d ^ suc n * x ≡ d * (d ^ n * x)
    split = rw (Nat.pow-succ' d n, Nat.mul_assoc d)

-- A divisor that is clear of another one goes with it.
pub dvd-mul_of_clear : (d a c : ℕ) → IsClear d a → d ∣ c → a ∣ c → d * a ∣ c
dvd-mul_of_clear d a c h hd ha =
    let back = Nat.mul-div_cancel' d hd in
    subst (λ t. d * a ∣ t) back
      (Nat.mul-dvd-mul_left a d (h (c / d) (subst (λ t. a ∣ t) (sym back) ha)))

-- A prime that does not divide `y` is clear of it.
pub IsClear-prime : (p y : ℕ) → IsPrime p → ¬ (p ∣ y) → IsClear y p
IsClear-prime p y prime h =
    IsClear-of_coprime y p
      (λ k kp ky. elim (prime.1 k kp) [ inl e ↦ e | inr e ↦ absurd (h (subst (λ t. t ∣ y) e ky)) ])

pub prime_pos : (p : ℕ) → IsPrime p → 0 < p
prime_pos p h = omega (arith, h.0)

pub pow-dvd_add : (p m i : ℕ) → p ^ m ∣ p ^ (m + i)
pow-dvd_add p m zero = subst (λ t. p ^ m ∣ p ^ t) (sym (Nat.add-zero m)) (Nat.dvd_refl (p ^ m))
pow-dvd_add p m (suc i) =
    subst (λ t. p ^ m ∣ t) (sym (ap (λ t. p ^ t) (Nat.add-suc m i) ∙ Nat.pow-suc p (m + i)))
      (Nat.dvd-mul_right_of_dvd (p ^ m) (pow-dvd_add p m i) p)

-- A divisor of `p ^ suc j * q` that has less than `suc j` times the prime `p` in it.
pub dvd-pow_drop : (p k j q : ℕ) → IsPrime p → k ∣ p ^ suc j * q → ¬ (p ^ suc j ∣ k) → k ∣ p ^ j * q
dvd-pow_drop p k j q prime h few = elim (dec_dvd p y) [
  | yes d ↦ Nat.dvd_of_mul-dvd-mul_left k (prime_pos p prime) (
      subst (λ t. p * k ∣ t) (back ∙ split)
        (subst (λ t. t ∣ k * y) (Nat.mul_comm k p) (Nat.mul-dvd-mul_left p k d)))
  | no d ↦ absurd (
      few (
        IsClear-pow y p (suc j) (prime_pos p prime) (IsClear-prime p y prime d) k (
          subst (λ t. p ^ suc j ∣ t) (sym back ∙ Nat.mul_comm k y)
            (Nat.dvd-mul_right (p ^ suc j) q))))
]
  where
    y : ℕ
    y = p ^ suc j * q / k

    back : k * y ≡ p ^ suc j * q
    back = Nat.mul-div_cancel' k h

    split : p ^ suc j * q ≡ p * (p ^ j * q)
    split = rw (Nat.pow-succ' p j, Nat.mul_assoc p)

-- Two different primes.
pub IsClear-of_primes : (p q : ℕ) → IsPrime p → IsPrime q → p ≢ q → IsClear p q
IsClear-of_primes p q hp hq ne =
    IsClear-prime q p hq
      (λ d. elim (hp.1 q d) [ inl e ↦ absurd (omega (arith, e, hq.0)) | inr e ↦ ne (sym e) ])

-- A number with no divisor between 1 and `d` that `d` divides, or that is below `d * d`.
abbrev pub HasNone : (d n : ℕ) → Type 0
HasNone d n = (k : ℕ) → 2 ≤ k → k < d → ¬ (k ∣ n)

pub HasNone-dvd : (d m n : ℕ) → m ∣ n → HasNone d n → HasNone d m
HasNone-dvd d m n h none k two lt km = none k two lt (Nat.dvd_trans k km h)

pub HasNone-suc : (d n : ℕ) → HasNone d n → ¬ (d ∣ n) → HasNone (suc d) n
HasNone-suc d n none h k two lt kn = elim (dec_lt k d) [
  | yes l ↦ none k two l kn
  | no g ↦ let e : k ≡ d = omega arith in h (subst (λ t. t ∣ n) e kn)
]

dvd_cases : (k n : ℕ) → 0 < n → k ∣ n → (k ≡ 1) ⊎ ((2 ≤ k) × (k ≤ n))
dvd_cases k n p h =
    let up = Nat.le_of_dvd p h in
    let low = Nat.pos_of_dvd_of_pos h p in
    elim (dec_lt 1 k) [ yes l ↦ inr (l, up) | no g ↦ inl (omega arith) ]

pub IsPrime-of_least : (d n : ℕ) → 2 ≤ d → HasNone d n → d ∣ n → IsPrime d
IsPrime-of_least d n two none h = (
  two,
  λ k kd. elim (dvd_cases k d (omega (arith, two)) kd) [
    | inl e ↦ inl e
    | inr c ↦ elim (dec_lt k d) [
      | yes l ↦ absurd (none k c.0 l (Nat.dvd_trans k kd h))
      | no g ↦ inr (omega (arith, c.1, g))
    ]
  ],
)

pub IsPrime-of_small : (d n : ℕ) → 2 ≤ n → HasNone d n → n < d * d → IsPrime n
IsPrime-of_small d n two none lt = (
  two,
  λ k kn. elim (dvd_cases k n (omega (arith, two)) kn) [
    | inl e ↦ inl e
    | inr c ↦ inr (whole k kn c.0)
  ],
)
  where
    whole : (k : ℕ) → k ∣ n → 2 ≤ k → k ≡ n
    whole k kn c = elim (dec_lt k d) [
      | yes l ↦ absurd (none k c l kn)
      | no g ↦
          let back = Nat.mul-div_cancel' k kn in
          let m_dvd : n / k ∣ n = subst (λ t. n / k ∣ t) back (Nat.dvd-mul_left (n / k) k) in
          let m_lt : n / k < d =
            (Nat.div-lt_iff_lt-mul (omega (arith, c))).1
              (Nat.lt_of_lt_of_le lt (Nat.mul-le-mul_left d (omega (arith, g)))) in
          elim (dvd_cases (n / k) n (omega (arith, two)) m_dvd) [
            | inl e ↦ sym (Nat.mul-one k) ∙ ap (λ t. k * t) (sym e) ∙ back
            | inr q ↦ absurd (none (n / k) q.0 m_lt m_dvd)
          ]
    ]
