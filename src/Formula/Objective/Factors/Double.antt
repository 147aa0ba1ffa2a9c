-- ===== src/Formula/Objective/Factors/Double.antt =====
-- What `pow` and the product in `double` give in `PBObjFunction::factorize` (FormulaPB.h): below 2 ^ 53
-- they are exact.
use native.Mathlib.Nat
use dmeic.Prelude.{
  ℕ, zero, suc, ◌*◌, ◌^◌, ◌≤◌, ◌<◌, ◌≡◌, refl, true, sym, ◌∙◌, List, [], ◌∷◌, arith, All, ltb,
  lt→ltb,
}
use dmeic.Formula.Objective.Factors.{Factor, round_to, spacing, to_double, product}

-- The product of the powers, as numbers.
unfoldable pub power_product : List Factor → ℕ
power_product [] = 1
power_product (f ∷ fs) = f.base ^ f.count * power_product fs

round_to-one : (n : ℕ) → round_to 1 n ≡ n
unfolding round_to
round_to-one n = ground arith

spacing-small : (fuel n : ℕ) → n < 2 ^ 53 → spacing fuel 1 n ≡ 1
unfolding spacing
spacing-small zero n h = refl
spacing-small (suc fuel) n h =
    let small : ltb n (2 ^ 53 * 1) ≡ true = lt→ltb n (2 ^ 53 * 1) (omega (arith, h)) in
    rw small refl

pub to_double-small : (n : ℕ) → n < 2 ^ 53 → to_double n ≡ n
unfolding to_double
to_double-small n h = rw (spacing-small 80 n h) (round_to-one n)

abbrev pub AreAbove : List Factor → Type 0
AreAbove fs = All (λ f. 0 < f.base) fs

power_pos : (b n : ℕ) → 0 < b → 0 < b ^ n
power_pos b n h = Nat.one-le-pow n b h

mul_pos : (a b : ℕ) → 0 < a → 0 < b → 0 < a * b
mul_pos a b h k = grind arith

power_product-pos : (fs : List Factor) → AreAbove fs → 0 < power_product fs
unfolding power_product
power_product-pos [] h = omega arith
power_product-pos (f ∷ fs) h =
    mul_pos (f.base ^ f.count) (power_product fs) (power_pos f.base f.count h.0)
      (power_product-pos fs h.1)

le-mul : (a b : ℕ) → 0 < b → a ≤ a * b
le-mul a b h = grind arith

mul-le : (a b : ℕ) → 0 < a → b ≤ a * b
mul-le a b h = grind arith

le_power : (b n : ℕ) → 0 < b → b ≤ b ^ suc n
le_power b n h = grind (arith, Nat.pow-succ' b n, power_pos b n h)

power_double : (b n : ℕ) → 0 < b → b ^ n < 2 ^ 53 → to_double (to_double b ^ n) ≡ b ^ n
power_double b zero h l =
    rw (Nat.pow-zero (to_double b), Nat.pow-zero b) (to_double-small 1 (omega arith))
power_double b (suc n) h l =
    let base : b < 2 ^ 53 = omega (arith, l, le_power b n h) in
    rw (to_double-small b base) (to_double-small (b ^ suc n) l)

-- Where the result stays below 2 ^ 53, it is exact.
pub product-exact :
    (g : ℕ) (fs : List Factor)
    → 0 < g
    → AreAbove fs
    → g * power_product fs < 2 ^ 53
    → product g fs ≡ g * power_product fs
unfolding product power_product
product-exact g [] p h l = omega arith
product-exact g (f ∷ fs) p h l =
    let a = f.base ^ f.count in
    let q = power_product fs in
    let a_pos = power_pos f.base f.count h.0 in
    let q_pos = power_product-pos fs h.1 in
    let apart : g * (a * q) ≡ g * a * q = grind arith in
    let both : g * a < 2 ^ 53 = omega (arith, l, apart, le-mul (g * a) q q_pos) in
    let first : to_double g ≡ g = to_double-small g (omega (arith, both, le-mul g a a_pos)) in
    let second = power_double f.base f.count h.0 (omega (arith, both, mul-le g a p)) in
    rw (first, second, to_double-small (g * a) both)
      (product-exact (g * a) fs (mul_pos g a p a_pos) h.1 (omega (arith, l, apart)) ∙ sym apart)
