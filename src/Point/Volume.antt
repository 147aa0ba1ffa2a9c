-- ===== src/Point/Volume.antt =====
-- The volumes of Pareto.cc and MOCO.cc, as products of `uint64_t`.
use dmeic.Prelude.{
  ℕ, ◌+◌, ◌-◌, ◌*◌, ◌%◌, ◌^◌, ◌<◌, ◌≤◌, ◌≡◌, sym, Bool, true, [], ◌∷◌, arith, ltb, if◌then◌else◌,
  Bool-cases, inl, inr,
}
use native.Mathlib.Nat.{mul_assoc, mul_comm, mod-eq_of_lt}
use dmeic.Point.{YPoint, dominates}

abbrev pub word : ℕ
word = 2 ^ 64

-- The loop of `hv_shift`, `x *= u[i] - l[i] + 1`, over the coordinates of `l`.
unfoldable pub shift_product : ℕ → YPoint → YPoint → ℕ
shift_product x [] u = x
shift_product x (a ∷ l) [] = x
shift_product x (a ∷ l) (b ∷ u) = shift_product (x * ((b + word - a + 1) % word) % word) l u

unfoldable pub hv_shift : YPoint → YPoint → ℕ
unfolding shift_product
hv_shift l u = if dominates l u then shift_product 1 l u else 0

-- The loop of `hv`, `x *= u[i] - l[i]`.
unfoldable pub product : ℕ → YPoint → YPoint → ℕ
product x [] u = x
product x (a ∷ l) [] = x
product x (a ∷ l) (b ∷ u) = product (x * ((b + word - a) % word) % word) l u

-- `pareto::hv`, with the order of arguments of its definition: first the upper point.
unfoldable pub hv : YPoint → YPoint → ℕ
unfolding product
hv u l = if dominates l u then product 1 l u else 0

-- The signed comparison of two `uint64_t` that are converted to `int64_t`.
unfoldable pub signed_less : ℕ → ℕ → Bool
signed_less a b = ltb ((a + 2 ^ 63) % word) ((b + 2 ^ 63) % word)

-- How many points with whole coordinates lie between `l` and `u`.
unfoldable pub box : YPoint → YPoint → ℕ
box [] u = 1
box (a ∷ l) [] = 1
box (a ∷ l) (b ∷ u) = (b - a + 1) * box l u

box_pos : (l u : YPoint) → 0 < box l u
unfolding box
box_pos [] u = omega arith
box_pos (a ∷ l) [] = omega arith
box_pos (a ∷ l) (b ∷ u) = grind (arith, box_pos l u)

factor_exact : (a b : ℕ) → a ≤ b → b - a + 1 < word → (b + word - a + 1) % word ≡ b - a + 1
factor_exact a b h k = omega arith

le_mul_pos : (x y : ℕ) → 0 < y → x ≤ x * y
le_mul_pos x y h = grind arith

shift_product-exact :
    (x : ℕ) (l u : YPoint)
    → 0 < x
    → dominates l u ≡ true
    → x * box l u < word
    → shift_product x l u ≡ x * box l u
unfolding shift_product dominates box
shift_product-exact x [] u p h k = omega arith
shift_product-exact x (a ∷ l) [] p h k = cc
shift_product-exact x (a ∷ l) (b ∷ u) p h k =
    let f = b - a + 1 in
    let rest = box_pos l u in
    let regroup : x * (f * box l u) ≡ (x * f) * box l u = sym (mul_assoc x f (box l u)) in
    let below : x * f < word = omega (arith, le_mul_pos (x * f) (box l u) rest, regroup) in
    let factor : f < word = omega (arith, le_mul_pos f x p, mul_comm x f) in
    let le : a ≤ b = ground arith in
    let pos : 0 < x * f = grind arith in
    let fit : (x * f) % word ≡ x * f = mod-eq_of_lt below in
    rw (factor_exact a b le factor, fit, regroup)
      (shift_product-exact (x * f) l u pos (ground arith) (omega (arith, regroup)))

-- Where the number of points between `l` and `u` fits in 64 bits, `hv_shift` is that number if `l`
-- dominates `u`, and 0 if it does not.
pub hv_shift-exact :
    (l u : YPoint) → box l u < word → hv_shift l u ≡ (if dominates l u then box l u else 0)
unfolding hv_shift
hv_shift-exact l u h = elim (Bool-cases (dominates l u)) [
  | inl e ↦ rw (e, shift_product-exact 1 l u (omega arith) e (omega arith)) (omega arith)
  | inr e ↦ rw e
]
