-- ===== src/Encoding/Adder/Digits.antt =====
-- `numToBits`.
use dmeic.Prelude.{
  pow_suc, ℕ, zero, suc, ◌+◌, ◌-◌, ◌*◌, ◌^◌, ◌<◌, ◌≤◌, min, ◌≡◌, ◌∙◌, refl, true, false, ◌⊎◌, List,
  [], ◌∷◌, none, some, arith, ltb, leb, leb→le, length, All, Bool-cases, ltb→lt, ltb→ge, inl, inr,
}
use dmeic.Encoding.Adder.{bits_from, num_to_bits}

-- The number of which these are the digits, the lowest first.
unfoldable pub number : List ℕ → ℕ
number [] = 0
number (y ∷ ys) = y + 2 * number ys

abbrev pub AreBits : List ℕ → Type 0
AreBits = All (λ y. y ≤ 1)

pow_pos : (n : ℕ) → 0 < 2 ^ n
pow_pos zero = omega arith
pow_pos (suc n) = ground (arith, pow_pos n)

low_digit :
    (p k v : ℕ) → 0 < p → k < p → min k (p - 1) + p * (0 + 2 * v) ≡ min k (2 * p - 1) + 2 * p * v
low_digit p k v h l = let e : p * (0 + 2 * v) ≡ 2 * p * v = grind arith in omega (arith, h, l, e)

high_digit :
    (p k v : ℕ)
    → 0 < p
    → p ≤ k
    → min (k - p) (p - 1) + p * (1 + 2 * v) ≡ min k (2 * p - 1) + 2 * p * v
high_digit p k v h l =
    let e : p * (1 + 2 * v) ≡ p + 2 * p * v = grind arith in omega (arith, h, l, e)

bits_from-number :
    (i k : ℕ) (bits : List ℕ)
    → number (bits_from i k bits) ≡ min k (2 ^ i - 1) + 2 ^ i * number bits
unfolding bits_from number
bits_from-number zero k bits = omega arith
bits_from-number (suc i) k bits = elim (Bool-cases (ltb k (2 ^ i))) [
  | inl low ↦
      rw (low, pow_suc i)
        (bits_from-number i k (0 ∷ bits)
          ∙ low_digit (2 ^ i) k (number bits) (pow_pos i) (ltb→lt _ _ low))
  | inr high ↦
      rw (high, pow_suc i)
        (bits_from-number i (k - 2 ^ i) (1 ∷ bits)
          ∙ high_digit (2 ^ i) k (number bits) (pow_pos i) (ltb→ge _ _ high))
]

bits_from-AreBits : (i k : ℕ) (bits : List ℕ) → AreBits bits → AreBits (bits_from i k bits)
unfolding bits_from
bits_from-AreBits zero k bits h = h
bits_from-AreBits (suc i) k bits h =
    let a = bits_from-AreBits i k (0 ∷ bits) (omega arith, h) in
    let b = bits_from-AreBits i (k - 2 ^ i) (1 ∷ bits) (omega arith, h) in ground (arith, a, b)

length-bits_from : (i k : ℕ) (bits : List ℕ) → length (bits_from i k bits) ≡ i + length bits
unfolding bits_from
length-bits_from zero k bits = omega arith
length-bits_from (suc i) k bits =
    let a = length-bits_from i k (0 ∷ bits) in
    let b = length-bits_from i (k - 2 ^ i) (1 ∷ bits) in ground (arith, a, b)

-- For at most 64 places `numToBits` gives `n` binary digits, those of the number where they are
-- enough, and else those of the greatest number that has `n` digits.
pub num_to_bits-number :
    (n k : ℕ)
    → n ≤ 64
    → (bits : List ℕ) × (num_to_bits n k ≡ some bits)
      × (number bits ≡ min k (2 ^ n - 1))
      × (length bits ≡ n)
      × AreBits bits
unfolding num_to_bits number
num_to_bits-number n k h =
    let test : leb n 64 ≡ true = ground (arith, h) in
    (
      bits_from n k [],
      rw test refl,
      omega (arith, bits_from-number n k [], nothing),
      omega (arith, length-bits_from n k []),
      bits_from-AreBits n k [] tt,
    )
  where
    nothing : 2 ^ n * number [] ≡ 0
    nothing = ground arith

num_to_bits-many : (n k : ℕ) → leb n 64 ≡ false → num_to_bits n k ≡ none
unfolding num_to_bits
num_to_bits-many n k e = rw e refl

pub num_to_bits_cases :
    (n k : ℕ)
    → (num_to_bits n k ≡ none)
      ⊎ ((bits : List ℕ) × (num_to_bits n k ≡ some bits) × (length bits ≡ n))
num_to_bits_cases n k = elim (Bool-cases (leb n 64)) [
  | inl e ↦ let (bits, f, _, l, _) = num_to_bits-number n k (leb→le n 64 e) in inr (bits, f, l)
  | inr e ↦ inl (num_to_bits-many n k e)
]
