-- ===== src/Tests/Adders.antt =====
-- Concrete runs of the Adder encoding.
use dmeic.Encoding.Variables.{Agree}
use dmeic.Prelude.{
  pow_suc, List, ℕ, zero, suc, ◌-◌, ◌/◌, ◌^◌, ◌<◌, ◌≤◌, min, ◌≡◌, refl, sym, ◌∙◌, ap, subst, true,
  [], ◌∷◌, none, some, arith, if◌then◌else◌, ◌==◌, length, Bool-cases, inl, inr,
}
use dmeic.Encoding.Solver.{Assignment, Lit}
use dmeic.Encoding.Adder.{Adder, new_adder, encode, num_to_bits}
use dmeic.Encoding.Adder.Digits.{number, AreBits, num_to_bits-number}
use dmeic.Encoding.Adder.Buckets.{total}
use dmeic.Encoding.Adder.Places.{sum}
use dmeic.Encoding.Adder.Exact.{encode-total}
use dmeic.Encoding.Adder.Correct.{ClzLaws, encode_again}
use dmeic.Tests.Encodings.{list_sat, ListSolver, three, x0, x1, x2}

-- The number of binary digits, of at most `fuel`.
unfoldable bit_length : ℕ → ℕ → ℕ
bit_length zero x = 0
bit_length (suc fuel) x = let rest = bit_length fuel (x / 2) in if x == 0 then 0 else suc rest

abbrev leading_zeros : ℕ → ℕ
leading_zeros x = 64 - bit_length 64 x

bit_length-lt : (f x : ℕ) → x < 2 ^ f → x < 2 ^ bit_length f x
unfolding bit_length
bit_length-lt zero x h = h
bit_length-lt (suc f) x h =
    let ih = bit_length-lt f (x / 2) (omega (arith, h, pow_suc f)) in
    elim (Bool-cases (x == 0)) [
      | inl e ↦ rw e (ground (arith, e))
      | inr e ↦ rw e (omega (arith, ih, pow_suc (bit_length f (x / 2))))
    ]

bit_length-le : (f x : ℕ) → bit_length f x ≤ f
unfolding bit_length
bit_length-le zero x = omega arith
bit_length-le (suc f) x = ground (arith, bit_length-le f (x / 2))

bit_length-zero : (f : ℕ) → bit_length f 0 ≡ 0
unfolding bit_length
bit_length-zero zero = refl
bit_length-zero (suc f) = refl

bit_length-ge :
    (f x : ℕ) → 0 < x → x < 2 ^ f → (0 < bit_length f x) × (2 ^ (bit_length f x - 1) ≤ x)
unfolding bit_length
bit_length-ge zero x p h = absurd (omega (arith, p, h))
bit_length-ge (suc f) x p h = elim (Bool-cases (x == 0)) [
  | inl e ↦ absurd (ground (arith, e, p))
  | inr e ↦ rw e (
    omega arith,
    half (bit_length f (x / 2)) refl (λ q. bit_length-ge f (x / 2) q (omega (arith, h, pow_suc f))),
  )
]
  where
    half :
        (n : ℕ)
        → bit_length f (x / 2) ≡ n
        → (0 < x / 2 → (0 < bit_length f (x / 2)) × (2 ^ (bit_length f (x / 2) - 1) ≤ x / 2))
        → 2 ^ (suc n - 1) ≤ x
    half n e ih = elim (Bool-cases (x / 2 == 0)) [
      | inl z ↦
          let z' : x / 2 ≡ 0 = ground (arith, z) in
          let none_left : n ≡ 0 = sym e ∙ (ap (bit_length f) z' ∙ bit_length-zero f) in
          rw none_left (omega (arith, p))
      | inr z ↦
          let (some_left, le) = ih (ground (arith, z)) in
          let le' : 2 ^ (n - 1) ≤ x / 2 = subst (λ k. 2 ^ (k - 1) ≤ x / 2) e le in
          let back : suc n - 1 ≡ suc (n - 1) = omega (arith, some_left, e) in
          rw back (omega (arith, le', pow_suc (n - 1)))
    ]

leading_zeros-ClzLaws : ClzLaws leading_zeros
leading_zeros-ClzLaws = record {
  within = λ x p h. omega (arith, bit_length-ge 64 x p h, bit_length-le 64 x);
  above = λ x p h.
      let back : 64 - leading_zeros x ≡ bit_length 64 x = omega (arith, bit_length-le 64 x) in
      rw back (bit_length-lt 64 x h);
  below = λ x p h.
      let back : 63 - leading_zeros x ≡ bit_length 64 x - 1 =
        omega (arith, bit_length-le 64 x, bit_length-ge 64 x p h) in
      rw back (bit_length-ge 64 x p h).1;
}

abbrev three_lits : List Lit
three_lits = x0 ∷ x1 ∷ x2 ∷ []

abbrev weights : List ℕ
weights = 3 ∷ 2 ∷ 5 ∷ []

sum_fits : sum weights < 2 ^ 64
unfolding sum
sum_fits = omega arith

encode-total_example :
    (s' : ListSolver) × (a : Adder) × (encode list_sat leading_zeros three new_adder three_lits
        weights 6
      ≡ some (s', a))
    × ((σ : Assignment)
        → list_sat.holds s' σ ≡ true
        → (list_sat.holds three σ ≡ true) × (total σ three_lits weights ≤ 6))
    × ((σ : Assignment)
        → list_sat.holds three σ ≡ true
        → total σ three_lits weights ≤ 6
        → (τ : Assignment) × Agree 3 σ τ × (list_sat.holds s' τ ≡ true))
encode-total_example =
    encode-total list_sat leading_zeros three three_lits weights 6 leading_zeros-ClzLaws
      (omega arith) (omega arith) (omega arith, (omega arith, (omega arith, tt))) sum_fits
      (λ σ τ h. refl) (omega arith, (omega arith, (omega arith, tt)))

abbrev used : Adder
used = record { output = none ∷ []; buckets = [] ∷ []; has_encoding = true }

encode_again_example : encode list_sat leading_zeros three used (x0 ∷ x1 ∷ []) (3 ∷ 2 ∷ []) 4 ≡ none
encode_again_example =
    encode_again list_sat leading_zeros three used (x0 ∷ x1 ∷ []) (3 ∷ 2 ∷ []) 4 (omega arith)

num_to_bits-number_example :
    (bits : List ℕ) × (num_to_bits 3 5 ≡ some bits)
    × (number bits ≡ min 5 (2 ^ 3 - 1))
    × (length bits ≡ 3)
    × AreBits bits
num_to_bits-number_example = num_to_bits-number 3 5 (omega arith)

-- Past 64 places the shift is undefined.
too_many_places : num_to_bits 65 (2 ^ 63) ≡ none
unfolding num_to_bits
too_many_places = refl
