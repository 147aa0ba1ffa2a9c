-- ===== src/Encoding/Adder/Buckets.antt =====
-- The buckets that `encode` makes have the sum of the coefficients of the true literals.
use dmeic.Encoding.Variables.{AreBelow, Agree, lit_true-Agree}
use dmeic.Prelude.{
  pow_suc, Bool-cases, inl, inr, ℕ, zero, suc, ◌+◌, ◌*◌, ◌/◌, ◌^◌, ◌<◌, ◌≡◌, refl, sym, ap, List,
  [], ◌∷◌, map, arith, if◌then◌else◌, length, All,
}
use dmeic.Encoding.Solver.{Lit, Assignment, lit_true, count_true}
use dmeic.Encoding.Adder.{test_bit, bucket_at, make_buckets}
use dmeic.Encoding.Adder.Tree.{weigh}

-- The sum of the coefficients of the true literals.
unfoldable pub total : Assignment → List Lit → List ℕ → ℕ
total σ [] coeffs = 0
total σ (l ∷ lits) [] = 0
total σ (l ∷ lits) (c ∷ coeffs) =
    let rest = total σ lits coeffs in if lit_true σ l then c + rest else rest

abbrev pub halves : List ℕ → List ℕ
halves = map (λ c. c / 2)

bucket_at-suc :
    (i : ℕ) (lits : List Lit) (coeffs : List ℕ)
    → bucket_at (suc i) lits coeffs ≡ bucket_at i lits (halves coeffs)
unfolding bucket_at
bucket_at-suc i [] coeffs = refl
bucket_at-suc i (l ∷ lits) [] = refl
bucket_at-suc i (l ∷ lits) (c ∷ coeffs) = rw (bucket_at-suc i lits coeffs) refl

pub make_buckets-suc :
    (i n : ℕ) (lits : List Lit) (coeffs : List ℕ)
    → make_buckets (suc i) n lits coeffs ≡ make_buckets i n lits (halves coeffs)
unfolding make_buckets
make_buckets-suc i zero lits coeffs = refl
make_buckets-suc i (suc n) lits coeffs =
    rw (bucket_at-suc i lits coeffs, make_buckets-suc (suc i) n lits coeffs) refl

pub length-make_buckets :
    (i n : ℕ) (lits : List Lit) (coeffs : List ℕ) → length (make_buckets i n lits coeffs) ≡ n
unfolding make_buckets
length-make_buckets i zero lits coeffs = refl
length-make_buckets i (suc n) lits coeffs = ap suc (length-make_buckets (suc i) n lits coeffs)

total-halves :
    (σ : Assignment) (lits : List Lit) (coeffs : List ℕ)
    → count_true σ (bucket_at 0 lits coeffs) + 2 * total σ lits (halves coeffs)
      ≡ total σ lits coeffs
unfolding bucket_at total count_true
total-halves σ [] coeffs = omega arith
total-halves σ (l ∷ lits) [] = omega arith
total-halves σ (l ∷ lits) (c ∷ coeffs) = ground (arith, total-halves σ lits coeffs)

halves-Below :
    (n : ℕ) (coeffs : List ℕ)
    → All (λ c. c < 2 ^ suc n) coeffs
    → All (λ c. c < 2 ^ n) (halves coeffs)
halves-Below n [] h = tt
halves-Below n (c ∷ coeffs) h = (omega (arith, h.0, pow_suc n), halves-Below n coeffs h.1)

total-zero :
    (σ : Assignment) (lits : List Lit) (coeffs : List ℕ)
    → All (λ c. c < 1) coeffs
    → total σ lits coeffs ≡ 0
unfolding total
total-zero σ [] coeffs h = refl
total-zero σ (l ∷ lits) [] h = refl
total-zero σ (l ∷ lits) (c ∷ coeffs) h = ground (arith, total-zero σ lits coeffs h.1, h.0)

-- As many buckets as the coefficients have digits keep their whole sum.
pub make_buckets-total :
    (σ : Assignment) (n : ℕ) (lits : List Lit) (coeffs : List ℕ)
    → All (λ c. c < 2 ^ n) coeffs
    → weigh σ (make_buckets 0 n lits coeffs) ≡ total σ lits coeffs
unfolding make_buckets weigh
make_buckets-total σ zero lits coeffs h = sym (total-zero σ lits coeffs h)
make_buckets-total σ (suc n) lits coeffs h =
    let ih = make_buckets-total σ n lits (halves coeffs) (halves-Below n coeffs h) in
    let e = ap (weigh σ) (make_buckets-suc 0 n lits coeffs) in
    omega (arith, total-halves σ lits coeffs, ih, e)

bucket_at-AreBelow :
    (n i : ℕ) (lits : List Lit) (coeffs : List ℕ)
    → AreBelow n lits
    → AreBelow n (bucket_at i lits coeffs)
unfolding bucket_at
bucket_at-AreBelow n i [] coeffs h = tt
bucket_at-AreBelow n i (l ∷ lits) [] h = tt
bucket_at-AreBelow n i (l ∷ lits) (c ∷ coeffs) h =
    let rest = bucket_at-AreBelow n i lits coeffs h.1 in
    elim (Bool-cases (test_bit i c)) [ inl t ↦ rw t (h.0, rest) | inr f ↦ rw f rest ]

pub make_buckets-AreBelow :
    (n i k : ℕ) (lits : List Lit) (coeffs : List ℕ)
    → AreBelow n lits
    → All (AreBelow n) (make_buckets i k lits coeffs)
unfolding make_buckets
make_buckets-AreBelow n i zero lits coeffs h = tt
make_buckets-AreBelow n i (suc k) lits coeffs h =
    (bucket_at-AreBelow n i lits coeffs h, make_buckets-AreBelow n (suc i) k lits coeffs h)

pub total-Agree :
    (n : ℕ) (σ τ : Assignment) (lits : List Lit) (coeffs : List ℕ)
    → Agree n σ τ
    → AreBelow n lits
    → total τ lits coeffs ≡ total σ lits coeffs
unfolding total
total-Agree n σ τ [] coeffs g h = refl
total-Agree n σ τ (l ∷ lits) [] g h = refl
total-Agree n σ τ (l ∷ lits) (c ∷ coeffs) g h =
    rw (lit_true-Agree n σ τ l g h.0, total-Agree n σ τ lits coeffs g h.1) refl
