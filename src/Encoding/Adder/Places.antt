-- ===== src/Encoding/Adder/Places.antt =====
-- The number of places that `adderTree` makes: a bucket sends at most half of its literals on.
use dmeic.Prelude.{
  pow_suc, Bool-cases, inl, inr, ℕ, zero, suc, ◌+◌, ◌*◌, ◌^◌, ◌<◌, ◌≤◌, ap, List, [], ◌∷◌, arith,
  length, leb, leb→le, true,
}
use dmeic.Encoding.Solver.{Lit, Sat}
use dmeic.Encoding.Adder.{bucket_at, make_buckets, add_bucket, tree_from, adder_tree, size}
use dmeic.Encoding.Adder.Tree.{add_bucket-length}
use dmeic.Encoding.Adder.Buckets.{halves, make_buckets-suc, length-make_buckets}

-- What the literals of the buckets weigh together.
unfoldable load : List (List Lit) → ℕ
load [] = 0
load (b ∷ bs) = length b + 2 * load bs

-- The sum of the coefficients, whichever literals are true.
unfoldable pub sum : List ℕ → ℕ
sum [] = 0
sum (c ∷ cs) = c + sum cs

bucket_at-halves :
    (lits : List Lit) (coeffs : List ℕ)
    → length (bucket_at 0 lits coeffs) + 2 * sum (halves coeffs) ≤ sum coeffs
unfolding bucket_at sum
bucket_at-halves [] [] = omega arith
bucket_at-halves [] (c ∷ coeffs) = omega (arith, bucket_at-halves [] coeffs)
bucket_at-halves (l ∷ lits) [] = omega arith
bucket_at-halves (l ∷ lits) (c ∷ coeffs) = ground (arith, bucket_at-halves lits coeffs)

make_buckets-load :
    (n : ℕ) (lits : List Lit) (coeffs : List ℕ) → load (make_buckets 0 n lits coeffs) ≤ sum coeffs
unfolding make_buckets load
make_buckets-load zero lits coeffs = omega arith
make_buckets-load (suc n) lits coeffs = omega (
  arith,
  bucket_at-halves lits coeffs,
  make_buckets-load n lits (halves coeffs),
  ap load (make_buckets-suc 0 n lits coeffs),
)

one_place : (x : ℕ) → 2 ≤ x → (k : ℕ) → x < 2 ^ suc k → 0 < k
one_place x h zero l = absurd (omega (arith, h, l))
one_place x h (suc k) l = omega arith

module _ (sat : Sat) where
  open sat use {Solver}

  tree_from-places :
      (fuel k : ℕ) (s : Solver) (q : List Lit) (rest : List (List Lit))
      → load (q ∷ rest) < 2 ^ k
      → length rest < k
      → length (tree_from sat fuel s q rest).1 ≤ k
  unfolding tree_from load
  tree_from-places zero k s q rest h l = omega arith
  tree_from-places (suc fuel) zero s q rest h l = absurd (omega (arith, l))
  tree_from-places (suc fuel) (suc k) s q (next ∷ rest) h l =
      let (s1, r, next') = add_bucket sat (length q) s q next in
      let small = add_bucket-length sat (λ v. true) (length q) s q next (omega arith) in
      omega (
        arith,
        tree_from-places fuel k s1 next' rest (omega (arith, small, h, pow_suc k))
            (omega (arith, l)),
      )
  tree_from-places (suc fuel) (suc k) s q [] h l = elim (Bool-cases (leb 2 (length q))) [
    | inl many ↦
        let (s1, r, next') = add_bucket sat (length q) s q [] in
        let small = add_bucket-length sat (λ v. true) (length q) s q [] (omega arith) in
        let two : 2 ≤ length q = leb→le 2 (length q) many in
        let more : 0 < k = one_place (length q) two k (omega (arith, h)) in
        rw many (
          omega
            (arith, tree_from-places fuel k s1 next' [] (omega (arith, small, h, pow_suc k)) more))
    | inr few ↦ rw few (omega arith)
  ]

  -- As many places as the sum of the coefficients has binary digits are enough.
  pub adder_tree-places :
      (n k : ℕ) (s : Solver) (lits : List Lit) (coeffs : List ℕ)
      → sum coeffs < 2 ^ k
      → n ≤ k
      → length (adder_tree sat s (make_buckets 0 n lits coeffs)).1 ≤ k
  unfolding adder_tree make_buckets
  adder_tree-places zero k s lits coeffs h l = omega arith
  adder_tree-places (suc n) k s lits coeffs h l =
      tree_from-places (size (make_buckets 0 (suc n) lits coeffs)) k s (bucket_at 0 lits coeffs)
        (make_buckets 1 n lits coeffs) (omega (arith, make_buckets-load (suc n) lits coeffs, h))
        (omega (arith, length-make_buckets 1 n lits coeffs, l))
