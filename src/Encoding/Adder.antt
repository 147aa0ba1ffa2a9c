-- ===== src/Encoding/Adder.antt =====
-- `Adder` (encodings/Enc_Adder.cc). The place of `vec<Lit>` that holds `lit_Undef` is `none`, and a
-- queue of literals is a list with its front first. `clz` stands for `__builtin_clzll`. A failed
-- assertion on sizes is `none`, and so is a shift by 64 places or more, which is undefined.
pub mod Gates
pub mod Tree
pub mod Digits
pub mod Compare
pub mod Buckets
pub mod Places
pub mod Complete
pub mod Extend
pub mod Correct
pub mod Exact
use mathlib.Core.Option
use dmeic.Prelude.{
  ℕ, zero, suc, ◌+◌, ◌-◌, ◌^◌, ◌/◌, ◌%◌, Bool, true, false, ◌||◌, List, [], ◌∷◌, ◌++◌, map, Option,
  none, some, if◌then◌else◌, ltb, leb, ◌==◌, length, take,
}
use dmeic.Encoding.Solver.{Lit, Sat, mk_lit, neg}
use dmeic.Encoding.Clauses.{add_binary, add_ternary, add_quaternary}
use dmeic.Encoding.Totalizer.{◌>>=◌}

-- `Adder`, without the scratch vector `clause`.
pub record Adder : Type 0 where
  pub output : List (Option Lit)
  pub buckets : List (List Lit)
  pub has_encoding : Bool

abbrev pub new_adder : Adder
new_adder = record { output = []; buckets = []; has_encoding = false }

-- The loop of `numToBits` from place `i - 1` down, with the bits that were pushed before, the last
-- one first.
unfoldable pub bits_from : ℕ → ℕ → List ℕ → List ℕ
bits_from zero number bits = bits
bits_from (suc i) number bits =
    let rest = bits_from i number (0 ∷ bits) in
    let rest' = bits_from i (number - 2 ^ i) (1 ∷ bits) in
    if ltb number (2 ^ i) then rest else rest'

-- With more than 64 places the first turn shifts by 64 places or more.
unfoldable pub num_to_bits : ℕ → ℕ → Option (List ℕ)
unfolding bits_from
num_to_bits n number = if leb n 64 then some (bits_from n number []) else none

-- The inner loop of `lessThanOrEqual`: `clause`, or none where it sets `skip`.
unfoldable pub clause_above : List (Option Lit) → List ℕ → Option (List Lit)
clause_above [] ys = some []
clause_above (x ∷ xs) [] = some []
clause_above (none ∷ xs) (y ∷ ys) = let rest = clause_above xs ys in if y == 1 then none else rest
clause_above (some l ∷ xs) (y ∷ ys) =
    Option.map (◌∷◌ (if y == 1 then neg l else l)) (clause_above xs ys)

-- `((1 << i) & c) != 0`
unfoldable pub test_bit : ℕ → ℕ → Bool
test_bit zero c = c % 2 == 1
test_bit (suc i) c = test_bit i (c / 2)

-- The inner loop of `encode`: the bucket of place `i`.
unfoldable pub bucket_at : ℕ → List Lit → List ℕ → List Lit
unfolding test_bit
bucket_at i [] coeffs = []
bucket_at i (l ∷ lits) [] = []
bucket_at i (l ∷ lits) (c ∷ coeffs) =
    let rest = bucket_at i lits coeffs in if test_bit i c then l ∷ rest else rest

-- The buckets of `n` places from place `i`.
unfoldable pub make_buckets : ℕ → ℕ → List Lit → List ℕ → List (List Lit)
unfolding bucket_at
make_buckets i zero lits coeffs = []
make_buckets i (suc n) lits coeffs = bucket_at i lits coeffs ∷ make_buckets (suc i) n lits coeffs

unfoldable pub ld64 : (ℕ → ℕ) → ℕ → ℕ
ld64 clz x = 64 - clz x

-- The clause of one place of `lessThanOrEqual`, if it has one.
unfoldable pub place_clause : Option Lit → ℕ → List (Option Lit) → List ℕ → Option (List Lit)
unfolding clause_above
place_clause none y xs ys = none
place_clause (some l) y xs ys =
    if y == 1 then none else Option.map (λ c. c ++ neg l ∷ []) (clause_above xs ys)

-- Enough fuel for the buckets: their number and that of their literals.
abbrev pub size : List (List Lit) → ℕ
size [] = 1
size (b ∷ bs) = suc (length b + size bs)

module _ (sat : Sat) where
  open sat use {Solver, n_vars, new_var, add_clause}

  unfoldable pub fa_extra : Solver → Lit → Lit → Lit → Lit → Lit → Solver
  fa_extra s xc xs a b c =
      let s1 = add_ternary sat s (neg xc) (neg xs) a none in
      let s2 = add_ternary sat s1 (neg xc) (neg xs) b none in
      let s3 = add_ternary sat s2 (neg xc) (neg xs) c none in
      let s4 = add_ternary sat s3 xc xs (neg a) none in
      let s5 = add_ternary sat s4 xc xs (neg b) none in add_ternary sat s5 xc xs (neg c) none

  unfoldable pub fa_carry : Solver → Lit → Lit → Lit → Solver × Lit
  fa_carry s a b c =
      let x = mk_lit (n_vars s) false in
      let s1 = add_ternary sat (new_var s) b c (neg x) none in
      let s2 = add_ternary sat s1 a c (neg x) none in
      let s3 = add_ternary sat s2 a b (neg x) none in
      let s4 = add_ternary sat s3 (neg b) (neg c) x none in
      let s5 = add_ternary sat s4 (neg a) (neg c) x none in
      (add_ternary sat s5 (neg a) (neg b) x none, x)

  unfoldable pub fa_sum : Solver → Lit → Lit → Lit → Solver × Lit
  fa_sum s a b c =
      let x = mk_lit (n_vars s) false in
      let s1 = add_quaternary sat (new_var s) a b c (neg x) none in
      let s2 = add_quaternary sat s1 a (neg b) (neg c) (neg x) none in
      let s3 = add_quaternary sat s2 (neg a) b (neg c) (neg x) none in
      let s4 = add_quaternary sat s3 (neg a) (neg b) c (neg x) none in
      let s5 = add_quaternary sat s4 (neg a) (neg b) (neg c) x none in
      let s6 = add_quaternary sat s5 (neg a) b c x none in
      let s7 = add_quaternary sat s6 a (neg b) c x none in
      (add_quaternary sat s7 a b (neg c) x none, x)

  unfoldable pub ha_carry : Solver → Lit → Lit → Solver × Lit
  ha_carry s a b =
      let x = mk_lit (n_vars s) false in
      let s1 = add_binary sat (new_var s) a (neg x) none in
      let s2 = add_binary sat s1 b (neg x) none in (add_ternary sat s2 (neg a) (neg b) x none, x)

  unfoldable pub ha_sum : Solver → Lit → Lit → Solver × Lit
  ha_sum s a b =
      let x = mk_lit (n_vars s) false in
      let s1 = add_ternary sat (new_var s) (neg a) (neg b) (neg x) none in
      let s2 = add_ternary sat s1 a b (neg x) none in
      let s3 = add_ternary sat s2 (neg a) b x none in (add_ternary sat s3 a (neg b) x none, x)

  -- One step of the loop of `adderTree`: what becomes of a bucket that is not the last one, with the
  -- next bucket. Each turn of its inner loop takes two literals off: its length is enough fuel.
  unfoldable pub add_bucket : ℕ → Solver → List Lit → List Lit → Solver × Option Lit × List Lit
  unfolding fa_sum fa_carry fa_extra ha_sum ha_carry
  add_bucket fuel s [] next = (s, none, next)
  add_bucket fuel s (x ∷ []) next = (s, some x, next)
  add_bucket fuel s (x ∷ y ∷ []) next =
      let (s1, h) = ha_sum s x y in let (s2, c) = ha_carry s1 x y in (s2, some h, next ++ c ∷ [])
  add_bucket zero s (x ∷ y ∷ z ∷ q) next = (s, none, next)
  add_bucket (suc fuel) s (x ∷ y ∷ z ∷ q) next =
      let (s1, xs) = fa_sum s x y z in
      let (s2, xc) = fa_carry s1 x y z in
      add_bucket fuel (fa_extra s2 xc xs x y z) (q ++ xs ∷ []) (next ++ xc ∷ [])

  -- `adderTree` from a bucket on: `result` from its place on. The last bucket gets another one after
  -- it when it holds two literals or more.
  unfoldable pub tree_from : ℕ → Solver → List Lit → List (List Lit) → Solver × List (Option Lit)
  unfolding add_bucket
  tree_from zero s q rest = (s, [])
  tree_from (suc fuel) s q (next ∷ rest) =
      let (s1, r, next') = add_bucket (length q) s q next in
      let (s2, rs) = tree_from fuel s1 next' rest in (s2, r ∷ rs)
  tree_from (suc fuel) s q [] =
      let (s1, r, next') = add_bucket (length q) s q [] in
      let (s2, rs) = tree_from fuel s1 next' [] in
      if leb 2 (length q) then (s2, r ∷ rs) else (s1, r ∷ [])

  unfoldable pub adder_tree : Solver → List (List Lit) → Solver × List (Option Lit)
  unfolding tree_from
  adder_tree s [] = (s, [])
  adder_tree s (b ∷ bs) = tree_from (size (b ∷ bs)) s b bs

  abbrev pub add_place : Solver → Option (List Lit) → Solver
  add_place s none = s
  add_place s (some c) = add_clause s c

  -- The loop of `lessThanOrEqual`.
  unfoldable pub bound_from : Solver → List (Option Lit) → List ℕ → Solver
  unfolding place_clause
  bound_from s [] ys = s
  bound_from s (x ∷ xs) [] = s
  bound_from s (x ∷ xs) (y ∷ ys) = bound_from (add_place s (place_clause x y xs ys)) xs ys

  unfoldable pub less_than_or_equal : Solver → List (Option Lit) → List ℕ → Option Solver
  unfolding bound_from
  less_than_or_equal s xs ys = if length xs == length ys then some (bound_from s xs ys) else none

  -- The same for `lessThanOrEqualInc`, with `assumptions`.
  abbrev pub assume_place : Solver → List Lit → Option (List Lit) → Solver × List Lit
  assume_place s assumptions none = (s, assumptions)
  assume_place s assumptions (some c) =
      let t = mk_lit (n_vars s) false in
      (add_clause (new_var s) (c ++ t ∷ []), assumptions ++ neg t ∷ [])

  unfoldable pub assume_from : Solver → List (Option Lit) → List ℕ → List Lit → Solver × List Lit
  unfolding place_clause
  assume_from s [] ys assumptions = (s, assumptions)
  assume_from s (x ∷ xs) [] assumptions = (s, assumptions)
  assume_from s (x ∷ xs) (y ∷ ys) assumptions =
      let (s', assumptions') = assume_place s assumptions (place_clause x y xs ys) in
      assume_from s' xs ys assumptions'

  unfoldable pub less_than_or_equal_inc :
      Solver → List (Option Lit) → List ℕ → List Lit → Option (Solver × List Lit)
  unfolding assume_from
  less_than_or_equal_inc s xs ys assumptions =
      if length xs == length ys then some (assume_from s xs ys assumptions) else none

  unfoldable pub update : Solver → Adder → ℕ → Option Solver
  unfolding num_to_bits less_than_or_equal
  update s a rhs = do bits ← num_to_bits (length a.buckets) rhs; less_than_or_equal s a.output bits

  unfoldable pub update_inc : Solver → Adder → ℕ → List Lit → Option (Solver × List Lit)
  unfolding num_to_bits less_than_or_equal_inc
  update_inc s a rhs assumptions = do
    bits ← num_to_bits (length a.buckets) rhs
    less_than_or_equal_inc s a.output bits assumptions

  -- `lits` and `coeffs` with `rhs > 0`. Every bucket is empty after `adderTree`. Where buckets of an
  -- earlier call are left, `_output` has fewer places than there are buckets.
  unfoldable pub start : (ℕ → ℕ) → Solver → Adder → List Lit → List ℕ → ℕ → Solver × Adder
  unfolding make_buckets adder_tree ld64
  start clz s a lits coeffs rhs =
      let bs = a.buckets ++ make_buckets 0 (ld64 clz rhs) lits coeffs in
      let (s', result) = adder_tree s bs in
      (
        s',
        record {
          output = take (length result - length a.buckets) result;
          buckets = map (λ r. []) result;
          has_encoding = true;
        },
      )

  unfoldable pub encode : (ℕ → ℕ) → Solver → Adder → List Lit → List ℕ → ℕ → Option (Solver × Adder)
  unfolding start update
  encode clz s a lits coeffs rhs =
      let (s1, a') = start clz s a lits coeffs rhs in Option.map (λ s2. (s2, a')) (update s1 a' rhs)

  unfoldable pub encode_inc :
      (ℕ → ℕ)
      → Solver
      → Adder
      → List Lit
      → List ℕ
      → ℕ
      → List Lit
      → Option (Solver × Adder × List Lit)
  unfolding start update_inc
  encode_inc clz s a lits coeffs rhs assumptions =
      let (s1, a') = start clz s a lits coeffs rhs in
      Option.map (λ p. (p.0, a', p.1)) (update_inc s1 a' rhs assumptions)
