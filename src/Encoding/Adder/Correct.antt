-- ===== src/Encoding/Adder/Correct.antt =====
-- `Adder::encode`, `update` and their incremental versions bound the sum of the coefficients.
use mathlib.Core.Option
use dmeic.Prelude.{
  ℕ, suc, ◌-◌, ◌^◌, ◌<◌, ◌≤◌, ◌≡◌, ◌↔◌, refl, sym, ◌∙◌, ap, subst, true, false, List, [], ◌∷◌, ◌++◌,
  map, Option, none, some, arith, inl, inr, ◌==◌, length, All, All-mono, take, take_all,
  length-take, length-append,
}
use dmeic.Encoding.Solver.{Lit, Assignment, Sat}
use dmeic.Encoding.Adder.{
  Adder, new_adder, bound_from, less_than_or_equal, assume_from, less_than_or_equal_inc,
  make_buckets, ld64, adder_tree, start, update, update_inc, encode, encode_inc,
}
use dmeic.Encoding.Adder.Tree.{value, adder_tree-sum, adder_tree-length}
use dmeic.Encoding.Adder.Digits.{num_to_bits-number, num_to_bits_cases}
use dmeic.Encoding.Adder.Compare.{AllTrue, value-lt, bound_from_iff, assume_from_sound}
use dmeic.Encoding.Adder.Buckets.{total, make_buckets-total}
use dmeic.Encoding.Adder.Places.{sum, adder_tree-places}

-- What the compiler documents of `__builtin_clzll`: the number of leading zeros of a positive number
-- of 64 bits.
pub record ClzLaws (clz : ℕ → ℕ) : Type 0 where
  pub within : (x : ℕ) → 0 < x → x < 2 ^ 64 → clz x < 64
  pub above : (x : ℕ) → 0 < x → x < 2 ^ 64 → x < 2 ^ (64 - clz x)
  pub below : (x : ℕ) → 0 < x → x < 2 ^ 64 → 2 ^ (63 - clz x) ≤ x

take_whole : (xs : List (Option Lit)) → take (length xs - 0) xs ≡ xs
take_whole xs = take_all (length xs - 0) xs (omega arith)

length-empty : (xs : List (Option Lit)) → length (map {B = List Lit} (λ r. []) xs) ≡ length xs
length-empty [] = refl
length-empty (x ∷ xs) = ap suc (length-empty xs)

module _ (sat : Sat) (σ : Assignment) where
  open sat use {Solver, holds}

  -- Where there is an output for each bucket, and at most 64 of them, `update` succeeds for every right-hand side, and its
  -- clauses hold just where the outputs stand for at most the right-hand side.
  pub update_iff :
      (s : Solver) (a : Adder) (rhs : ℕ)
      → length a.output ≡ length a.buckets
      → length a.buckets ≤ 64
      → (s' : Solver) × (update sat s a rhs ≡ some s')
        × ((holds s' σ ≡ true) ↔ ((holds s σ ≡ true) × (value σ a.output ≤ rhs)))
  unfolding update less_than_or_equal
  update_iff s a rhs e few =
      let (bits, digits, n, l, b) = num_to_bits-number (length a.buckets) rhs few in
      let same : length a.output ≡ length bits = e ∙ sym l in
      let iff = bound_from_iff sat σ s a.output bits same b in
      let small = subst (λ k. value σ a.output < 2 ^ k) e (value-lt σ a.output) in
      let test : (length a.output == length bits) ≡ true = ground (arith, same) in
      (
        bound_from sat s a.output bits,
        rw (digits, test) refl,
        (
          (λ h. let k = iff.0 h in (k.0, omega (arith, k.1, n))),
          λ h. iff.1 (h.0, omega (arith, h.1, n, small)),
        ),
      )

  -- The same for `updateInc`, under its assumptions.
  pub update_inc_sound :
      (s : Solver) (a : Adder) (rhs : ℕ) (assumptions : List Lit)
      → length a.output ≡ length a.buckets
      → length a.buckets ≤ 64
      → (s' : Solver) × (ls : List Lit) × (update_inc sat s a rhs assumptions ≡ some (s', ls))
        × (holds s' σ ≡ true
            → AllTrue sat σ ls
            → (holds s σ ≡ true) × (value σ a.output ≤ rhs) × AllTrue sat σ assumptions)
  unfolding update_inc less_than_or_equal_inc
  update_inc_sound s a rhs assumptions e few =
      let (bits, digits, n, l, b) = num_to_bits-number (length a.buckets) rhs few in
      let same : length a.output ≡ length bits = e ∙ sym l in
      let test : (length a.output == length bits) ≡ true = ground (arith, same) in
      (
        (assume_from sat s a.output bits assumptions).0,
        (assume_from sat s a.output bits assumptions).1,
        rw (digits, test) refl,
        λ h all.
            let (k, v, rest) = assume_from_sound sat σ s a.output bits assumptions same b h all in
            (k, omega (arith, v, n), rest),
      )

  start-lengths :
      (clz : ℕ → ℕ) (s : Solver) (lits : List Lit) (coeffs : List ℕ) (rhs : ℕ)
      → length (start sat clz s new_adder lits coeffs rhs).1.output
        ≡ length (start sat clz s new_adder lits coeffs rhs).1.buckets
  unfolding start
  start-lengths clz s lits coeffs rhs =
      let rs = (adder_tree sat s (make_buckets 0 (ld64 clz rhs) lits coeffs)).1 in
      ap length (take_whole rs) ∙ sym (length-empty rs)

  start-places :
      (clz : ℕ → ℕ) (s : Solver) (lits : List Lit) (coeffs : List ℕ) (rhs : ℕ)
      → sum coeffs < 2 ^ 64
      → length (start sat clz s new_adder lits coeffs rhs).1.buckets ≤ 64
  unfolding start ld64
  start-places clz s lits coeffs rhs h =
      let rs = (adder_tree sat s (make_buckets 0 (ld64 clz rhs) lits coeffs)).1 in
      omega (
        arith,
        adder_tree-places sat (64 - clz rhs) 64 s lits coeffs h (omega arith),
        length-empty rs,
      )

  sum_of_start :
      (clz : ℕ → ℕ) (s : Solver) (lits : List Lit) (coeffs : List ℕ) (rhs : ℕ)
      → ClzLaws clz
      → 0 < rhs
      → rhs < 2 ^ 64
      → All (λ c. c ≤ rhs) coeffs
      → holds (start sat clz s new_adder lits coeffs rhs).0 σ ≡ true
      → (holds s σ ≡ true)
        × (value σ (start sat clz s new_adder lits coeffs rhs).1.output ≡ total σ lits coeffs)
  unfolding start ld64
  sum_of_start clz s lits coeffs rhs laws pos fits small h =
      let n = ld64 clz rhs in
      let bs = make_buckets 0 n lits coeffs in
      let (h0, e) = adder_tree-sum sat σ s bs h in
      let whole = take_whole (adder_tree sat s bs).1 in
      let below =
        All-mono (λ c. c ≤ rhs) (λ c. c < 2 ^ n) coeffs
          (λ c l. omega (arith, l, laws.above rhs pos fits)) small in
      (h0, ap (value σ) whole ∙ (e ∙ make_buckets-total σ n lits coeffs below))

  -- On a new Adder, with a positive right-hand side of 64 bits and no greater coefficient and coefficients that
  -- sum up to less than 2 ^ 64, `encode` succeeds, and under each assignment that satisfies its clauses the coefficients of the true
  -- literals sum up to at most the right-hand side.
  pub encode-at_most :
      (clz : ℕ → ℕ) (s : Solver) (lits : List Lit) (coeffs : List ℕ) (rhs : ℕ)
      → ClzLaws clz
      → 0 < rhs
      → rhs < 2 ^ 64
      → All (λ c. c ≤ rhs) coeffs
      → sum coeffs < 2 ^ 64
      → (s' : Solver) × (a : Adder) × (encode sat clz s new_adder lits coeffs rhs ≡ some (s', a))
        × (holds s' σ ≡ true
            → (holds s σ ≡ true)
              × (total σ lits coeffs ≤ rhs)
              × (value σ a.output ≡ total σ lits coeffs))
        × (length a.output ≡ length a.buckets)
  unfolding encode
  encode-at_most clz s lits coeffs rhs laws pos fits small whole =
      let (s1, a) = start sat clz s new_adder lits coeffs rhs in
      let same = start-lengths clz s lits coeffs rhs in
      let (s', e, iff) = update_iff s1 a rhs same (start-places clz s lits coeffs rhs whole) in
      (
        s',
        a,
        ap (Option.map (λ s2. (s2, a))) e,
        (λ h.
            let (h1, le) = iff.0 h in
            let (h0, v) = sum_of_start clz s lits coeffs rhs laws pos fits small h1 in
            (h0, omega (arith, le, v), v)),
        same,
      )

  -- The same for the other direction, for an assignment that satisfies the clauses of `adderTree`.
  pub encode_holds :
      (clz : ℕ → ℕ) (s : Solver) (lits : List Lit) (coeffs : List ℕ) (rhs : ℕ)
      → ClzLaws clz
      → 0 < rhs
      → rhs < 2 ^ 64
      → All (λ c. c ≤ rhs) coeffs
      → sum coeffs < 2 ^ 64
      → (s' : Solver) × (a : Adder) × (encode sat clz s new_adder lits coeffs rhs ≡ some (s', a))
        × (holds (start sat clz s new_adder lits coeffs rhs).0 σ ≡ true
            → total σ lits coeffs ≤ rhs
            → holds s' σ ≡ true)
  unfolding encode
  encode_holds clz s lits coeffs rhs laws pos fits small whole =
      let (s1, a) = start sat clz s new_adder lits coeffs rhs in
      let (s', e, iff) =
        update_iff s1 a rhs (start-lengths clz s lits coeffs rhs)
          (start-places clz s lits coeffs rhs whole) in
      (
        s',
        a,
        ap (Option.map (λ s2. (s2, a))) e,
        λ h le.
            let (h0, v) = sum_of_start clz s lits coeffs rhs laws pos fits small h in
            iff.1 (h, omega (arith, le, v)),
      )

  -- The same for `encodeInc`, under its assumptions.
  pub encode_inc-at_most :
      (clz : ℕ → ℕ) (s : Solver) (lits : List Lit) (coeffs : List ℕ) (rhs : ℕ)
      → (assumptions : List Lit) → ClzLaws clz
      → 0 < rhs
      → rhs < 2 ^ 64
      → All (λ c. c ≤ rhs) coeffs
      → sum coeffs < 2 ^ 64
      → (s' : Solver) × (a : Adder) × (ls : List Lit) × (encode_inc sat clz s new_adder lits coeffs
            rhs assumptions
          ≡ some (s', a, ls))
        × (holds s' σ ≡ true → AllTrue sat σ ls → (holds s σ ≡ true) × (total σ lits coeffs ≤ rhs))
  unfolding encode_inc
  encode_inc-at_most clz s lits coeffs rhs assumptions laws pos fits small whole =
      let (s1, a) = start sat clz s new_adder lits coeffs rhs in
      let (s', ls, e, sound) =
        update_inc_sound s1 a rhs assumptions (start-lengths clz s lits coeffs rhs)
          (start-places clz s lits coeffs rhs whole) in
      (
        s',
        a,
        ls,
        ap (Option.map (λ p. (p.0, a, p.1))) e,
        λ h all.
            let (h1, le, rest) = sound h all in
            let (h0, v) = sum_of_start clz s lits coeffs rhs laws pos fits small h1 in
            (h0, omega (arith, le, v)),
      )

module _ (sat : Sat) where
  update_fails :
      (s : sat.Solver) (a : Adder) (rhs : ℕ)
      → length a.output < length a.buckets
      → update sat s a rhs ≡ none
  unfolding update less_than_or_equal
  update_fails s a rhs less = elim (num_to_bits_cases (length a.buckets) rhs) [
    | inl e ↦ rw e refl
    | inr (bits, e, l) ↦
        let test : (length a.output == length bits) ≡ false = ground (arith, l, less) in
        rw (e, test) refl
  ]

  fewer :
      (rs : List (Option Lit)) (m : ℕ)
      → 0 < m
      → m ≤ length rs
      → length (take (length rs - m) rs) < length (map {B = List Lit} (λ r. []) rs)
  fewer rs m pos le = omega (arith, length-take (length rs - m) rs, length-empty rs, pos, le)

  -- `encode` fails on an Adder that has buckets of an earlier call.
  pub encode_again :
      (clz : ℕ → ℕ) (s : sat.Solver) (a : Adder) (lits : List Lit) (coeffs : List ℕ) (rhs : ℕ)
      → 0 < length a.buckets
      → encode sat clz s a lits coeffs rhs ≡ none
  unfolding encode start
  encode_again clz s a lits coeffs rhs left =
      let new = make_buckets 0 (ld64 clz rhs) lits coeffs in
      let (s1, rs) = adder_tree sat s (a.buckets ++ new) in
      let few =
        fewer rs (length a.buckets) left (
          omega (arith, adder_tree-length sat s (a.buckets ++ new), length-append a.buckets new)) in
      ap (Option.map (λ s2. (s2, (start sat clz s a lits coeffs rhs).1)))
        (update_fails s1 (start sat clz s a lits coeffs rhs).1 rhs few)
