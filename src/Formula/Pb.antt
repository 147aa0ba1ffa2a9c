-- ===== src/Formula/Pb.antt =====
-- The class `PB` of FormulaPB.h: a linear constraint with coefficients of type `uint64_t` and an
-- `int64_t` right-hand side, which are taken not to overflow; `changeSign` sums in an `int`.
pub mod Meaning
use dmeic.Prelude.{
  ℕ, zero, suc, ◌+◌, ◌-◌, ◌%◌, ◌^◌, Bool, true, false, not, List, [], ◌∷◌, ◌++◌, if◌then◌else◌,
  ◌==◌, ltb, map,
}
use dmeic.Prelude.Int.{ℤ, pos, negsuc, ◌+ℤ◌, ◌-ℤ◌, sub_ℕ}
use dmeic.Encoding.Solver.{Lit, neg}

pub record Term : Type 0 where
  pub coeff : ℕ
  pub lit : Lit

-- `_coeffs` and `_lits`, which the code keeps in step; `sign` is true for at most.
pub record Pb : Type 0 where
  pub terms : List Term
  pub rhs : ℤ
  pub sign : Bool
  pub ub : ℕ

-- `PB()`
unfoldable pub new_pb : Pb
new_pb = record { terms = []; rhs = pos 0; sign = false; ub = 0 }

-- `addProduct(l, c)`: a negative coefficient is turned round.
unfoldable pub add_product : Pb → Lit → ℤ → Pb
add_product b l (pos c) = record b {
  terms = b.terms ++ record { coeff = c; lit = l } ∷ [];
  ub = b.ub + c;
}
add_product b l (negsuc n) = record b {
  terms = b.terms ++ record { coeff = suc n; lit = neg l } ∷ [];
  rhs = b.rhs +ℤ pos (suc n);
  ub = b.ub + suc n;
}

unfoldable pub add_rhs : Pb → ℤ → Pb
add_rhs b rhs = record b { rhs = b.rhs +ℤ rhs }

-- A `uint64_t` that is stored in an `int`.
unfoldable pub to_int : ℕ → ℤ
to_int n = let w = n % 2 ^ 32 in if ltb w (2 ^ 31) then pos w else sub_ℕ w (2 ^ 32)

-- `s += _coeffs[i]`: the low 32 bits of the sum so far.
pub int_sum : ℕ → List Term → ℕ
int_sum s [] = s
int_sum s (t ∷ ts) = int_sum ((s + t.coeff) % 2 ^ 32) ts

abbrev pub neg_term : Term → Term
neg_term t = record { coeff = t.coeff; lit = neg t.lit }

unfoldable pub change_sign : Pb → Pb
unfolding int_sum to_int
change_sign b = record b {
  terms = map neg_term b.terms;
  rhs = to_int (int_sum 0 b.terms) -ℤ b.rhs;
  sign = not b.sign;
}

abbrev pub is_one : ℤ → Bool
is_one (pos n) = n == 1
is_one (negsuc n) = false

pub all_one : List Term → Bool
all_one [] = true
all_one (t ∷ ts) = if t.coeff == 1 then all_one ts else false

-- The rest of `isClause` once the constraint is `turned` to at least; `back` is `turned` after the
-- sign is restored. The constraint stays turned where the answer is true.
unfoldable pub clause_answer : Pb → Pb → Bool × Pb
unfolding all_one
clause_answer turned back =
    if is_one turned.rhs
    then (if all_one turned.terms then (true, turned) else (false, back))
    else (false, back)

unfoldable pub is_clause : Pb → Bool × Pb
unfolding change_sign clause_answer
is_clause b =
    if b.sign
    then clause_answer (change_sign b) (change_sign (change_sign b))
    else clause_answer b b

-- `isCardinality`, in the same way.
unfoldable pub cardinality_answer : Pb → Pb → Bool × Pb
unfolding all_one
cardinality_answer turned back = if all_one turned.terms then (true, turned) else (false, back)

unfoldable pub is_cardinality : Pb → Bool × Pb
unfolding change_sign cardinality_answer
is_cardinality b =
    if b.sign
    then cardinality_answer (change_sign b) (change_sign (change_sign b))
    else cardinality_answer b b
