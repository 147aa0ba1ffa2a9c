-- ===== src/Encoding/Totalizer.antt =====
-- `adder` and `toCNF` of `Totalizer` (Enc_Totalizer.cc). The right-hand side is a number, since the
-- assertions of `build` exclude a negative one; the counters of clauses and variables are left out.
pub mod Adder
pub mod Inputs
pub mod Tree
pub mod Total
pub mod Build
pub mod Increment
use dmeic.Prelude.{
  ℕ, zero, suc, ◌+◌, ◌-◌, ◌/◌, Bool, true, false, List, [], ◌∷◌, ◌++◌, Option, none, some, ◌==◌,
  ltb, if◌then◌else◌, length, get_or,
}
use dmeic.Encoding.Solver.{Lit, Sat, mk_lit, neg}
use dmeic.Encoding.Clauses.{add_unit, add_binary, add_ternary}

-- Stands for a read out of range, which the assertion on the sizes excludes.
abbrev pub undef : Lit
undef = mk_lit 0 false

-- A sum that `adder` need not count.
abbrev pub past : ℕ → ℕ → Bool
past rhs n = ltb (rhs + 1) n

infixl 5 ◌>>=◌
abbrev pub ◌>>=◌ {ℓ κ} : {A : Type ℓ} {B : Type κ} → Option A → (A → Option B) → Option B
none >>= f = none
some a >>= f = f a

module _ (sat : Sat) where
  open sat use {Solver, n_vars, new_var}

  module _ (skip : ℕ → Bool) (out : List Lit) (blocking : Option Lit) where
    -- The body of the inner loop, which skips some sums. `none` stands for the index 0, `some l` for the literal before it.
    unfoldable pub cell : Solver → ℕ → Option Lit → ℕ → Option Lit → Solver
    cell s i none j none = s
    cell s i none j (some r) =
        if skip (i + j) then s else add_binary sat s (neg r) (get_or out (j - 1) undef) blocking
    cell s i (some l) j none =
        if skip (i + j) then s else add_binary sat s (neg l) (get_or out (i - 1) undef) blocking
    cell s i (some l) j (some r) =
        if skip (i + j)
        then s
        else add_ternary sat s (neg l) (neg r) (get_or out (i + j - 1) undef) blocking

    -- The inner loop from `j` on.
    pub row : Solver → ℕ → Option Lit → ℕ → List Lit → Solver
    unfolding cell
    row s i l j [] = s
    row s i l j (r ∷ rs) = row (cell s i l j (some r)) i l (suc j) rs

    -- The outer loop from `i` on.
    pub rows : Solver → ℕ → List Lit → List Lit → Solver
    unfolding row
    rows s i [] right = s
    rows s i (l ∷ ls) right =
        rows (row (cell s i (some l) 0 none) i (some l) 1 right) (suc i) ls right

    -- The clauses of `adder`.
    unfoldable pub adder_clauses : Solver → List Lit → List Lit → Solver
    unfolding rows
    adder_clauses s left right = rows (row (cell s 0 none 0 none) 0 none 1 right) 1 left right

  -- An element of `totalizerIterative_left`, `_right`, `_output` and `_rhs`.
  pub record Node : Type 0 where
    pub left : List Lit
    pub right : List Lit
    pub output : List Lit
    pub bound : ℕ

  pub data Strategy : Type 0 where
    plain blocks weakening iterative : Strategy

  -- What `toCNF` and `adder` change; the head of `inlits` is its last element.
  pub record State : Type 0 where
    pub solver : Solver
    pub inlits : List Lit
    pub nodes : List Node

  -- The fields that they only read.
  pub record Config : Type 0 where
    pub rhs : ℕ
    pub blocking : Option Lit
    pub incremental : Strategy

  abbrev pub record_node : Strategy → Node → List Node → List Node
  record_node iterative n ns = ns ++ n ∷ []
  record_node s n ns = ns

  unfoldable pub adder : Config → State → List Lit → List Lit → List Lit → State
  unfolding adder_clauses
  adder c st left right output =
      let node : Node = record { left = left; right = right; output = output; bound = c.rhs } in
      record st {
        solver = adder_clauses (past c.rhs) output c.blocking st.solver left right;
        nodes = record_node c.incremental node st.nodes;
      }

  -- New positive literals, one for each call of `newSATVariable`.
  unfoldable pub fresh : ℕ → State → List Lit × State
  fresh zero st = ([], st)
  fresh (suc n) st =
      let l = mk_lit (n_vars st.solver) false in
      let (ls, st') = fresh n (record st { solver = new_var st.solver }) in (l ∷ ls, st')

  -- One branch of the loop of `toCNF`: an input if the branch is a leaf, else new variables.
  unfoldable pub pick : ℕ → State → Option (List Lit × State)
  unfolding fresh
  pick n st =
      if n == 1
      then elim st.inlits [ [] ↦ none | l ∷ rest ↦ some (l ∷ [], record st { inlits = rest }) ]
      else some (fresh n st)

  -- `toCNF` on fuel; `none` is a failed assertion, or no fuel.
  unfoldable pub to_cnf : ℕ → Config → State → List Lit → Option State
  unfolding pick adder
  to_cnf zero c st lits = none
  to_cnf (suc fuel) c st lits = elim (ltb 1 (length lits)) [
    | false ↦ none
    | true ↦
        let split = length lits / 2 in
        pick split st >>= λ l. pick (length lits - split) l.1 >>= λ r.
        (elim (ltb 1 (length l.0)) [ true ↦ to_cnf fuel c r.1 l.0 | false ↦ some r.1 ]) >>= λ st1.
        (elim (ltb 1 (length r.0)) [ true ↦ to_cnf fuel c st1 r.0 | false ↦ some st1 ]) >>= λ st2.
        some (adder c st2 l.0 r.0 lits)
  ]
