-- ===== src/Encoding/Totalizer/Build.antt =====
-- `build`, and `update` where nothing is incremental (Enc_Totalizer.cc). Printed lines and the
-- counters of clauses and variables are left out.
pub mod AtMost
use dmeic.Prelude.{
  ℕ, zero, suc, ◌≤◌, Bool, true, false, not, ◌&&◌, ◌||◌, List, [], ◌∷◌, ◌++◌, Option, none, some,
  ◌==◌, ltb, leb, if◌then◌else◌, length, drop,
}
use dmeic.Encoding.Solver.{Lit, Sat, mk_lit, neg}
use dmeic.Encoding.Clauses.{add_unit}
use dmeic.Encoding.Totalizer.{
  ◌>>=◌, Node, Strategy, plain, blocks, weakening, iterative, State, Config, fresh, to_cnf,
}

-- The elements of a vector from the last one on, before those of `acc`.
unfoldable pub from_last : List Lit → List Lit → List Lit
from_last [] acc = acc
from_last (l ∷ ls) acc = from_last ls (l ∷ acc)

-- `addUnitClause(S, ~l)` for each literal.
unfoldable pub forbid : (sat : Sat) → sat.Solver → List Lit → sat.Solver
unfolding add_unit
forbid sat s [] = s
forbid sat s (l ∷ ls) = forbid sat (add_unit sat s (neg l) none) ls

module _ (sat : Sat) where
  open sat use {Solver, n_vars, new_var}

  pub record Totalizer : Type 0 where
    pub solver : Solver
    pub nodes : List (Node sat)
    pub blocking : Option Lit
    pub has_encoding : Bool
    pub join_mode : Bool
    pub ilits : List Lit
    pub inlits : List Lit
    pub outlits : List Lit
    pub incremental : Strategy sat
    pub current_rhs : ℕ
    pub disable_lits : List Lit

  abbrev remember : Option Lit → List Lit → List Lit
  remember none ls = ls
  remember (some b) ls = ls ++ b ∷ []

  -- A new blocking literal where `incremental_strategy` is `_INCREMENTAL_BLOCKING_`.
  abbrev pub renew_blocking : Strategy sat → Totalizer → Totalizer
  renew_blocking blocks t = record t {
    solver = new_var t.solver;
    disable_lits = remember t.blocking t.disable_lits;
    blocking = some (mk_lit (n_vars t.solver) false);
  }
  renew_blocking plain t = t
  renew_blocking weakening t = t
  renew_blocking iterative t = t

  -- The call of `toCNF` with the assertion behind it, and the rest of `build`.
  unfoldable pub encode_outputs : Totalizer → List Lit → Option Totalizer
  unfolding to_cnf
  encode_outputs t lits =
      let config : Config sat = record {
        rhs = t.current_rhs;
        blocking = t.blocking;
        incremental = t.incremental;
      } in
      let start : State sat = record { solver = t.solver; inlits = t.inlits; nodes = t.nodes } in
      to_cnf sat (length t.outlits) config start t.outlits >>= λ st. elim st.inlits [
        | l ∷ ls ↦ none
        | [] ↦ some (record t {
          solver = st.solver;
          nodes = st.nodes;
          inlits = [];
          join_mode = true;
          has_encoding = true;
          ilits = lits;
        })
      ]

  abbrev is_plain : Strategy sat → Bool
  is_plain plain = true
  is_plain blocks = false
  is_plain weakening = false
  is_plain iterative = false

  -- The variables and inputs that `build` makes before it calls `toCNF`.
  unfoldable pub prepare : Totalizer → List Lit → ℕ → Totalizer
  unfolding fresh from_last
  prepare t lits rhs =
      let start : State sat = record { solver = t.solver; inlits = t.inlits; nodes = t.nodes } in
      let (outs, st) = fresh sat (length lits) start in
      renew_blocking t.incremental (record t {
        solver = st.solver;
        outlits = outs;
        inlits = from_last lits [];
        current_rhs = rhs;
        has_encoding = false;
      })

  -- `none` is a failed assertion.
  unfoldable pub build : Totalizer → List Lit → ℕ → Option Totalizer
  unfolding encode_outputs prepare forbid
  build t lits rhs =
      let cleared = record t { outlits = []; has_encoding = false } in
      if rhs == 0
      then some (record cleared { solver = forbid sat t.solver lits })
      else if ltb (length lits) rhs
      then none
      else if rhs == length lits && (is_plain t.incremental || not t.join_mode)
      then some cleared
      else encode_outputs (prepare t lits rhs) lits

  -- `update` under `_INCREMENTAL_NONE_`, with its assertion.
  unfoldable pub update_plain : Totalizer → ℕ → Option Totalizer
  unfolding forbid
  update_plain t rhs =
      if t.has_encoding
      then some (record t { solver = forbid sat t.solver (drop rhs t.outlits) })
      else none
