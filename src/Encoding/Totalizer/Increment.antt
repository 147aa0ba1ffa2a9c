-- ===== src/Encoding/Totalizer/Increment.antt =====
-- `incremental`, `update` under each strategy, `add` and `join` of `Totalizer` (Enc_Totalizer.cc).
-- `none` is a failed assertion, or an index out of range.
pub mod Nodes
use dmeic.Prelude.{
  ℕ, zero, suc, ◌+◌, ◌≤◌, Bool, true, false, not, ◌&&◌, ◌||◌, List, [], ◌∷◌, ◌++◌, map, Option,
  none, some, ◌==◌, ltb, leb, if◌then◌else◌, length, drop, min,
}
use dmeic.Encoding.Solver.{Lit, Sat, mk_lit, neg}
use dmeic.Encoding.Clauses.{add_unit}
use dmeic.Encoding.Totalizer.{
  ◌>>=◌, Node, Strategy, plain, blocks, weakening, iterative, State, Config, past, adder_clauses,
  adder, fresh,
}
use dmeic.Encoding.Totalizer.Build.{Totalizer, forbid, build, update_plain}

-- The sums that `incremental` passes over: those beyond the new bound, and those of the old one.
abbrev pub settled : ℕ → ℕ → ℕ → Bool
settled rhs old n = past rhs n || leb n (old + 1)

module _ (sat : Sat) where
  open sat use {Solver}

  -- Of the loop over the nodes.
  unfoldable pub incremental : ℕ → Option Lit → Solver → List (Node sat) → Solver × List (Node sat)
  unfolding adder_clauses
  incremental rhs blocking s [] = (s, [])
  incremental rhs blocking s (n ∷ ns) =
      let s1 = adder_clauses sat (settled rhs n.bound) n.output blocking s n.left n.right in
      let (s2, ns') = incremental rhs blocking s1 ns in (s2, record n { bound = rhs } ∷ ns')

  -- `addUnitClause(S, l)` for each literal.
  abbrev pub require : Solver → List Lit → Solver
  require s [] = s
  require s (l ∷ ls) = require (add_unit sat s l none) ls

  abbrev pub refused : List Lit → List Lit
  refused = map neg

  abbrev pub blocking_assumption : Option Lit → List Lit
  blocking_assumption none = []
  blocking_assumption (some b) = neg b ∷ []

  -- `update` by the strategy, with its assumptions.
  unfoldable pub update_by :
      Strategy sat → Totalizer sat → ℕ → List Lit → List Lit → Option (Totalizer sat × List Lit)
  unfolding incremental forbid build
  update_by plain t rhs lits assumptions =
      some (record t { solver = forbid sat t.solver (drop rhs t.outlits) }, assumptions)
  update_by blocks t rhs lits assumptions =
      build sat (record t { solver = require t.solver t.disable_lits }) lits rhs >>= λ b. some (
        record b { solver = forbid sat b.solver (drop rhs b.outlits) },
        blocking_assumption b.blocking,
      )
  update_by weakening t rhs lits assumptions = some (t, refused (drop rhs t.outlits))
  update_by iterative t rhs lits assumptions =
      let (s, nodes) = incremental rhs t.blocking t.solver t.nodes in
      some (record t { solver = s; nodes = nodes }, refused (drop rhs t.outlits))

  unfoldable pub update :
      Totalizer sat → ℕ → List Lit → List Lit → Option (Totalizer sat × List Lit)
  unfolding update_by
  update t rhs lits assumptions =
      if t.has_encoding then update_by t.incremental t rhs lits assumptions else none

  abbrev pub is_iterative : Strategy sat → Bool
  is_iterative iterative = true
  is_iterative plain = false
  is_iterative blocks = false
  is_iterative weakening = false

  abbrev pub last_output : List (Node sat) → Option (List Lit)
  last_output [] = none
  last_output (n ∷ []) = some n.output
  last_output (n ∷ m ∷ ns) = last_output (m ∷ ns)

  -- New outputs for the sum of two vectors, and `adder` on them.
  unfoldable pub combine : Totalizer sat → ℕ → List (Node sat) → List Lit → List Lit → Totalizer sat
  unfolding fresh adder
  combine t rhs nodes left right =
      let start : State sat = record { solver = t.solver; inlits = t.inlits; nodes = nodes } in
      let (outs, st) = fresh sat (length left + length right) start in
      let config : Config sat = record {
        rhs = rhs;
        blocking = t.blocking;
        incremental = t.incremental;
      } in
      let st' = adder sat config st left right outs in
      record t { solver = st'.solver; nodes = st'.nodes; outlits = outs; current_rhs = rhs }

  unfoldable pub add : Totalizer sat → Totalizer sat → ℕ → Option (Totalizer sat)
  unfolding combine
  add t tot rhs =
      if is_iterative t.incremental && is_iterative tot.incremental
      then (last_output t.nodes >>= λ left. last_output (t.nodes ++ tot.nodes) >>= λ right.
          some (combine t rhs (t.nodes ++ tot.nodes) left right))
      else none

  -- What `join` does to the literals that come to the right: a totalizer over them, or the one
  -- literal.
  unfoldable pub right_side : Totalizer sat → List Lit → ℕ → Option (Totalizer sat)
  unfolding build
  right_side t [] rhs = none
  right_side t (l ∷ []) rhs = some (record t { outlits = l ∷ [] })
  right_side t (l ∷ k ∷ lits) rhs = build sat t (l ∷ k ∷ lits) (min rhs (length (l ∷ k ∷ lits)))

  unfoldable pub join : Totalizer sat → List Lit → ℕ → Option (Totalizer sat)
  unfolding right_side combine
  join t lits rhs =
      if is_iterative t.incremental
      then (right_side t lits rhs >>= λ r.
          some (record (combine r rhs r.nodes t.outlits r.outlits) {
            current_rhs = t.current_rhs;
            ilits = r.ilits ++ lits;
          }))
      else none
