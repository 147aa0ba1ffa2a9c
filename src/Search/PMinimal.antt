-- ===== src/Search/PMinimal.antt =====
-- `searchPMinimalMO` of algorithms/Alg_PMinimalMO.cc: one function for each part of its body, and a
-- step relation for what the SAT solver and the other threads of a portfolio may do in between.
pub mod Known
pub mod Invariant
pub mod Result
pub mod Progress
pub mod Finish
use dmeic.Prelude.{
  ℕ, zero, suc, ◌≡◌, Bool, true, false, List, [], ◌∷◌, Option, none, some, All, if◌then◌else◌, ◌==◌,
  length,
}
use dmeic.Prelude.Int.{ℤ, pos, negsuc}
use dmeic.Point.{YPoint}
use dmeic.Encoding.Solver.{Sat, Lit, Assignment, lit_true}
use dmeic.Formula.Objective.{Objective, Model, Lbool, l_true, l_false}
use dmeic.Search.Solution.{Solution, push_safe, last, eval_model, Entry, new_solution, zeros}
use dmeic.Search.RootLits.{RootLits, block_dominated_region, assume_lits}

-- What the search changes: the solver, `assumptions`, `solution()` and the local `ul`.
pub record State (sat : Sat) : Type 0 where
  pub solver : sat.Solver
  pub assumptions : List Lit
  pub sol : Solution
  pub ul : YPoint

-- `solver->model` after an answer, which has a value for each of the first `n` variables.
unfoldable pub values_from : ℕ → ℕ → Assignment → Model
values_from zero v σ = []
values_from (suc n) v σ = (if σ v then l_true else l_false) ∷ values_from n (suc v) σ

abbrev pub model_of : ℕ → Assignment → Model
model_of n σ = values_from n 0 σ

-- `solution().yPoint()`, the point of the last element; it is undefined for an empty solution.
unfoldable pub last_point : YPoint → Option Entry → YPoint
last_point ul none = ul
last_point ul (some e) = e.point

module _ (sat : Sat) (roots : List RootLits) where
  -- The body of the inner loop, for the model `m` of the solver, up to the next call of the solver.
  unfoldable pub found : State sat → Model → YPoint → State sat
  unfolding push_safe last last_point block_dominated_region assume_lits
  found s m p =
      let sol = (push_safe s.sol m p (pos 0) true true).1 in
      let ul = last_point s.ul (last sol.mods) in
      record {
        solver = block_dominated_region sat s.solver roots ul;
        assumptions = assume_lits roots ul;
        sol = sol;
        ul = ul;
      }

  -- What follows the inner loop, up to the next call of the solver.
  unfoldable pub optimum : State sat → State sat
  unfolding block_dominated_region
  optimum s = record s { assumptions = []; solver = block_dominated_region sat s.solver roots s.ul }

  -- One round of the loop of `PBtoCNF::shareSolutions` over what was received.
  unfoldable pub receive : State sat → Model → YPoint → State sat
  unfolding block_dominated_region push_safe
  receive s m p = record s {
    solver = block_dominated_region sat s.solver roots p;
    sol = (push_safe s.sol m p (pos 0) true true).1;
  }

-- The call before the loops, or one of the inner loop; the end with its result; a stop.
pub data Phase : Type 0 where
  outer : Phase
  inner : Phase
  done : Bool → Phase
  stopped : Phase

-- The result: whether there is a solution.
unfoldable pub verdict : List Entry → Bool
verdict es = if length es == 0 then false else true

-- Whether the search waits for an answer of the solver.
abbrev pub Waits : Phase → Type 0
Waits outer = Unit
Waits inner = Unit
Waits (done b) = ⊥
Waits stopped = ⊥

module _ (sat : Sat) (roots : List RootLits) (objs : List Objective) (s0 : sat.Solver) where
  -- The point of an assignment that the solver `s` gives.
  abbrev pub HasPoint : sat.Solver → Assignment → YPoint → Type 0
  HasPoint s σ p = eval_model objs (model_of (sat.n_vars s) σ) ≡ some p

  -- A point of the problem: the solver before the search has an assignment with it.
  abbrev pub Feasible : YPoint → Type 0
  Feasible p = (σ : Assignment) × (sat.holds s0 σ ≡ true) × HasPoint s0 σ p

  abbrev pub Unsatisfiable : State sat → Type 0
  Unsatisfiable s =
      (σ : Assignment)
      → sat.holds s.solver σ ≡ true
      → ¬ All (λ l. lit_true σ l ≡ true) s.assumptions

  -- What an answer of the solver leads to: it gives an assignment that satisfies its clauses and the
  -- assumptions, or says that there is none.
  pub data Step : Phase → State sat → Phase → State sat → Type 0 where
    model :
        (ph : Phase) (s : State sat) (σ : Assignment) (p : YPoint)
        → Waits ph
        → sat.holds s.solver σ ≡ true
        → All (λ l. lit_true σ l ≡ true) s.assumptions
        → HasPoint s.solver σ p
        → Step ph s inner (found sat roots s (model_of (sat.n_vars s.solver) σ) p)
    no_better : (s : State sat) → Unsatisfiable s → Step inner s outer (optimum sat roots s)
    no_more : (s : State sat) → Unsatisfiable s → Step outer s (done (verdict s.sol.mods)) s

  -- What happens in between: a call that runs out of its budget is repeated and changes nothing, a
  -- solution of another thread is received, or another thread stops the search.
  pub data Event : Phase → State sat → Phase → State sat → Type 0 where
    answer : {ph ph' : Phase} {s t : State sat} → Step ph s ph' t → Event ph s ph' t
    received :
        (ph : Phase) (s : State sat) (m : Model) (p : YPoint)
        → Waits ph
        → Feasible p
        → Event ph s ph (receive sat roots s m p)
    halt : (ph : Phase) (s : State sat) → Waits ph → Event ph s stopped s

  -- The start of the function, before which nothing is found.
  unfoldable pub start : State sat
  unfolding new_solution zeros
  start = record { solver = s0; assumptions = []; sol = new_solution; ul = zeros objs }

  pub data Reach : Phase → State sat → Type 0 where
    here : Reach outer start
    next : {ph ph' : Phase} {s t : State sat} → Reach ph s → Event ph s ph' t → Reach ph' t
