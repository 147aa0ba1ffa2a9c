-- ===== src/Tests/Models.antt =====
-- Concrete runs of the functions on models, of the assumed regions and of the budget.
use dmeic.Prelude.{◌≤◌, ◌≡◌, ◌↔◌, inl, inr, refl, true, false, List, [], ◌∷◌, arith, All, ◌==◌}
use dmeic.Prelude.Int.{pos, ◌+ℤ◌, ◌-ℤ◌}
use dmeic.Point.{dominates}
use dmeic.Encoding.Solver.{Assignment, neg, mk_lit, lit_true, clause_true}
use dmeic.Formula.Objective.{l_true, l_false, l_undef}
use dmeic.Search.RootLits.{RootLits, sentinel, assume_lits}
use dmeic.Search.RootLits.Assumed.{assume_lits-dominates}
use dmeic.Search.Models.{
  blocking_clause, model_clause, Agrees, clause_plus, block_model-model_clause,
}
use dmeic.Search.Budget.{Budget, Outcome, unsat, answers, left_over, room, answers-unsat}
use dmeic.Tests.Encodings.{x0, x1}
use dmeic.Tests.Searches.{one_true}

block_model-model_clause_example :
    let m = l_true ∷ l_undef ∷ l_false ∷ [] in
    ((clause_true one_true (blocking_clause 0 m) ≡ false)
      ↔ All (λ l. lit_true one_true l ≡ true) (model_clause 0 m))
    × (All (λ l. lit_true one_true l ≡ true) (model_clause 0 m) ↔ Agrees one_true 0 m)
block_model-model_clause_example =
    block_model-model_clause one_true (l_true ∷ l_undef ∷ l_false ∷ [])

-- With no variable counted for a value that is true, the literal is on the wrong variable.
clause_plus_run : clause_plus 0 (l_true ∷ l_false ∷ []) ≡ mk_lit 0 true ∷ []
unfolding clause_plus
clause_plus_run = refl

abbrev one_at_first : Assignment
one_at_first v = v == 0

abbrev ladder : List RootLits
ladder = (sentinel ∷ record { key = 1; lit = neg x0 } ∷ record { key = 2; lit = neg x1 } ∷ []) ∷ []

assume_lits-dominates_example :
    All (λ l. lit_true one_at_first l ≡ true) (assume_lits ladder (1 ∷ []))
    ↔ (dominates (1 ∷ []) (1 ∷ []) ≡ true)
assume_lits-dominates_example =
    assume_lits-dominates one_at_first (1 ∷ []) (1 ∷ []) ladder ((refl, (refl, tt)), tt)
      (((omega arith, tt), (tt, tt)), tt) ((omega arith, inr (inl refl)), tt)

abbrev little : Budget
little = record {
  conflict_limit = pos 1;
  old_conflict_limit = pos 1;
  n_conflicts = pos 1;
  conflicts = 7;
  nb_sat_calls = 0;
  nb_satisfiable = 0;
}

abbrev for_free : Outcome
for_free = record { answer = unsat; spent = 0 }

both_unsat : All (λ a. a ≡ unsat) (answers little (for_free ∷ for_free ∷ []))
unfolding answers left_over ◌+ℤ◌ ◌-ℤ◌
both_unsat = (refl, (refl, tt))

answers-unsat_example : 2 ≤ room (pos 1)
answers-unsat_example = answers-unsat little (for_free ∷ for_free ∷ []) refl both_unsat
