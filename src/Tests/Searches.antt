-- ===== src/Tests/Searches.antt =====
-- A run of the search for two opposed functions of one variable, over a solver that keeps its clauses
-- in a list.
use dmeic.Prelude.{
  ◌≤◌, ◌≡◌, ◌⊎◌, ◌↔◌, inl, inr, refl, sym, ap, subst, ◌∙◌, Bool, true, false, not, ◌&&◌, ◌||◌, List,
  [], ◌∷◌, some_injective, arith, All, In, if◌then◌else◌, Bool-cases, All-mono, ltb→lt,
}
use dmeic.Prelude.Int.{pos}
use dmeic.Point.{YPoint, dominates, equal}
use dmeic.Encoding.Solver.{Assignment, neg}
use dmeic.Formula.Objective.{Objective, sum_terms, satisfied, scale}
use dmeic.Search.Solution.{eval_model, eval_objectives, push_safe, Entry, Solution, new_solution}
use dmeic.Search.Solution.Front.{push_safe-IsFront, IsFront, Covers}
use dmeic.Search.RootLits.{
  RootLits, sentinel, block_lits, block_dominated_region, assume_lits, count_keys, lit_at, body,
  eval_to_index, index_loop, all_sums,
}
use dmeic.Search.RootLits.Sums.{Sums, all_sums-Sums}
use dmeic.Search.RootLits.Regions.{Each, IsSound, IsExact, SeparatesAll}
use dmeic.Search.PMinimal.{
  State, Step, outer, inner, done, Feasible, HasPoint, Unsatisfiable, Reach, here, next, answer,
  model, no_better, no_more, start, found, optimum, model_of, values_from, verdict,
}
use dmeic.Search.PMinimal.Known.{IsEncoded}
use dmeic.Search.PMinimal.Result.{search-verdict, search-front, model-inserted, IsEfficient}
use dmeic.Search.PMinimal.Progress.{search-Answers, Answers, none_yet, one_more}
use dmeic.Search.PMinimal.Finish.{search-ends, Ends}
use dmeic.Tests.Deciding.{solve}
use dmeic.Tests.Encodings.{list_sat, ListSolver, x0}

abbrev first_function : Objective
first_function = record {
  terms = record { coeff = 1; lit = x0 } ∷ [];
  shift_by = pos 0;
  factor = 1;
  min_coeff = 1;
  max_coeff = 1;
  ub = 1;
  lb = 0;
  is_sparse = false;
}

abbrev both : List Objective
both =
    first_function ∷ record first_function { terms = record { coeff = 1; lit = neg x0 } ∷ [] } ∷ []

abbrev roots : List RootLits
roots =
    (sentinel ∷ record { key = 1; lit = neg x0 } ∷ [])
    ∷ (sentinel ∷ record { key = 1; lit = x0 } ∷ [])
    ∷ []

abbrev free_solver : ListSolver
free_solver = (1, [])

abbrev point : Bool → YPoint
point true = 1 ∷ 0 ∷ []
point false = 0 ∷ 1 ∷ []

has_point : (σ : Assignment) → HasPoint list_sat roots both free_solver free_solver σ (point (σ 0))
unfolding eval_model eval_objectives sum_terms satisfied scale values_from
has_point σ = elim (Bool-cases (σ 0)) [ inl e ↦ rw e refl | inr e ↦ rw e refl ]

point_of :
    (σ : Assignment) (p : YPoint)
    → HasPoint list_sat roots both free_solver free_solver σ p
    → point (σ 0) ≡ p
point_of σ p h = some_injective (sym (has_point σ) ∙ h)

IsExact-at : (σ : Assignment) → Each (IsExact σ) (point (σ 0)) roots
IsExact-at σ = elim (Bool-cases (σ 0)) [
  | inl e ↦ subst (λ b. Each (IsExact σ) (point b) roots) (sym e) ((ap not e, tt), ((e, tt), tt))
  | inr e ↦ subst (λ b. Each (IsExact σ) (point b) roots) (sym e) ((ap not e, tt), ((e, tt), tt))
]

IsSound-of_exact :
    (σ : Assignment) (p : YPoint) (rs : List RootLits)
    → Each (IsExact σ) p rs
    → Each (IsSound σ) p rs
IsSound-of_exact σ [] [] h = tt
IsSound-of_exact σ [] (r ∷ rs) h = h
IsSound-of_exact σ (v ∷ p) [] h = h
IsSound-of_exact σ (v ∷ p) (r ∷ rs) h =
    (All-mono _ _ (body r) (λ x e t. ltb→lt v x.key (sym e ∙ t)) h.0, IsSound-of_exact σ p rs h.1)

separates_points : (a b : Bool) → SeparatesAll roots (point a) (point b)
separates_points true true =
    ((λ h. absurd (omega (arith, h))), ((λ h. absurd (omega (arith, h))), tt))
separates_points true false =
    ((λ h. absurd (omega (arith, h))), ((λ h. inl (omega arith, omega arith)), tt))
separates_points false true =
    ((λ h. inl (omega arith, omega arith)), ((λ h. absurd (omega (arith, h))), tt))
separates_points false false =
    ((λ h. absurd (omega (arith, h))), ((λ h. absurd (omega (arith, h))), tt))

encoded : IsEncoded list_sat roots both free_solver
encoded = record {
  sound = λ σ p h e.
      IsSound-of_exact σ p roots
        (subst (λ q. Each (IsExact σ) q roots) (point_of σ p e) (IsExact-at σ));
  exact = λ p (σ, h, e).
      (σ, h, e, subst (λ q. Each (IsExact σ) q roots) (point_of σ p e) (IsExact-at σ));
  ascending = ((tt, tt), ((tt, tt), tt));
  separates = λ p q (σ, _, e) (τ, _, f).
      subst (λ a. SeparatesAll roots a q) (point_of σ p e)
        (subst (SeparatesAll roots (point (σ 0))) (point_of τ q f) (separates_points (σ 0) (τ 0)));
}

abbrev pub one_true : Assignment
one_true v = true

abbrev all_false : Assignment
all_false v = false

abbrev first_found : State list_sat
first_found =
    found list_sat roots (start list_sat roots both free_solver) (model_of 1 one_true) (point true)

abbrev first_done : State list_sat
first_done = optimum list_sat roots first_found

abbrev second_found : State list_sat
second_found = found list_sat roots first_done (model_of 1 all_false) (point false)

abbrev second_done : State list_sat
second_done = optimum list_sat roots second_found

-- After each model the assumptions ask for both signs of the variable.
both_signs : (b : Bool) → ¬ All (λ l. (if l then not b else b) ≡ true) (true ∷ false ∷ [])
both_signs true h = cc
both_signs false h = cc

no_better_first : Unsatisfiable list_sat roots both free_solver first_found
unfolding start found assume_lits eval_to_index index_loop lit_at
no_better_first σ h a = both_signs (σ 0) a

no_better_second : Unsatisfiable list_sat roots both free_solver second_found
unfolding start found optimum assume_lits eval_to_index index_loop lit_at equal dominates
no_better_second σ h a = both_signs (σ 0) a

-- The clauses ask for both signs as well.
both_clauses :
    (b : Bool)
    → ¬ ((b || false) && ((b || false) && ((not b || false) && ((not b || false) && true))) ≡ true)
both_clauses true h = cc
both_clauses false h = cc

nothing_left : Unsatisfiable list_sat roots both free_solver second_done
unfolding start found optimum block_dominated_region block_lits count_keys lit_at equal dominates
nothing_left σ h a = both_clauses (σ 0) h

first_step :
    Step list_sat roots both free_solver outer
      (start list_sat roots both free_solver)
      inner
      first_found
unfolding start
first_step =
    model outer (start list_sat roots both free_solver) one_true (point true) tt refl tt
      (has_point one_true)

third_step : Step list_sat roots both free_solver outer first_done inner second_found
unfolding start found optimum eval_model
third_step = model outer first_done all_false (point false) tt refl tt (has_point all_false)

last_step : Step list_sat roots both free_solver outer second_done (done true) second_done
unfolding start found optimum verdict eval_model equal dominates
last_step = no_more second_done nothing_left

-- Both points are found, in two rounds.
search_run : Reach list_sat roots both free_solver (done true) second_done
search_run =
    next
      (next
        (next
          (next (next here (answer first_step)) (answer (no_better first_found no_better_first)))
          (answer third_step))
        (answer (no_better second_found no_better_second)))
      (answer last_step)

five-Answers : Answers list_sat roots both free_solver 5 (done true) second_done
five-Answers =
    one_more
      (one_more
        (one_more (one_more (one_more none_yet first_step) (no_better first_found no_better_first))
          third_step)
        (no_better second_found no_better_second))
      last_step

search-front_example :
    ((e : Entry) × In e second_done.sol.mods × (e.point ≡ 0 ∷ 1 ∷ []))
    ↔ IsEfficient list_sat roots both free_solver (0 ∷ 1 ∷ [])
search-front_example =
    search-front list_sat roots both free_solver encoded true second_done search_run (0 ∷ 1 ∷ [])

search-verdict_example : (true ≡ true) ↔ ((p : YPoint) × Feasible list_sat roots both free_solver p)
search-verdict_example =
    search-verdict list_sat roots both free_solver encoded true second_done search_run

model-inserted_example :
    (push_safe new_solution (model_of 1 one_true) (1 ∷ 0 ∷ []) (pos 0) true true).0 ≡ true
unfolding start
model-inserted_example =
    model-inserted list_sat roots both free_solver encoded (start list_sat roots both free_solver)
      one_true (1 ∷ 0 ∷ []) here refl (has_point one_true)

abbrev all_points : List YPoint
all_points = (1 ∷ 0 ∷ []) ∷ (0 ∷ 1 ∷ []) ∷ []

In-all : (b : Bool) → In (point b) all_points
In-all true = inl refl
In-all false = inr (inl refl)

boxed : (p : YPoint) → Feasible list_sat roots both free_solver p → In p all_points
boxed p (σ, _, e) = subst (λ q. In q all_points) (point_of σ p e) (In-all (σ 0))

search-Answers_example : 5 ≤ 5
search-Answers_example =
    search-Answers list_sat roots both free_solver encoded all_points boxed 5 (done true)
      second_done five-Answers

search-ends_example :
    Ends list_sat roots both free_solver outer (start list_sat roots both free_solver)
search-ends_example =
    search-ends list_sat roots both free_solver encoded all_points boxed
      (λ s. solve s.solver.1 s.assumptions) (λ σ h. (point (σ 0), has_point σ)) outer
      (start list_sat roots both free_solver) here tt

abbrev two_found : List Entry
two_found =
    record { id = 0; model = []; point = 3 ∷ 1 ∷ []; notes = pos 0 }
    ∷ record { id = 1; model = []; point = 1 ∷ 4 ∷ []; notes = pos 0 }
    ∷ []

abbrev two_solutions : Solution
two_solutions = record { next_id = 2; barred = 0; dropped = 0; mods = two_found }

push_safe-IsFront_example :
    let r = push_safe two_solutions [] (1 ∷ 3 ∷ []) (pos 0) true true in
    IsFront r.1.mods
    × Covers r.1.mods (1 ∷ 3 ∷ [])
    × ((q : YPoint) → Covers two_found q → Covers r.1.mods q)
    × ((e : Entry)
        → In e r.1.mods
        → In e two_found ⊎ (e ≡ record { id = 2; model = []; point = 1 ∷ 3 ∷ []; notes = pos 0 }))
unfolding dominates
push_safe-IsFront_example = push_safe-IsFront two_solutions [] (1 ∷ 3 ∷ []) (pos 0) front
  where
    front : IsFront two_found
    front = (((refl, refl), tt), (tt, tt))

all_sums-Sums_example : In 5 (all_sums (2 ∷ 3 ∷ []) (0 ∷ [])) ↔ Sums (2 ∷ 3 ∷ []) (0 ∷ []) 5
all_sums-Sums_example = all_sums-Sums (2 ∷ 3 ∷ []) (0 ∷ []) 5 (inl refl)
