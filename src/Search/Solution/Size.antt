-- ===== src/Search/Solution/Size.antt =====
-- How many values `MOCO::evalModel` (MOCO.cc) gives.
use dmeic.Prelude.{
  ℕ, suc, ◌≡◌, refl, sym, ap, ◌∙◌, List, [], ◌∷◌, Option, some, none, some_injective, length,
}
use dmeic.Point.{YPoint}
use dmeic.Formula.Objective.{Objective, Model, sum_terms}
use dmeic.Search.Solution.{put_first, eval_objectives, eval_model, zeros}

put_first-length :
    (o : Objective) (v : Option ℕ) (r : Option YPoint) (p : YPoint)
    → put_first o v r ≡ some p
    → (q : YPoint) × (r ≡ some q) × (length p ≡ suc (length q))
unfolding put_first
put_first-length o none r p h = cc
put_first-length o (some v) none p h = cc
put_first-length o (some v) (some q) p h = (q, refl, ap length (sym (some_injective h)))

eval_objectives-length :
    (os : List Objective) (m : Model) (p : YPoint)
    → eval_objectives os m ≡ some p
    → length p ≡ length os
unfolding eval_objectives
eval_objectives-length [] m p h = ap length (sym (some_injective h))
eval_objectives-length (o ∷ os) m p h =
    let (q, e, l) = put_first-length o (sum_terms m 0 o.terms) (eval_objectives os m) p h in
    l ∙ ap suc (eval_objectives-length os m q e)

zeros-length : (os : List Objective) → length (zeros os) ≡ length os
unfolding zeros
zeros-length [] = refl
zeros-length (o ∷ os) = ap suc (zeros-length os)

-- A point has a value for each function.
pub eval_model-length :
    (os : List Objective) (m : Model) (p : YPoint) → eval_model os m ≡ some p → length p ≡ length os
unfolding eval_model
eval_model-length os [] p h = ap length (sym (some_injective h)) ∙ zeros-length os
eval_model-length os (b ∷ m) p h = eval_objectives-length os (b ∷ m) p h
