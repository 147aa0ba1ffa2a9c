-- ===== src/Search/Solution.antt =====
-- The class `Solution` of MOCO.h, MOCO.cc and MaxSAT.cc. A solution's point, which the code computes
-- when it is first read, stands with the model; the objective functions do not change in between.
pub mod Front
pub mod Size
use dmeic.Prelude.{
  ℕ, suc, ◌+◌, ◌-◌, Bool, true, false, not, ◌&&◌, List, [], ◌∷◌, ◌++◌, Option, none, some, length,
  if◌then◌else◌, erase_if, any_of,
}
use dmeic.Prelude.Int.{ℤ, pos}
use dmeic.Point.{YPoint, dominates, equal}
use dmeic.Formula.Objective.{Objective, Model, evaluate, scale, sum_terms}

-- An element of the map `mods`: its key, `OneSolution` and the notes.
pub record Entry : Type 0 where
  pub id : ℕ
  pub model : Model
  pub point : YPoint
  pub notes : ℤ

-- `id` is `next_id`; the elements are in the order of their keys.
pub record Solution : Type 0 where
  pub next_id : ℕ
  pub barred : ℕ
  pub dropped : ℕ
  pub mods : List Entry

unfoldable pub new_solution : Solution
new_solution = record { next_id = 0; barred = 0; dropped = 0; mods = [] }

-- One entry of the point and the others.
unfoldable pub put_first : Objective → Option ℕ → Option YPoint → Option YPoint
unfolding scale
put_first o none p = none
put_first o (some v) none = none
put_first o (some v) (some p) = some (scale o v ∷ p)

-- The loop of `MOCO::evalModel`; `none` is the failed assertion of `evaluate`.
unfoldable pub eval_objectives : List Objective → Model → Option YPoint
unfolding sum_terms put_first
eval_objectives [] m = some []
eval_objectives (o ∷ os) m = put_first o (sum_terms m 0 o.terms) (eval_objectives os m)

unfoldable pub zeros : List Objective → YPoint
zeros [] = []
zeros (o ∷ os) = 0 ∷ zeros os

-- `MOCO::evalModel`
unfoldable pub eval_model : List Objective → Model → Option YPoint
unfolding eval_objectives zeros
eval_model os [] = some (zeros os)
eval_model os (b ∷ m) = eval_objectives os (b ∷ m)

unfoldable pub push : Solution → Model → YPoint → ℤ → Solution
push s m p notes = record s {
  next_id = suc s.next_id;
  mods = s.mods ++ record { id = s.next_id; model = m; point = p; notes = notes } ∷ [];
}

-- `mods.erase(--mods.end())`
unfoldable pub drop_last : List Entry → List Entry
drop_last [] = []
drop_last (e ∷ []) = []
drop_last (e ∷ f ∷ es) = e ∷ drop_last (f ∷ es)

-- `pop()`, which is undefined on an empty solution.
unfoldable pub pop : Solution → Option Solution
unfolding drop_last
pop s = elim s.mods [ [] ↦ none | e ∷ es ↦ some (record s { mods = drop_last (e ∷ es) }) ]

-- `element(-1)`
unfoldable pub last : List Entry → Option Entry
last [] = none
last (e ∷ []) = some e
last (e ∷ f ∷ es) = last (f ∷ es)

unfoldable pub clear : Solution → Solution
clear s = record s { next_id = 0; mods = [] }

-- The test by which `pushSafe` removes an element.
unfoldable pub is_beaten : YPoint → Entry → Bool
is_beaten p e = not (equal p e.point) && dominates p e.point

-- The loop of `pushSafe` over the elements.
unfoldable pub drop_beaten : YPoint → Solution → Solution
unfolding is_beaten
drop_beaten p s =
    let kept = erase_if (is_beaten p) s.mods in
    record s { mods = kept; dropped = s.dropped + (length s.mods - length kept) }

-- `pareto::dominates(Solution &, OneSolution &)`
unfoldable pub beats : List Entry → YPoint → Bool
beats es p = any_of (λ e. dominates e.point p) es

unfoldable pub insert_new : Bool → Solution → Model → YPoint → ℤ → Bool × Solution
unfolding beats push
insert_new check_new s m p notes =
    if not check_new
    then (true, push s m p notes)
    else if beats s.mods p
    then (false, record s { barred = suc s.barred })
    else (true, push s m p notes)

-- `pushSafe(m, notes, check_new, check_old)`
unfoldable pub push_safe : Solution → Model → YPoint → ℤ → Bool → Bool → Bool × Solution
unfolding drop_beaten insert_new
push_safe s m p notes check_new check_old =
    insert_new check_new (if check_old then drop_beaten p s else s) m p notes
