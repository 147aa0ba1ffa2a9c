-- ===== src/Archive.antt =====
-- The results that a `MOCO` object keeps (MOCO.cc): `nondom` with `effsols`, written by
-- `saveEfficientSol`, and `LBset`, written by `updateLowerBoundSet` and `clearLowerBoundSet`. `d` is
-- the number of objectives. The code erases and appends in `nondom` and `effsols` together, so the
-- model holds one list of the two; statistics and output are left out.
pub mod Points
pub mod Positions
pub mod Bounds
use dmeic.Prelude.{
  ℕ, zero, suc, ◌+◌, Bool, true, false, not, ◌&&◌, ◌||◌, List, [], ◌∷◌, ◌++◌, if◌then◌else◌, ◌==◌,
  leb, length, take, erase_if,
}
use dmeic.Point.{YPoint, wdominates}

-- An element of `nondom` with the element of `effsols` at the same place: the values of the
-- variables, and the position that is noted with them.
pub record Saved : Type 0 where
  pub point : YPoint
  pub model : List Bool
  pub position : ℕ

-- The loop under `filter`: what it leaves, and `isdom`.
unfoldable pub filter_saved : ℕ → YPoint → List Saved → List Saved × Bool
filter_saved d p [] = ([], false)
filter_saved d p (s ∷ ss) =
    let (rest, isdom) = filter_saved d p ss in
    if wdominates s.point p d
    then (s ∷ ss, true)
    else if wdominates p s.point d
    then (rest, isdom)
    else (s ∷ rest, isdom)

unfoldable pub save_efficient_sol : ℕ → ℕ → List Saved → List Bool → YPoint → Bool → List Saved
unfolding filter_saved
save_efficient_sol d n_vars nondom current_model p filter =
    let (kept, isdom) = if filter then filter_saved d p nondom else (nondom, false) in
    let new : Saved = record {
      point = take d p;
      model = take n_vars current_model;
      position = length kept;
    } in
    if isdom then kept else kept ++ new ∷ []

-- An element of `LBset`: a point, and in its last place the iteration that added it.
pub record LowerBound : Type 0 where
  pub point : YPoint
  pub iteration : ℕ

unfoldable pub bounds_above : ℕ → YPoint → ℕ → LowerBound → Bool
bounds_above d p ireencode b = b.iteration == ireencode && wdominates b.point p d

-- The loop under `filter`: what it leaves, and `isdom`. It does not stop at the first hit.
pub filter_bounds : ℕ → YPoint → ℕ → List LowerBound → List LowerBound × Bool
unfolding bounds_above
filter_bounds d p ireencode [] = ([], false)
filter_bounds d p ireencode (b ∷ bs) =
    let (rest, isdom) = filter_bounds d p ireencode bs in
    if bounds_above d p ireencode b
    then (b ∷ rest, true)
    else if leb (b.iteration + 2) ireencode || b.iteration == ireencode && wdominates p b.point d
    then (rest, isdom)
    else (b ∷ rest, isdom)

unfoldable pub update_lower_bound_set :
    ℕ → List LowerBound → YPoint → Bool → ℕ → List LowerBound × Bool
unfolding filter_bounds
update_lower_bound_set d lb_set p filter ireencode =
    let (kept, isdom) = if filter then filter_bounds d p ireencode lb_set else (lb_set, false) in
    let new : LowerBound = record { point = take d p; iteration = ireencode } in
    (if isdom then kept else kept ++ new ∷ [], not isdom)

unfoldable pub clear_lower_bound_set : List LowerBound → ℕ → List LowerBound
clear_lower_bound_set lb_set zero = []
clear_lower_bound_set lb_set (suc excepti) = erase_if (λ b. not (b.iteration == suc excepti)) lb_set
