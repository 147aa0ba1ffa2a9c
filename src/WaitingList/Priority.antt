-- ===== src/WaitingList/Priority.antt =====
-- `YPoint_priority`: a point with the number of attempts spent on it, and its order.
use dmeic.Prelude.{ℕ, ◌≡◌, Bool, true, false, arith, ltb, if◌then◌else◌}
use dmeic.Point.{YPoint}
use dmeic.Point.Volume.{hv_shift, signed_less}

pub record Entry : Type 0 where
  pub point : YPoint
  pub count : ℕ

-- The parameters of the template, and `pareto::min` and `pareto::max`.
pub record Order : Type 0 where
  pub lower : Bool
  pub ascend : Bool
  pub least : YPoint
  pub greatest : YPoint

unfoldable pub score : Order → YPoint → ℕ
score o p = if o.lower then hv_shift o.least p else hv_shift p o.greatest

-- `operator<`; `priority_queue` and `max_element` take the greatest entry first.
unfoldable pub less : Order → Entry → Entry → Bool
less o a b =
    if ltb a.count b.count
    then false
    else if ltb b.count a.count
    then true
    else if o.ascend
    then signed_less (score o b.point) (score o a.point)
    else signed_less (score o a.point) (score o b.point)

pub less_irrefl : (o : Order) (a : Entry) → less o a a ≡ false
unfolding less signed_less
less_irrefl o a = ground arith

pub less_trans :
    (o : Order) (a b c : Entry) → less o a b ≡ true → less o b c ≡ true → less o a c ≡ true
unfolding less signed_less
less_trans o a b c h k = ground arith

-- Not being less is transitive too, so that `operator<` is a strict weak order.
pub not_less_trans :
    (o : Order) (a b c : Entry) → less o a b ≡ false → less o b c ≡ false → less o a c ≡ false
unfolding less signed_less
not_less_trans o a b c h k = ground arith

-- `operator<` is a strict weak order, which the heap and `max_element` ask for.
pub less_strict_weak :
    (o : Order)
    → ((a : Entry) → less o a a ≡ false)
      × ((a b c : Entry) → less o a b ≡ true → less o b c ≡ true → less o a c ≡ true)
      × ((a b c : Entry) → less o a b ≡ false → less o b c ≡ false → less o a c ≡ false)
less_strict_weak o = (less_irrefl o, less_trans o, not_less_trans o)
