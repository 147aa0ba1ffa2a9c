-- ===== src/Point.antt =====
-- Points of the objective space (`YPoint` of MOCO.h) and the functions on them of Pareto.cc and
-- MOCO.cc. A `uint64_t` is a number below `2 ^ 64`; products and differences wrap.
pub mod Order
pub mod Weight
pub mod Volume
pub mod Dominator
use dmeic.Prelude.{
  ℕ, zero, suc, ◌+◌, ◌-◌, ◌*◌, ◌%◌, ◌^◌, Bool, true, false, List, [], ◌∷◌, Option, none, some, ltb,
  ◌==◌, if◌then◌else◌, length, ◌&&◌,
}

-- `using YPoint = std::vector<uint64_t>`
abbrev pub YPoint : Type 0
YPoint = List ℕ

-- The loop of `pareto::dominates`. The code reads `ypb[i]` with no test; a shorter `ypb` is ruled
-- out by its assertion.
unfoldable pub dominates : YPoint → YPoint → Bool
dominates [] ypb = true
dominates (a ∷ ypa) [] = false
dominates (a ∷ ypa) (b ∷ ypb) = if ltb b a then false else dominates ypa ypb

-- `pareto::dominates` with its assertion: `none` is an abort.
unfoldable pub dominates_assert : YPoint → YPoint → Option Bool
unfolding dominates
dominates_assert ypa ypb =
    if ltb 0 (length ypa) && length ypa == length ypb then some (dominates ypa ypb) else none

-- `wdominates(a, b, d)` on arrays of `d` numbers, in MOCO.cc.
unfoldable pub wdominates : List ℕ → List ℕ → ℕ → Bool
wdominates a b zero = true
wdominates (x ∷ a) (y ∷ b) (suc d) = if ltb y x then false else wdominates a b d
wdominates [] b (suc d) = false
wdominates a [] (suc d) = false

-- `==` of two vectors
unfoldable pub equal : YPoint → YPoint → Bool
equal [] [] = true
equal (a ∷ p) (b ∷ q) = a == b && equal p q
equal p q = false

-- `operator<` of two vectors, by which `std::set<YPoint>` orders its elements
unfoldable pub less : YPoint → YPoint → Bool
less p [] = false
less [] (b ∷ q) = true
less (a ∷ p) (b ∷ q) = if ltb a b then true else if ltb b a then false else less p q
