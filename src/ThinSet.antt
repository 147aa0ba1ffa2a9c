-- ===== src/ThinSet.antt =====
-- `pareto::ThinSet` and `pareto::ThinGapSet` (Pareto.h): sets of points in which no element
-- dominates another. `key` is the point of an element: the element itself for a `ThinSet`, the
-- second component for a `ThinGapSet`. A `polarity` of true turns dominance round.
pub mod Scan
pub mod Frontier
pub mod History
use dmeic.Prelude.{Bool, true, false, ◌&&◌, ◌||◌, not, ◌≡◌, List, [], ◌∷◌, if◌then◌else◌, arith}
use dmeic.Point.{YPoint, dominates, less}
use dmeic.Point.Order.{less_irrefl, less_connex, less_trans}
use dmeic.StdSet.{Ordered, point_ordered}
use dmeic.StdSet

-- `ThinSet::dominates`
unfoldable pub dominates_by : Bool → YPoint → YPoint → Bool
dominates_by polarity a b = if polarity then dominates b a else dominates a b

module _ {E : Type 0} (polarity : Bool) (key : E → YPoint) where
  -- The loop of `safe_insert`: what it leaves in the set, and whether it came to the end.
  unfoldable pub scan : E → List E → List E × Bool
  scan x [] = ([], true)
  scan x (y ∷ s) =
      let (rest, ended) = scan x s in
      if dominates_by polarity (key y) (key x)
      then (y ∷ s, false)
      else if dominates_by polarity (key x) (key y)
      then (rest, ended)
      else (y ∷ rest, ended)

module _ {E : Type 0} ⦃o : Ordered E⦄ (polarity : Bool) (key : E → YPoint) where
  unfoldable pub safe_insert : E → List E → List E × Bool
  unfolding scan
  safe_insert x s =
      let (rest, ended) = scan polarity key x s in
      if ended then StdSet.insert x rest else (rest, false)

  -- The set after the calls `safe_insert(x)` for each `x` of a list, in its order.
  pub inserts : List E → List E → List E
  inserts [] s = s
  inserts (x ∷ xs) s = inserts xs (safe_insert x s).0

-- `ThinSet<YPoint, polarity>`
unfoldable pub thin_insert : Bool → YPoint → List YPoint → List YPoint × Bool
thin_insert polarity = safe_insert polarity (λ p. p)

-- `std::pair<YPoint, YPoint>` and its `operator<`
abbrev pub Gap : Type 0
Gap = YPoint × YPoint

unfoldable pub gap_less : Gap → Gap → Bool
gap_less a b = if less a.0 b.0 then true else if less b.0 a.0 then false else less a.1 b.1

pub gap_irrefl : (a : Gap) → gap_less a a ≡ false
unfolding gap_less
gap_irrefl (p, q) = rw (less_irrefl p) (less_irrefl q)

pub gap_connex : (a b : Gap) → gap_less a b ≡ false → gap_less b a ≡ false → a ≡ b
unfolding gap_less
gap_connex (p, q) (r, s) h k = ground (arith, less_connex p r, less_connex q s)

pub gap_trans : (a b c : Gap) → gap_less a b ≡ true → gap_less b c ≡ true → gap_less a c ≡ true
unfolding gap_less
gap_trans (p, q) (r, s) (t, u) h k = ground (
  arith,
  less_trans p r t,
  less_trans q s u,
  less_connex p r,
  less_connex r t,
  less_connex p t,
  less_irrefl p,
  less_trans r p t,
  less_trans t p r,
  less_trans t r p,
)

instance abbrev pub gap_ordered : Ordered Gap
gap_ordered = record {
  before = gap_less;
  irrefl = gap_irrefl;
  connex = gap_connex;
  trans = gap_trans;
}

-- `ThinGapSet<YPoint, polarity>::safe_insert`, which compares the second points only.
unfoldable pub gap_insert : Bool → Gap → List Gap → List Gap × Bool
gap_insert polarity = safe_insert polarity (λ g. g.1)
