-- ===== src/StdSet.antt =====
-- `std::set` of the C++ library as the program uses it: the elements in ascending order of `less`.
pub mod Laws
pub mod Numbers
use dmeic.Prelude.{Bool, true, false, ◌≡◌, List, [], ◌∷◌, if◌then◌else◌}
use dmeic.Point.{YPoint, less}
use dmeic.Point.Order.{less_irrefl, less_connex, less_trans}

-- What `std::less` has to satisfy.
pub record Ordered (E : Type 0) : Type 0 where
  pub before : E → E → Bool
  pub irrefl : (a : E) → before a a ≡ false
  pub connex : (a b : E) → before a b ≡ false → before b a ≡ false → a ≡ b
  pub trans : (a b c : E) → before a b ≡ true → before b c ≡ true → before a c ≡ true

instance abbrev pub point_ordered : Ordered YPoint
point_ordered = record {
  before = less;
  irrefl = less_irrefl;
  connex = less_connex;
  trans = less_trans;
}

module _ {E : Type 0} ⦃o : Ordered E⦄ where
  -- `set.insert(x)`: the set, and whether `x` is new.
  unfoldable pub insert : E → List E → List E × Bool
  insert x [] = (x ∷ [], true)
  insert x (y ∷ s) =
      let (rest, fresh) = insert x s in
      if o.before x y
      then (x ∷ y ∷ s, true)
      else if o.before y x
      then (y ∷ rest, fresh)
      else (y ∷ s, false)
