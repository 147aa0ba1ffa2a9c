-- ===== src/WaitingList/Best.antt =====
-- `List`: a vector of entries that is popped at its end.
pub mod Greatest
use dmeic.Prelude.{
  ℕ, zero, suc, ◌+◌, ◌≤◌, ◌<◌, ◌≡◌, refl, sym, ◌⊎◌, inl, inr, Bool, true, false, not, ◌&&◌, ◌||◌,
  List, [], ◌∷◌, ◌++◌, Option, none, some, arith, if◌then◌else◌, length, get_or, set, In, All,
  All-In, All-of_In, Any, Any_of_In, max, Bool-cases, erase_if,
}
use dmeic.Point.{YPoint}
use dmeic.StdSet
use dmeic.StdSet.{point_ordered}
use dmeic.WaitingList.Priority.{Entry, Order, less, less_irrefl, less_trans, not_less_trans}

-- The head of `list` is the back of the vector.
pub record Best : Type 0 where
  pub list : List Entry
  pub set : List YPoint
  pub max_size : ℕ
  pub popped : YPoint
  pub popped_count : ℕ

module _ (o : Order) where
  -- The place of `std::max_element`, the first greatest from the front of the vector, counted from
  -- the back; `e` stands at the back.
  unfoldable pub max_element : Entry → List Entry → ℕ × Entry
  max_element e [] = (0, e)
  max_element e (f ∷ l) = let (i, m) = max_element f l in if less o m e then (0, e) else (suc i, m)

  -- `std::iter_swap` of the greatest element with the last one.
  unfoldable pub promote : List Entry → List Entry
  unfolding max_element
  promote [] = []
  promote (e ∷ l) = let (i, m) = max_element e l in set (m ∷ l) i e

  -- `none` is the exception of an empty list.
  unfoldable pub pop : Best → Option (YPoint × Best)
  unfolding promote
  pop b = elim b.list [
    | [] ↦ none
    | e ∷ rest ↦
        some (e.point, record b { list = promote rest; popped = e.point; popped_count = e.count })
  ]

  -- The new entry goes to the back, unless it is less than the one that stood there.
  unfoldable pub place : Entry → List Entry → List Entry
  place e [] = e ∷ []
  place e (f ∷ l) = if less o e f then f ∷ e ∷ l else e ∷ f ∷ l

  abbrev is_single : List Entry → Bool
  is_single (e ∷ []) = true
  is_single l = false

  -- The first insertion returns before `max_size` is raised.
  unfoldable pub insert : Best → YPoint → Bool → ℕ → Best
  unfolding place
  insert b p force note =
      let (set', fresh) = StdSet.insert p b.set in
      let e : Entry = record { point = p; count = note } in
      let list' = place e b.list in
      let size = if is_single list' then b.max_size else max b.max_size (length list') in
      if fresh || force
      then record b { list = list'; set = set'; max_size = size }
      else record b { set = set' }

  unfoldable pub unpop : Best → ℕ → Best
  unfolding insert
  unpop b note = insert b b.popped true (note + b.popped_count)
