-- ===== src/WaitingList/PriorityQueue.antt =====
-- `PriorityQueue`: a `std::priority_queue` of entries. Which of several greatest entries `top` gives
-- is up to the library, so `pop` is a relation, and `queue` holds the entries in any order.
pub mod Refines
use mathlib.Core.List.{Perm}
use dmeic.Prelude.{
  ℕ, ◌+◌, ◌≡◌, Bool, true, false, ◌||◌, List, [], ◌∷◌, if◌then◌else◌, length, max, All,
}
use dmeic.Point.{YPoint}
use dmeic.StdSet
use dmeic.StdSet.{point_ordered}
use dmeic.WaitingList.Priority.{Entry, Order, less}

pub record PriorityQueue : Type 0 where
  pub queue : List Entry
  pub set : List YPoint
  pub max_size : ℕ
  pub popped : YPoint
  pub popped_count : ℕ

-- What `pop` does when `top` is `e` and `rest` holds the other entries.
abbrev pub popped_at : PriorityQueue → Entry → List Entry → PriorityQueue
popped_at q e rest = record q { queue = rest; popped = e.point; popped_count = e.count }

-- A call of `pop` that gives a point: `top` is an entry that no other entry exceeds.
pub data Pop (o : Order) : PriorityQueue → YPoint → PriorityQueue → Type 0 where
  top :
      (q : PriorityQueue) (e : Entry) (rest : List Entry)
      → Perm q.queue (e ∷ rest)
      → All (λ f. less o e f ≡ false) rest
      → Pop o q e.point (popped_at q e rest)

unfoldable pub insert : PriorityQueue → YPoint → Bool → ℕ → PriorityQueue
insert q p force note =
    let (set', fresh) = StdSet.insert p q.set in
    let e : Entry = record { point = p; count = note } in
    let queue' = e ∷ q.queue in
    if fresh || force
    then record q { queue = queue'; set = set'; max_size = max q.max_size (length queue') }
    else record q { set = set' }

unfoldable pub unpop : PriorityQueue → ℕ → PriorityQueue
unfolding insert
unpop q note = insert q q.popped true (note + q.popped_count)

unfoldable pub reset : PriorityQueue → PriorityQueue
reset q = record q { queue = [] }
