-- ===== src/WaitingList/PriorityQueue/Refines.antt =====
-- The operations of `List` beside those of `PriorityQueue`.
use mathlib.Core.List.{Perm}
use mathlib.Core.List.Perm
use dmeic.Prelude.{ℕ, ◌≡◌, refl, sym, subst, inl, inr, Bool, ◌||◌, List, ◌∷◌, some, All, Bool-cases}
use dmeic.Point.{YPoint}
use dmeic.StdSet
use dmeic.StdSet.{point_ordered}
use dmeic.WaitingList.Priority.{Entry, Order}
use dmeic.WaitingList.Best
use dmeic.WaitingList.Best.{Best}
use dmeic.WaitingList.Best.Greatest.{IsBest, NotLess, promote-IsBest, place-IsBest, place-perm}
use dmeic.WaitingList.PriorityQueue
use dmeic.WaitingList.PriorityQueue.{PriorityQueue, Pop, top, popped_at}

-- The list holds the entries of the queue with a greatest one last, and both have seen the same.
pub record Matches (o : Order) (b : Best) (q : PriorityQueue) : Type 0 where
  pub best : IsBest o b.list
  pub entries : Perm b.list q.queue
  pub seen : b.set ≡ q.set
  pub last : b.popped ≡ q.popped
  pub last_count : b.popped_count ≡ q.popped_count

-- Where a list matches a priority queue and is not empty, `pop` of the list gives a point that `pop`
-- of the queue may give, and what they leave matches.
pub pop-Matches :
    (o : Order) (b : Best) (q : PriorityQueue) (e : Entry) (rest : List Entry)
    → b.list ≡ e ∷ rest
    → Matches o b q
    → (b' : Best) × (q' : PriorityQueue) × (Best.pop o b ≡ some (e.point, b'))
      × Pop o q e.point q'
      × Matches o b' q'
unfolding Best.pop
pop-Matches o b q e rest shape m =
    let best : All (NotLess o e) rest = subst (IsBest o) shape m.best in
    let order = promote-IsBest o rest in
    (
      record b { list = Best.promote o rest; popped = e.point; popped_count = e.count },
      popped_at q e rest,
      rw shape,
      top q e rest (subst (Perm q.queue) shape (Perm.symm m.entries)) best,
      record { best = order.0; entries = order.1; seen = m.seen; last = refl; last_count = refl },
    )

-- Where a list matches a priority queue, so it does after an `insert` of the same point into both.
pub insert-Matches :
    (o : Order) (b : Best) (q : PriorityQueue) (p : YPoint) (force : Bool) (note : ℕ)
    → Matches o b q
    → Matches o (Best.insert o b p force note) (PriorityQueue.insert q p force note)
unfolding Best.insert PriorityQueue.insert
insert-Matches o b q p force note m =
    let e : Entry = record { point = p; count = note } in
    elim (Bool-cases ((StdSet.insert p b.set).1 || force)) [
      | inl k ↦
          rw (sym m.seen, k)
            (record {
              best = place-IsBest o e b.list m.best;
              entries = Perm.trans (place-perm o e b.list) (Perm.cons e m.entries);
              seen = refl;
              last = m.last;
              last_count = m.last_count;
            })
      | inr k ↦
          rw (sym m.seen, k)
            (record {
              best = m.best;
              entries = m.entries;
              seen = refl;
              last = m.last;
              last_count = m.last_count;
            })
    ]
