-- ===== src/WaitingList/Queue.antt =====
-- `Queue`: first in, first out.
pub mod Report
use dmeic.Prelude.{
  ℕ, ◌≤◌, ◌≡◌, refl, ◌⊎◌, inl, inr, Bool, true, false, ◌||◌, List, [], ◌∷◌, ◌++◌, Option, none,
  some, arith, if◌then◌else◌, length, In, All, All-append, max, Bool-cases, All-mono,
}
use dmeic.Point.{YPoint}
use dmeic.StdSet
use dmeic.StdSet.{point_ordered}
use dmeic.StdSet.Laws.{
  In-insert_self, In-insert_old, insert-old, IsAscending, insert-IsAscending, insert-new,
}

-- The head of `queue` is its front.
pub record Queue : Type 0 where
  pub queue : List YPoint
  pub set : List YPoint
  pub max_size : ℕ
  pub popped : YPoint

unfoldable pub empty : Queue
empty = record { queue = []; set = []; max_size = 0; popped = [] }

-- `none`: `front` of an empty queue is undefined.
unfoldable pub pop : Queue → Option (YPoint × Queue)
pop q = elim q.queue [ [] ↦ none | p ∷ rest ↦ some (p, record q { queue = rest; popped = p }) ]

unfoldable pub insert : Queue → YPoint → Bool → Queue
insert q p force =
    let (set', fresh) = StdSet.insert p q.set in
    let queue' = q.queue ++ p ∷ [] in
    if fresh || force
    then record q { queue = queue'; set = set'; max_size = max q.max_size (length queue') }
    else record q { set = set' }

unfoldable pub unpop : Queue → Queue
unfolding insert
unpop q = insert q q.popped true

-- `try_pop`, which gives no point of an empty queue.
unfoldable pub try_pop : Queue → Option YPoint × Queue
unfolding pop
try_pop q = elim (pop q) [ none ↦ (none, q) | some (p, q') ↦ (some p, q') ]

pub record IsValid (q : Queue) : Type 0 where
  pub seen : All (λ p. In p q.set) q.queue
  pub ascending : IsAscending q.set
  pub bounded : length q.queue ≤ q.max_size

-- On a queue whose points were all seen and whose size is at most `max_size`, `insert` keeps that,
-- and it either adds the point, forced or never seen, or leaves the queue, the point not forced and
-- seen before.
pub insert-IsValid :
    (q : Queue) (p : YPoint) (force : Bool)
    → IsValid q
    → IsValid (insert q p force)
      × (((force ≡ true) ⊎ ¬ In p q.set) × ((insert q p force).queue ≡ q.queue ++ p ∷ [])
          ⊎ ((insert q p force).queue ≡ q.queue) × (force ≡ false) × In p q.set)
unfolding insert
insert-IsValid q p force v =
    let s = StdSet.insert p q.set in
    let seen : All (λ r. In r s.0) q.queue =
      All-mono _ _ q.queue (λ r h. In-insert_old p q.set r h) v.seen in
    let more : All (λ r. In r s.0) (q.queue ++ p ∷ []) =
      All-append _ q.queue (p ∷ []) seen (In-insert_self p q.set, tt) in
    let order = insert-IsAscending p q.set v.ascending in
    elim (Bool-cases (s.1 || force)) [
      | inl e ↦
          rw e
            (record { seen = more; ascending = order; bounded = omega arith }, inl (reason e, refl))
      | inr e ↦ rw e (
        record { seen = seen; ascending = order; bounded = v.bounded },
        inr (refl, ground arith, (insert-old p q.set (ground arith)).0),
      )
    ]
  where
    reason : ((StdSet.insert p q.set).1 || force) ≡ true → (force ≡ true) ⊎ ¬ In p q.set
    reason e = elim (Bool-cases (StdSet.insert p q.set).1) [
      | inl fresh ↦ inr (insert-new p q.set v.ascending fresh)
      | inr old ↦ inl (ground arith)
    ]
