-- ===== src/WaitingList/Queue/Report.antt =====
-- `Queue::report`, which pops all points to print them and inserts them again.
use dmeic.Prelude.{◌≡◌, refl, inl, inr, false, List, [], ◌∷◌, In, All, All-mono, Bool-cases}
use dmeic.Point.{YPoint}
use dmeic.StdSet
use dmeic.StdSet.{point_ordered}
use dmeic.StdSet.Laws.{In-insert_old, IsAscending, insert-IsAscending, insert-new}
use dmeic.WaitingList.Queue.{Queue, insert, IsValid}

-- The loop that pops: the queue, and the reversed vector. The first argument is `q.queue`.
pub drain : List YPoint → Queue → List YPoint → Queue × List YPoint
drain [] q v = (q, v)
drain (p ∷ rest) q v = drain rest (record q { queue = rest; popped = p }) (p ∷ v)

-- The loop that inserts again.
pub refill : Queue → List YPoint → Queue
unfolding insert
refill q [] = q
refill q (p ∷ v) = refill (insert q p false) v

unfoldable pub report : Queue → Queue
unfolding drain refill
report q = let (q', v) = drain q.queue q [] in refill q' v

-- Nothing is inserted that was seen before.
record Spent (q : Queue) (v : List YPoint) : Type 0 where
  empty : q.queue ≡ []
  seen : All (λ p. In p q.set) v
  ascending : IsAscending q.set

refill-empty : (q : Queue) (v : List YPoint) → Spent q v → (refill q v).queue ≡ []
unfolding refill insert
refill-empty q [] s = s.empty
refill-empty q (p ∷ v) s =
    let r = StdSet.insert p q.set in
    refill-empty (insert q p false) v (elim (Bool-cases r.1) [
      | inl e ↦ absurd (insert-new p q.set s.ascending e s.seen.0)
      | inr e ↦ rw e (record {
        empty = s.empty;
        seen = All-mono _ _ v (λ a m. In-insert_old p q.set a m) s.seen.1;
        ascending = insert-IsAscending p q.set s.ascending;
      })
    ])

drain-Spent :
    (ps : List YPoint) (q : Queue) (v : List YPoint)
    → q.queue ≡ ps
    → All (λ p. In p q.set) ps
    → All (λ p. In p q.set) v
    → IsAscending q.set
    → Spent (drain ps q v).0 (drain ps q v).1
unfolding drain
drain-Spent [] q v h seen kept asc = record { empty = h; seen = kept; ascending = asc }
drain-Spent (p ∷ ps) q v h seen kept asc =
    drain-Spent ps (record q { queue = ps; popped = p }) (p ∷ v) refl seen.1 (seen.0, kept) asc

-- `report` of a valid queue leaves it empty: no point that it pops is inserted again.
pub report-empty : (q : Queue) → IsValid q → (report q).queue ≡ []
unfolding report
report-empty q v =
    refill-empty (drain q.queue q []).0 (drain q.queue q []).1
      (drain-Spent q.queue q [] refl v.seen tt v.ascending)
