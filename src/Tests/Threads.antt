-- ===== src/Tests/Threads.antt =====
-- Concrete runs of what threads share.
use dmeic.Prelude.{◌≡◌, refl, true, false, List, [], ◌∷◌, ◌++◌, arith, In, Any, All}
use dmeic.Point.{YPoint, dominates, equal}
use dmeic.Sharing.Vector.{Tagged, Shared, push_solutions, sync_solutions}
use dmeic.Sharing.Vector.Laws.{push_solutions-covers}
use dmeic.Sharing.Vector.Stamps.{IsStamped}
use dmeic.Sharing.Vector.Missed.{Call, candidates_of_others, told, told-sync}
use dmeic.ClauseBag.{new_bag}
use dmeic.ClauseBag.Invariant.{IsValid}
use dmeic.ClauseBag.Delivery.{Sync, pending, after, delivered, offered_by_others, delivered-pending}

abbrev same : YPoint → YPoint
same p = p

abbrev shared : Shared YPoint
shared = record {
  shared_solutions = record { sol = 3 ∷ 3 ∷ []; ts = 1; added_by_thread = 0 } ∷ [];
  last_update_time = 1;
  solver_timestamps = 1 ∷ 0 ∷ [];
  solutions_pushed = 1 ∷ 0 ∷ [];
  solutions_pulled = 0 ∷ 0 ∷ [];
}

abbrev offered : List YPoint
offered = (1 ∷ 2 ∷ []) ∷ (4 ∷ 4 ∷ []) ∷ []

push_solutions-covers_example :
    ((t : Tagged YPoint)
      → In t shared.shared_solutions
      → Any
          (λ u. dominates (same u.sol) (same t.sol) ≡ true)
          (push_solutions same shared offered 1).shared_solutions)
    × ((c : YPoint)
        → In c offered
        → Any
            (λ u. dominates (same u.sol) (same c) ≡ true)
            (push_solutions same shared offered 1).shared_solutions)
push_solutions-covers_example = push_solutions-covers same shared offered 1

shared-IsStamped : IsStamped same 2 shared
shared-IsStamped = record { old = (omega arith, tt); workers = refl }

-- What comes after a call of thread 1 that does not pull.
abbrev next_calls : List (Call YPoint)
next_calls =
    record { thread = 0; candidates = (2 ∷ 5 ∷ []) ∷ []; also_pull = true }
    ∷ record { thread = 1; candidates = []; also_pull = true }
    ∷ []

told-sync_example :
    All
      (λ x. In x (candidates_of_others 1 next_calls))
      (told same 1 (sync_solutions same shared [] 1 false).1 next_calls)
told-sync_example = told-sync same shared [] 1 false next_calls shared-IsStamped (omega arith)

-- Thread 1 is told the new point, and the point (3, 3) that was there before never.
told_run : told same 1 (sync_solutions same shared [] 1 false).1 next_calls ≡ (2 ∷ 5 ∷ []) ∷ []
unfolding told sync_solutions dominates equal
told_run = refl

abbrev calls : List Sync
calls =
    record { thread = 1; unfiltered_count = 2; clauses = (2 ∷ 5 ∷ []) ∷ [] }
    ∷ record { thread = 0; unfiltered_count = 1; clauses = (4 ∷ []) ∷ [] }
    ∷ []

new_bag-IsValid : IsValid 2 (new_bag 2)
unfolding new_bag
new_bag-IsValid = record { within = (omega arith, (omega arith, tt)); threads = refl }

delivered-pending_example :
    delivered 0 (new_bag 2) calls ++ pending (after (new_bag 2) calls) 0
    ≡ pending (new_bag 2) 0 ++ offered_by_others 0 calls
delivered-pending_example = delivered-pending 0 (new_bag 2) calls new_bag-IsValid (omega arith)
