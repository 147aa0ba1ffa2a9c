-- ===== src/Sharing/Vector/Stamps.antt =====
-- The time stamps of `SharedSolutionsVector`.
use dmeic.Prelude.{
  ℕ, ◌+◌, ◌<◌, ◌≤◌, ◌≡◌, true, false, List, [], ◌∷◌, arith, if◌then◌else◌, All, All-append,
  All-mono, length, get_or, length-set, get_or-set_self,
}
use dmeic.Point.{YPoint}
use dmeic.Sharing.Vector.{
  Tagged, Marked, Shared, examine, unmarked, unmark, stamp, is_empty, push_solutions,
  pull_solutions,
}
use dmeic.Sharing.Vector.Coverage.{entries}
use dmeic.Sharing.Vector.Laws.{push_loop}

module _ {Sol : Type 0} (y_point : Sol → YPoint) where
  abbrev OldBy : ℕ → List (Tagged Sol) → Type 0
  OldBy time = All (λ t. t.ts ≤ time)

  -- No entry is younger than the clock, and the set has `threads` threads.
  pub record IsStamped (threads : ℕ) (s : Shared Sol) : Type 0 where
    pub old : All (λ t. t.ts ≤ s.last_update_time) s.shared_solutions
    pub workers : length s.solver_timestamps ≡ threads

  stamp-OldBy : (time : ℕ) (ts : List (Tagged Sol)) → OldBy time (stamp y_point time ts)
  stamp-OldBy time [] = tt
  stamp-OldBy time (t ∷ ts) = (omega arith, stamp-OldBy time ts)

  unmarked-OldBy :
      (time : ℕ) (ms : List (Marked Sol))
      → OldBy time (entries y_point ms)
      → OldBy time (unmarked y_point ms)
  unfolding unmarked
  unmarked-OldBy time [] h = tt
  unmarked-OldBy time ((t, true) ∷ ms) h = unmarked-OldBy time ms h.1
  unmarked-OldBy time ((t, false) ∷ ms) h = (h.0, unmarked-OldBy time ms h.1)

  later-OldBy : (m n : ℕ) (ts : List (Tagged Sol)) → m ≤ n → OldBy m ts → OldBy n ts
  later-OldBy m n ts h = All-mono _ _ ts (λ t k. omega arith)

  -- A push keeps each stamp at most `lastUpdateTime`, and the number of threads.
  pub push_solutions-IsStamped :
      {threads : ℕ} (s : Shared Sol) (cs : List Sol) (thread : ℕ)
      → IsStamped threads s
      → IsStamped threads (push_solutions y_point s cs thread)
  unfolding push_solutions
  push_solutions-IsStamped s cs thread v =
      let r = examine y_point thread cs (unmark y_point s.shared_solutions) [] in
      let time : ℕ = if is_empty y_point r.1 then s.last_update_time else s.last_update_time + 1 in
      record {
        old =
            All-append _ (unmarked y_point r.0) _
              (unmarked-OldBy time r.0 (
                rw (push_loop y_point s cs thread).same
                  (later-OldBy s.last_update_time time _ (ground arith) v.old)))
              (stamp-OldBy time r.1);
        workers = ground (arith, length-set s.solver_timestamps thread time, v.workers);
      }

  pub timestamp-push :
      (s : Shared Sol) (cs : List Sol) (thread : ℕ)
      → thread < length s.solver_timestamps
      → get_or (push_solutions y_point s cs thread).solver_timestamps thread 0
        ≡ (push_solutions y_point s cs thread).last_update_time
  unfolding push_solutions
  timestamp-push s cs thread h = get_or-set_self s.solver_timestamps thread _ 0 h

  pub pull-IsStamped :
      {threads : ℕ} (s : Shared Sol) (thread : ℕ)
      → IsStamped threads s
      → IsStamped threads (pull_solutions y_point s thread).1
  unfolding pull_solutions
  pull-IsStamped s thread v = record { old = v.old; workers = v.workers }
