-- ===== src/Sharing/Vector.antt =====
-- `SharedSolutionsVector` (solutionsharing/SharedSolutionsVector.h). A call holds the mutex from
-- its first access to its last, so a call is one function on the state. `y_point` stands for
-- `OneSolution::yPoint`, the cached value of the objectives at the solution's model. Measured
-- times are left out; time stamps and counters do not wrap.
pub mod Coverage
pub mod Laws
pub mod Stamps
pub mod Missed
use dmeic.Prelude.{
  ℕ, zero, suc, ◌+◌, Bool, true, false, not, ◌&&◌, ◌||◌, List, [], ◌∷◌, ◌++◌, map, if◌then◌else◌,
  ltb, ◌==◌, length, get_or, set, erase_if,
}
use dmeic.Point.{YPoint, dominates, equal}

-- `TaggedSolution`
pub record Tagged (Sol : Type 0) : Type 0 where
  pub sol : Sol
  pub ts : ℕ
  pub added_by_thread : ℕ

pub record Shared (Sol : Type 0) : Type 0 where
  pub shared_solutions : List (Tagged Sol)
  pub last_update_time : ℕ
  pub solver_timestamps : List ℕ
  pub solutions_pushed : List ℕ
  pub solutions_pulled : List ℕ

-- `v[i] += n`
abbrev pub add_at : List ℕ → ℕ → ℕ → List ℕ
add_at v i n = set v i (get_or v i 0 + n)

-- An entry of `sharedSolutions` with its element of `toRemove`.
abbrev pub Marked : Type 0 → Type 0
Marked Sol = Tagged Sol × Bool

module _ {Sol : Type 0} (y_point : Sol → YPoint) where
  -- The inner loop: the marks, and `skip`.
  unfoldable pub inspect : YPoint → List (Marked Sol) → List (Marked Sol) × Bool
  inspect c [] = ([], false)
  inspect c ((t, flag) ∷ ms) =
      let (rest, skip) = inspect c ms in
      let s = y_point t.sol in
      if equal s c || dominates s c
      then ((t, flag) ∷ ms, true)
      else ((t, if dominates c s then true else flag) ∷ rest, skip)

  -- The loop over the candidates: the marks, and `toAdd`.
  unfoldable pub examine :
      ℕ → List Sol → List (Marked Sol) → List (Tagged Sol) → List (Marked Sol) × List (Tagged Sol)
  unfolding inspect
  examine thread [] ms to_add = (ms, to_add)
  examine thread (c ∷ cs) ms to_add =
      let (ms', skip) = inspect (y_point c) ms in
      let new : Tagged Sol = record { sol = c; ts = 0; added_by_thread = thread } in
      examine thread cs ms' (if skip then to_add else to_add ++ new ∷ [])

  -- `std::erase_if(sharedSolutions, ... toRemove[i++])`
  unfoldable pub unmarked : List (Marked Sol) → List (Tagged Sol)
  unmarked [] = []
  unmarked ((t, flag) ∷ ms) = if flag then unmarked ms else t ∷ unmarked ms

  abbrev pub unmark : List (Tagged Sol) → List (Marked Sol)
  unmark = map (λ t. (t, false))

  abbrev pub stamp : ℕ → List (Tagged Sol) → List (Tagged Sol)
  stamp time = map {A = Tagged Sol} (λ t. record t { ts = time })

  abbrev pub is_empty : List (Tagged Sol) → Bool
  is_empty [] = true
  is_empty (t ∷ ts) = false

  unfoldable pub push_solutions : Shared Sol → List Sol → ℕ → Shared Sol
  unfolding examine unmarked
  push_solutions s candidates thread =
      let (ms, to_add) = examine thread candidates (unmark s.shared_solutions) [] in
      let time = if is_empty to_add then s.last_update_time else s.last_update_time + 1 in
      record {
        shared_solutions = unmarked ms ++ stamp time to_add;
        last_update_time = time;
        solver_timestamps = set s.solver_timestamps thread time;
        solutions_pushed = add_at s.solutions_pushed thread (length to_add);
        solutions_pulled = s.solutions_pulled;
      }

  -- The test of `pullSolutions`.
  abbrev pub is_news : Shared Sol → ℕ → Tagged Sol → Bool
  is_news s thread t =
      not (t.added_by_thread == thread) && ltb (get_or s.solver_timestamps thread 0) t.ts

  unfoldable pub pulled : Shared Sol → ℕ → List (Tagged Sol) → List Sol
  pulled s thread [] = []
  pulled s thread (t ∷ ts) =
      let rest = pulled s thread ts in if is_news s thread t then t.sol ∷ rest else rest

  unfoldable pub pull_solutions : Shared Sol → ℕ → List Sol × Shared Sol
  unfolding pulled
  pull_solutions s thread =
      let result = pulled s thread s.shared_solutions in
      (result, record s { solutions_pulled = add_at s.solutions_pulled thread (length result) })

  unfoldable pub sync_solutions : Shared Sol → List Sol → ℕ → Bool → List Sol × Shared Sol
  unfolding push_solutions pull_solutions
  sync_solutions s candidates thread also_pull =
      let (result, s') = if also_pull then pull_solutions s thread else ([], s) in
      (result, push_solutions s' candidates thread)

  unfoldable pub get_solutions : Shared Sol → List (ℕ × Sol)
  get_solutions s = map (λ t. (t.added_by_thread, t.sol)) s.shared_solutions
