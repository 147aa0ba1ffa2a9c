-- ===== src/Sharing/Archive.antt =====
-- `SharedSolutionsArchive` (solutionsharing/SharedSolutionsArchive.h). Entries are never removed
-- from `archive` but marked as dominated. `entries` holds the addresses of the first `published`
-- entries of `archive`, so a loop over `entries` and then over the rest of `archive` is one over
-- `archive`. A call of `syncSolutions` holds the mutex, and is one function on the state; `locked` is
-- what a reader's attempt to take the mutex gives, and `capacity` is `MAX_SOLUTIONS`. Measured times are left out, and counters do not
-- wrap.
pub mod View
pub mod Refines
pub mod Reads
use dmeic.Prelude.{
  ℕ, zero, suc, ◌+◌, ◌-◌, Bool, true, false, not, ◌&&◌, ◌||◌, List, [], ◌∷◌, ◌++◌, map,
  if◌then◌else◌, ltb, ◌==◌, length, get_or, set, take,
}
use dmeic.Point.{YPoint, dominates, equal}
use dmeic.Sharing.Vector.{add_at}

-- `TaggedSolution`
pub record Entry (Sol : Type 0) : Type 0 where
  pub sol : Sol
  pub ts : ℕ
  pub added_by_thread : ℕ
  pub dominated : Bool

pub record Archive (Sol : Type 0) : Type 0 where
  pub archive : List (Entry Sol)
  pub published : ℕ
  pub live_count : ℕ
  pub overflow : Bool
  pub last_update_time : ℕ
  pub solver_timestamps : List ℕ
  pub solutions_pushed : List ℕ
  pub solutions_pulled : List ℕ

module _ {Sol : Type 0} (y_point : Sol → YPoint) where
  -- The loops that call `inspect`: the entries, how many become dominated, and `skip`.
  unfoldable pub inspect : YPoint → List (Entry Sol) → List (Entry Sol) × ℕ × Bool
  inspect c [] = ([], 0, false)
  inspect c (e ∷ es) =
      let (rest, k, skip) = inspect c es in
      let yp = y_point e.sol in
      if e.dominated
      then (e ∷ rest, k, skip)
      else if equal yp c || dominates yp c
      then (e ∷ es, 0, true)
      else if dominates c yp
      then (record e { dominated = true } ∷ rest, suc k, skip)
      else (e ∷ rest, k, skip)

  -- The loop over the candidates: the entries of before, how many have become dominated, `toAdd`.
  unfoldable pub examine :
      ℕ
      → ℕ
      → List Sol
      → List (Entry Sol)
      → ℕ
      → List (Entry Sol)
      → List (Entry Sol) × ℕ × List (Entry Sol)
  unfolding inspect
  examine thread time [] es k to_add = (es, k, to_add)
  examine thread time (c ∷ cs) es k to_add =
      let (es', n, skip) = inspect (y_point c) es in
      let new : Entry Sol = record {
        sol = c;
        ts = time;
        added_by_thread = thread;
        dominated = false;
      } in
      examine thread time cs es' (k + n) (if skip then to_add else to_add ++ new ∷ [])

  -- The loop that stores `toAdd` in `entries`, which has `capacity` places.
  unfoldable pub publish : ℕ → List (Entry Sol) → ℕ → Bool → ℕ × Bool
  publish capacity [] n overflow = (n, overflow)
  publish capacity (a ∷ rest) n overflow =
      publish capacity rest (if ltb n capacity then suc n else n)
        (if ltb n capacity then overflow else true)

  abbrev pub is_empty : List (Entry Sol) → Bool
  is_empty [] = true
  is_empty (e ∷ es) = false

  unfoldable pub push_solutions : ℕ → Archive Sol → List Sol → ℕ → Archive Sol
  unfolding examine publish
  push_solutions capacity s candidates thread =
      let (old, k, to_add) = examine thread (s.last_update_time + 1) candidates s.archive 0 [] in
      let time = if is_empty to_add then s.last_update_time else s.last_update_time + 1 in
      let (n, overflow') = publish capacity to_add s.published s.overflow in
      record {
        archive = old ++ to_add;
        published = n;
        live_count = s.live_count - k + length to_add;
        overflow = overflow';
        last_update_time = time;
        solver_timestamps = set s.solver_timestamps thread time;
        solutions_pushed = add_at s.solutions_pushed thread (length to_add);
        solutions_pulled = s.solutions_pulled;
      }

  -- The test of `pullEntry`.
  abbrev pub is_news : Archive Sol → ℕ → Entry Sol → Bool
  is_news s thread e =
      not e.dominated
      && (not (e.added_by_thread == thread) && ltb (get_or s.solver_timestamps thread 0) e.ts)

  unfoldable pub pulled : Archive Sol → ℕ → List (Entry Sol) → List Sol
  pulled s thread [] = []
  pulled s thread (e ∷ es) =
      let rest = pulled s thread es in if is_news s thread e then e.sol ∷ rest else rest

  unfoldable pub pull_solutions : Archive Sol → ℕ → List Sol × Archive Sol
  unfolding pulled
  pull_solutions s thread =
      let result = pulled s thread s.archive in
      (result, record s { solutions_pulled = add_at s.solutions_pulled thread (length result) })

  unfoldable pub sync_solutions : ℕ → Archive Sol → List Sol → ℕ → Bool → List Sol × Archive Sol
  unfolding push_solutions pull_solutions
  sync_solutions capacity s candidates thread also_pull =
      let (result, s') = if also_pull then pull_solutions s thread else ([], s) in
      (result, push_solutions capacity s' candidates thread)

  -- The entries that a loop over all but the dominated ones reports.
  unfoldable pub reported : List (Entry Sol) → List (ℕ × Sol)
  reported [] = []
  reported (e ∷ es) =
      let rest = reported es in if e.dominated then rest else (e.added_by_thread, e.sol) ∷ rest

  unfoldable pub get_solutions : Archive Sol → Bool → List (ℕ × Sol)
  unfolding reported
  get_solutions s locked =
      if s.overflow && locked then reported s.archive else reported (take s.published s.archive)

  unfoldable pub get_solution_points : Archive Sol → Bool → List (ℕ × YPoint)
  unfolding get_solutions
  get_solution_points s locked = map (λ p. (p.0, y_point p.1)) (get_solutions s locked)

  unfoldable pub empty : Archive Sol → Bool
  empty s = s.live_count == 0
