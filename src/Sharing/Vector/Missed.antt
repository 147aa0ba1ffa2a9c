-- ===== src/Sharing/Vector/Missed.antt =====
-- What the calls of one thread return over a schedule of calls of `syncSolutions`.
use dmeic.Prelude.{
  ℕ, ◌+◌, ◌<◌, ◌≤◌, ◌≡◌, ◌≢◌, refl, inl, inr, Bool, true, false, ◌⊎◌, List, [], ◌∷◌, ◌++◌, arith,
  if◌then◌else◌, ◌==◌, ==_iff, All, All-append, All-mono, In, In-append_left, In-append_right,
  Bool-cases, get_or, get_or-set_ne,
}
use dmeic.Point.{YPoint}
use dmeic.Sharing.Vector.{
  Tagged, Marked, Shared, inspect, examine, unmarked, unmark, stamp, is_empty, is_news,
  push_solutions, pulled, pull_solutions, sync_solutions,
}
use dmeic.Sharing.Vector.Coverage.{entries}
use dmeic.Sharing.Vector.Laws.{push_loop}
use dmeic.Sharing.Vector.Stamps.{
  IsStamped, push_solutions-IsStamped, pull-IsStamped, timestamp-push,
}

-- A call of `syncSolutions`.
pub record Call (Sol : Type 0) : Type 0 where
  pub thread : ℕ
  pub candidates : List Sol
  pub also_pull : Bool

module _ {Sol : Type 0} where
  -- The candidates of the calls of all threads but one.
  unfoldable pub candidates_of_others : ℕ → List (Call Sol) → List Sol
  candidates_of_others thread [] = []
  candidates_of_others thread (c ∷ cs) =
      let rest = candidates_of_others thread cs in
      if c.thread == thread then rest else c.candidates ++ rest

  abbrev pub AreThreads : ℕ → List (Call Sol) → Type 0
  AreThreads threads = All (λ c. c.thread < threads)

module _ {Sol : Type 0} (y_point : Sol → YPoint) where
  -- The state after the calls, and what the calls of one thread return, in their order.
  unfoldable pub told : ℕ → Shared Sol → List (Call Sol) → List Sol
  told thread s [] = []
  told thread s (c ∷ cs) =
      let (result, s') = sync_solutions y_point s c.candidates c.thread c.also_pull in
      let rest = told thread s' cs in if c.thread == thread then result ++ rest else rest

  module _ (P : Sol → Type 0) (thread : ℕ) where
    -- What the thread is still to be told satisfies `P`.
    abbrev Fresh : ℕ → Tagged Sol → Type 0
    Fresh seen t = (t.added_by_thread ≡ thread) ⊎ (t.ts ≤ seen) ⊎ P t.sol

    abbrev AllFresh : Shared Sol → Type 0
    AllFresh s = All (Fresh (get_or s.solver_timestamps thread 0)) s.shared_solutions

    pulled-All :
        (s : Shared Sol) (ts : List (Tagged Sol))
        → All (Fresh (get_or s.solver_timestamps thread 0)) ts
        → All P (pulled y_point s thread ts)
    unfolding pulled
    pulled-All s [] h = tt
    pulled-All s (t ∷ ts) h =
        let rest = pulled-All s ts h.1 in
        elim h.0 [
          | inl own ↦
              let skip : is_news y_point s thread t ≡ false = ground (arith, own) in rw skip rest
          | inr (inl old) ↦
              let skip : is_news y_point s thread t ≡ false = ground (arith, old) in rw skip rest
          | inr (inr p) ↦ elim (Bool-cases (is_news y_point s thread t)) [
            | inl e ↦ rw e (p, rest)
            | inr e ↦ rw e rest
          ]
        ]

    examine-All :
        (Q : Tagged Sol → Type 0) (u : ℕ) (cs : List Sol) (ms : List (Marked Sol))
        → (add : List (Tagged Sol))
        → All (λ c. Q (record { sol = c; ts = 0; added_by_thread = u })) cs
        → All Q add
        → All Q (examine y_point u cs ms add).1
    unfolding examine
    examine-All Q u [] ms add h k = k
    examine-All Q u (c ∷ cs) ms add h k =
        let (ms', skip) = inspect y_point (y_point c) ms in
        examine-All Q u cs ms' _ h.1 (chosen skip)
      where
        new : Tagged Sol
        new = record { sol = c; ts = 0; added_by_thread = u }

        chosen : (skip : Bool) → All Q (if skip then add else add ++ new ∷ [])
        chosen true = k
        chosen false = All-append Q add (new ∷ []) k (h.0, tt)

    unmarked-All :
        (Q : Tagged Sol → Type 0) (ms : List (Marked Sol))
        → All Q (entries y_point ms)
        → All Q (unmarked y_point ms)
    unfolding unmarked
    unmarked-All Q [] h = tt
    unmarked-All Q ((t, true) ∷ ms) h = unmarked-All Q ms h.1
    unmarked-All Q ((t, false) ∷ ms) h = (h.0, unmarked-All Q ms h.1)

    stamp-All :
        (seen time : ℕ) (ts : List (Tagged Sol))
        → All (λ t. P t.sol) ts
        → All (Fresh seen) (stamp y_point time ts)
    stamp-All seen time [] h = tt
    stamp-All seen time (t ∷ ts) h = (inr (inr h.0), stamp-All seen time ts h.1)

    push-other :
        (s : Shared Sol) (cs : List Sol) (u : ℕ)
        → u ≢ thread
        → All P cs
        → AllFresh s
        → AllFresh (push_solutions y_point s cs u)
    unfolding push_solutions
    push-other s cs u ne h k =
        let r = examine y_point u cs (unmark y_point s.shared_solutions) [] in
        let time : ℕ =
          if is_empty y_point r.1 then s.last_update_time else s.last_update_time + 1 in
        let seen = get_or s.solver_timestamps thread 0 in
        rw (get_or-set_ne s.solver_timestamps u thread time 0 ne) (
          All-append (Fresh seen) (unmarked y_point r.0) _
            (unmarked-All (Fresh seen) r.0 (rw (push_loop y_point s cs u).same k))
            (stamp-All seen time r.1
              (examine-All (λ t. P t.sol) u cs (unmark y_point s.shared_solutions) [] h tt)))

    push-self :
        {threads : ℕ} (s : Shared Sol) (cs : List Sol)
        → IsStamped y_point threads s
        → thread < threads
        → AllFresh (push_solutions y_point s cs thread)
    push-self s cs v h =
        let s' = push_solutions y_point s cs thread in
        rw (timestamp-push y_point s cs thread (rw v.workers h)) (
          All-mono (λ t. t.ts ≤ s'.last_update_time) (Fresh s'.last_update_time) s'.shared_solutions
            (λ t l. inr (inl l)) (push_solutions-IsStamped y_point s cs thread v).old)

    -- What one push keeps.
    record Kept (threads : ℕ) (s : Shared Sol) : Type 0 where
      stamped : IsStamped y_point threads s
      fresh : AllFresh s

    push-Kept :
        {threads : ℕ} (s : Shared Sol) (cs : List Sol) (u : ℕ)
        → thread < threads
        → (u ≡ thread) ⊎ All P cs
        → Kept threads s
        → Kept threads (push_solutions y_point s cs u)
    push-Kept {threads} s cs u h from k = record {
      stamped = push_solutions-IsStamped y_point s cs u k.stamped;
      fresh = elim (Bool-cases (u == thread)) [
        | inl e ↦
            let same : u ≡ thread = (==_iff u thread).0 e in rw same (push-self s cs k.stamped h)
        | inr e ↦
            let ne : u ≢ thread = λ same. ground (arith, same, e) in
            elim from [ inl same ↦ absurd (ne same) | inr all ↦ push-other s cs u ne all k.fresh ]
      ];
    }

    sync-Kept :
        {threads : ℕ} (s : Shared Sol) (cs : List Sol) (u : ℕ) (also_pull : Bool)
        → thread < threads
        → (u ≡ thread) ⊎ All P cs
        → Kept threads s
        → Kept threads (sync_solutions y_point s cs u also_pull).1
          × (u ≡ thread → All P (sync_solutions y_point s cs u also_pull).0)
    unfolding sync_solutions pull_solutions
    sync-Kept s cs u false h from k = (push-Kept s cs u h from k, λ e. tt)
    sync-Kept s cs u true h from k = (
      push-Kept (pull_solutions y_point s u).1 cs u h from
          (record { stamped = pull-IsStamped y_point s u k.stamped; fresh = k.fresh }),
      λ e. rw e (pulled-All s s.shared_solutions k.fresh),
    )

    told-All :
        {threads : ℕ} (s : Shared Sol) (calls : List (Call Sol))
        → thread < threads
        → All (λ c. (c.thread ≡ thread) ⊎ All P c.candidates) calls
        → Kept threads s
        → All P (told thread s calls)
    unfolding told
    told-All s [] h from k = tt
    told-All s (c ∷ cs) h from k =
        let (k', r) = sync-Kept s c.candidates c.thread c.also_pull h from.0 k in
        let (result, s') = sync_solutions y_point s c.candidates c.thread c.also_pull in
        let rest = told-All s' cs h from.1 k' in
        elim (Bool-cases (c.thread == thread)) [
          | inl e ↦
              rw e (All-append P result (told thread s' cs) (r ((==_iff c.thread thread).0 e)) rest)
          | inr e ↦ rw e rest
        ]

  others-All :
      (P : Sol → Type 0) (thread : ℕ) (calls : List (Call Sol))
      → ((x : Sol) → In x (candidates_of_others thread calls) → P x)
      → All (λ c. (c.thread ≡ thread) ⊎ All P c.candidates) calls
  unfolding candidates_of_others
  others-All P thread [] f = tt
  others-All P thread (c ∷ cs) f = (
    elim (Bool-cases (c.thread == thread)) [
      | inl e ↦ inl ((==_iff c.thread thread).0 e)
      | inr e ↦
          inr (members c.candidates (λ x m. f x (rw e (In-append_left c.candidates rest x m))))
    ],
    others-All P thread cs (λ x m. f x (later (c.thread == thread) x m)),
  )
    where
      rest : List Sol
      rest = candidates_of_others thread cs

      members : (xs : List Sol) → ((x : Sol) → In x xs → P x) → All P xs
      members [] g = tt
      members (x ∷ xs) g = (g x (inl refl), members xs (λ y m. g y (inr m)))

      later : (b : Bool) (x : Sol) → In x rest → In x (if b then rest else c.candidates ++ rest)
      later true x m = m
      later false x m = In-append_right c.candidates rest x m

  -- Where no stamp is past `lastUpdateTime` and the thread has a number in range: after a call of
  -- `syncSolutions` by a thread, with `alsoPull` true or false, all that the thread's calls of a
  -- schedule return was offered by another thread in a call of that schedule.
  pub told-sync :
      {threads : ℕ} (s : Shared Sol) (cs : List Sol) (thread : ℕ) (also_pull : Bool)
      → (calls : List (Call Sol)) → IsStamped y_point threads s
      → thread < threads
      → All
          (λ x. In x (candidates_of_others thread calls))
          (told thread (sync_solutions y_point s cs thread also_pull).1 calls)
  unfolding sync_solutions
  told-sync s cs thread true calls v h =
      let s' = (pull_solutions y_point s thread).1 in
      let v' = pull-IsStamped y_point s thread v in
      told-All (λ x. In x (candidates_of_others thread calls)) thread
        (push_solutions y_point s' cs thread) calls h
        (others-All (λ x. In x (candidates_of_others thread calls)) thread calls (λ x m. m))
        (record {
          stamped = push_solutions-IsStamped y_point s' cs thread v';
          fresh = push-self (λ x. In x (candidates_of_others thread calls)) thread s' cs v' h;
        })
  told-sync s cs thread false calls v h =
      told-All (λ x. In x (candidates_of_others thread calls)) thread
        (push_solutions y_point s cs thread) calls h
        (others-All (λ x. In x (candidates_of_others thread calls)) thread calls (λ x m. m))
        (record {
          stamped = push_solutions-IsStamped y_point s cs thread v;
          fresh = push-self (λ x. In x (candidates_of_others thread calls)) thread s cs v h;
        })
