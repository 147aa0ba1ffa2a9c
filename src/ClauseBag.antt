-- ===== src/ClauseBag.antt =====
-- Learnt clauses that threads exchange (clausesharing/): `DequeSharedClausesBag`, and the
-- heuristics that choose what is offered. `syncSharedClauses` holds the mutex from its first
-- access of the deque to its last; measured times are left out, and counters do not wrap.
pub mod Invariant
pub mod Delivery
use dmeic.Prelude.{
  ℕ, zero, suc, ◌+◌, ◌-◌, Bool, true, false, List, [], ◌∷◌, ◌++◌, map, if◌then◌else◌, leb, length,
  get_or, set, drop, min, max, replicate,
}

-- A `Lit` by its number `2 * var + sign`.
abbrev pub Clause : Type 0
Clause = List ℕ

pub record Bag : Type 0 where
  pub deque : List Clause
  pub last_seen : List ℕ
  pub syncs : List ℕ
  pub nonempty_pushes : List ℕ
  pub nonempty_grabs : List ℕ
  pub clauses_pushed : List ℕ
  pub clauses_grabbed : List ℕ
  pub clauses_filtered_out : List ℕ
  pub largest_push : ℕ
  pub largest_grab : ℕ
  pub most_clauses_in_bag : ℕ

-- The constructor.
unfoldable pub new_bag : ℕ → Bag
new_bag n_workers = record {
  deque = [];
  last_seen = replicate n_workers 0;
  syncs = replicate n_workers 0;
  nonempty_pushes = replicate n_workers 0;
  nonempty_grabs = replicate n_workers 0;
  clauses_pushed = replicate n_workers 0;
  clauses_grabbed = replicate n_workers 0;
  clauses_filtered_out = replicate n_workers 0;
  largest_push = 0;
  largest_grab = 0;
  most_clauses_in_bag = 0;
}

-- `v[i] += n`
abbrev pub add_at : List ℕ → ℕ → ℕ → List ℕ
add_at v i n = set v i (get_or v i 0 + n)

abbrev pub is_empty : List Clause → Bool
is_empty [] = true
is_empty (c ∷ cs) = false

-- `clauses_grabbed` grows by a difference of `size_t`, which the invariant keeps from wrapping.
unfoldable pub grab : Bag → ℕ → List Clause × Bag
grab b thread =
    let seen = get_or b.last_seen thread 0 in
    let result = drop seen b.deque in
    (
      result,
      record b {
        last_seen = add_at b.last_seen thread (length result);
        nonempty_grabs = add_at b.nonempty_grabs thread (if is_empty result then 0 else 1);
        clauses_grabbed = add_at b.clauses_grabbed thread (length b.deque - seen);
        largest_grab = max b.largest_grab (length result);
      },
    )

unfoldable pub push : Bag → List Clause → ℕ → Bag
push b clauses thread = record b {
  deque = b.deque ++ clauses;
  last_seen = add_at b.last_seen thread (length clauses);
  nonempty_pushes = add_at b.nonempty_pushes thread 1;
  clauses_pushed = add_at b.clauses_pushed thread (length clauses);
  largest_push = max b.largest_push (length clauses);
  most_clauses_in_bag = max b.most_clauses_in_bag (length (b.deque ++ clauses));
}

-- `*std::min_element`, of a vector that is not empty: there is a worker
unfoldable pub min_element : List ℕ → ℕ
min_element [] = 0
min_element (n ∷ []) = n
min_element (n ∷ m ∷ ns) = min n (min_element (m ∷ ns))

unfoldable pub clean : Bag → Bag
unfolding min_element
clean b =
    let min_seen = min_element b.last_seen in
    record b {
      deque = drop min_seen b.deque;
      last_seen = map (λ seen. seen - min_seen) b.last_seen;
    }

-- The counters that `syncSharedClauses` raises before it takes the lock.
unfoldable pub count_sync : Bag → ℕ → List Clause → ℕ → Bag
count_sync b unfiltered_count clauses thread = record b {
  syncs = add_at b.syncs thread 1;
  clauses_filtered_out = add_at b.clauses_filtered_out thread (unfiltered_count - length clauses);
}

unfoldable pub sync_shared_clauses : Bag → ℕ → List Clause → ℕ → List Clause × Bag
unfolding count_sync grab push clean
sync_shared_clauses b unfiltered_count clauses thread =
    let (result, grabbed) = grab (count_sync b unfiltered_count clauses thread) thread in
    (result, clean (if is_empty clauses then grabbed else push grabbed clauses thread))

-- `SizeHeuristic::filter`
unfoldable pub size_filter : ℕ → List Clause → List Clause
size_filter cutoff [] = []
size_filter cutoff (c ∷ cs) =
    if leb (length c) cutoff then c ∷ size_filter cutoff cs else size_filter cutoff cs
