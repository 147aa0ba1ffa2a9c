-- ===== src/ClauseBag/Invariant.antt =====
-- The positions of the threads in `DequeSharedClausesBag`, and that each method keeps them.
use dmeic.Prelude.{
  ℕ, zero, suc, ◌+◌, ◌-◌, ◌≤◌, ◌≡◌, refl, List, [], ◌∷◌, ◌++◌, map, arith, length, get_or, set,
  drop, All, length-append, length-drop, length-set,
}
use dmeic.ClauseBag.{Bag, Clause, grab, push, min_element, clean, sync_shared_clauses}

pub record IsValid (workers : ℕ) (b : Bag) : Type 0 where
  pub within : All (λ seen. seen ≤ length b.deque) b.last_seen
  pub threads : length b.last_seen ≡ workers

set-within : (v : List ℕ) (i n k : ℕ) → All (λ s. s ≤ n) v → k ≤ n → All (λ s. s ≤ n) (set v i k)
set-within [] i n k h l = tt
set-within (s ∷ v) zero n k h l = (l, h.1)
set-within (s ∷ v) (suc i) n k h l = (h.0, set-within v i n k h.1 l)

within_mono : (v : List ℕ) (m n : ℕ) → m ≤ n → All (λ s. s ≤ m) v → All (λ s. s ≤ n) v
within_mono [] m n h k = tt
within_mono (s ∷ v) m n h k = (omega arith, within_mono v m n h k.1)

pub get_or-within : (v : List ℕ) (i n : ℕ) → All (λ s. s ≤ n) v → get_or v i 0 ≤ n
get_or-within [] i n h = omega arith
get_or-within (s ∷ v) zero n h = h.0
get_or-within (s ∷ v) (suc i) n h = get_or-within v i n h.1

sub-within : (v : List ℕ) (m n : ℕ) → All (λ s. s ≤ n) v → All (λ s. s ≤ n - m) (map (λ s. s - m) v)
sub-within [] m n h = tt
sub-within (s ∷ v) m n h = (omega arith, sub-within v m n h.1)

length-sub : (v : List ℕ) (m : ℕ) → length (map (λ s. s - m) v) ≡ length v
length-sub [] m = refl
length-sub (s ∷ v) m = ground (arith, length-sub v m)

pub grab-IsValid :
    {workers : ℕ} (b : Bag) (thread : ℕ) → IsValid workers b → IsValid workers (grab b thread).1
unfolding grab
grab-IsValid b thread v = record {
  within = set-within b.last_seen thread (length b.deque) _ v.within (
      omega (
        arith,
        length-drop (get_or b.last_seen thread 0) b.deque,
        get_or-within b.last_seen thread (length b.deque) v.within,
      ));
  threads = omega (
    arith,
    length-set b.last_seen thread
        (get_or b.last_seen thread 0 + length (drop (get_or b.last_seen thread 0) b.deque)),
    v.threads,
  );
}

pub push-IsValid :
    {workers : ℕ} (b : Bag) (cs : List Clause) (thread : ℕ)
    → IsValid workers b
    → IsValid workers (push b cs thread)
unfolding push
push-IsValid b cs thread v =
    let more = length-append b.deque cs in
    record {
      within =
          set-within b.last_seen thread (length (b.deque ++ cs)) _
            (within_mono b.last_seen (length b.deque) _ (omega arith) v.within)
            (omega (arith, get_or-within b.last_seen thread (length b.deque) v.within));
      threads = omega (
        arith,
        length-set b.last_seen thread (get_or b.last_seen thread 0 + length cs),
        v.threads,
      );
    }

clean-IsValid : {workers : ℕ} (b : Bag) → IsValid workers b → IsValid workers (clean b)
unfolding clean
clean-IsValid b v = record {
  within =
      within_mono _ (length b.deque - min_element b.last_seen) _
        (omega (arith, length-drop (min_element b.last_seen) b.deque))
        (sub-within b.last_seen (min_element b.last_seen) (length b.deque) v.within);
  threads = omega (arith, length-sub b.last_seen (min_element b.last_seen), v.threads);
}

-- A call of `syncSharedClauses` on a bag in which no position is past the end leaves such a bag, so
-- that no difference of counts wraps.
pub sync-IsValid :
    {workers : ℕ} (b : Bag) (count : ℕ) (cs : List Clause) (thread : ℕ)
    → IsValid workers b
    → IsValid workers (sync_shared_clauses b count cs thread).1
unfolding sync_shared_clauses
sync-IsValid b count [] thread v =
    clean-IsValid _ (grab-IsValid _ thread (record { within = v.within; threads = v.threads }))
sync-IsValid b count (c ∷ cs) thread v = clean-IsValid _ (
    push-IsValid _ (c ∷ cs) thread
      (grab-IsValid _ thread (record { within = v.within; threads = v.threads })))
