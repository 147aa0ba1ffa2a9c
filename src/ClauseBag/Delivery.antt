-- ===== src/ClauseBag/Delivery.antt =====
-- What each thread is given over a schedule of synchronisations.
use dmeic.Prelude.{
  ℕ, zero, suc, ◌-◌, ◌<◌, ◌≤◌, ◌≡◌, ◌≢◌, refl, sym, ap, subst, ◌∙◌, inl, inr, List, [], ◌∷◌, ◌++◌,
  map, arith, if◌then◌else◌, ◌==◌, length, get_or, drop, length-append, length-drop,
  get_or-set_self, get_or-set_ne, Bool-cases, append-nil, append_assoc, ==_iff, drop_all,
  drop-append, drop-drop,
}
use dmeic.ClauseBag.{Bag, Clause, count_sync, grab, push, min_element, clean, sync_shared_clauses}
use dmeic.ClauseBag.Invariant.{IsValid, sync-IsValid, grab-IsValid, push-IsValid, get_or-within}

-- The clauses of the bag that a thread has not seen yet.
abbrev pub pending : Bag → ℕ → List Clause
pending b thread = drop (get_or b.last_seen thread 0) b.deque

min_element-le : (v : List ℕ) (i : ℕ) → i < length v → min_element v ≤ get_or v i 0
unfolding min_element
min_element-le [] i h = omega arith
min_element-le (n ∷ []) zero h = omega arith
min_element-le (n ∷ []) (suc i) h = absurd (omega arith)
min_element-le (n ∷ m ∷ v) zero h = omega arith
min_element-le (n ∷ m ∷ v) (suc i) h = omega (arith, min_element-le (m ∷ v) i)

get_or-sub : (v : List ℕ) (i m : ℕ) → get_or (map (λ s. s - m) v) i 0 ≡ get_or v i 0 - m
get_or-sub [] i m = omega arith
get_or-sub (s ∷ v) zero m = refl
get_or-sub (s ∷ v) (suc i) m = get_or-sub v i m

pending-clean : (b : Bag) (t : ℕ) → t < length b.last_seen → pending (clean b) t ≡ pending b t
unfolding clean
pending-clean b t h = rw (get_or-sub b.last_seen t (min_element b.last_seen)) (
    drop-drop (min_element b.last_seen) (get_or b.last_seen t 0) b.deque
      (min_element-le b.last_seen t h))

abbrev IsCaughtUp : Bag → ℕ → Type 0
IsCaughtUp b t = get_or b.last_seen t 0 ≡ length b.deque

grab-IsCaughtUp :
    {workers : ℕ} (b : Bag) (t : ℕ) → IsValid workers b → t < workers → IsCaughtUp (grab b t).1 t
unfolding grab
grab-IsCaughtUp b t v h =
    get_or-set_self b.last_seen t _ 0 (rw v.threads h)
    ∙ omega (
      arith,
      length-drop (get_or b.last_seen t 0) b.deque,
      get_or-within b.last_seen t (length b.deque) v.within,
    )

push-IsCaughtUp :
    (b : Bag) (cs : List Clause) (t : ℕ)
    → t < length b.last_seen
    → IsCaughtUp b t
    → IsCaughtUp (push b cs t) t
unfolding push
push-IsCaughtUp b cs t h c =
    get_or-set_self b.last_seen t _ 0 h ∙ omega (arith, c, length-append b.deque cs)

pending-grab_other : (b : Bag) (t u : ℕ) → u ≢ t → pending (grab b u).1 t ≡ pending b t
unfolding grab
pending-grab_other b t u n = rw (get_or-set_ne b.last_seen u t _ 0 n)

pending-push_other :
    {workers : ℕ} (b : Bag) (cs : List Clause) (t u : ℕ)
    → u ≢ t
    → IsValid workers b
    → pending (push b cs u) t ≡ pending b t ++ cs
unfolding push
pending-push_other b cs t u n v = rw (get_or-set_ne b.last_seen u t _ 0 n) (
    drop-append (get_or b.last_seen t 0) b.deque cs
      (get_or-within b.last_seen t (length b.deque) v.within))

-- What one call returns and leaves pending, for its own thread and for another one.
pub record Synced (b : Bag) (cs : List Clause) (t u : ℕ) (r : List Clause × Bag) : Type 0 where
  pub given : r.0 ≡ pending b u
  pub own : u ≡ t → pending r.1 t ≡ []
  pub other : u ≢ t → pending r.1 t ≡ pending b t ++ cs

-- Both branches of the call end in `clean`, which keeps what is pending.
cleaned :
    {workers : ℕ} (b b' : Bag) (cs : List Clause) (t u : ℕ)
    → IsValid workers b'
    → t < workers
    → (u ≡ t → IsCaughtUp b' t)
    → (u ≢ t → pending b' t ≡ pending b t ++ cs)
    → Synced b cs t u (pending b u, clean b')
cleaned b b' cs t u v h own other =
    let same = pending-clean b' t (rw v.threads h) in
    record {
      given = refl;
      own = λ e. same ∙ drop_all _ b'.deque (omega (arith, own e));
      other = λ n. same ∙ other n;
    }

sync-Synced :
    {workers : ℕ} (b : Bag) (count : ℕ) (cs : List Clause) (t u : ℕ)
    → IsValid workers b
    → t < workers
    → Synced b cs t u (sync_shared_clauses b count cs u)
unfolding sync_shared_clauses
sync-Synced b count [] t u v h =
    let b0 = count_sync b count [] u in
    let v0 : IsValid _ b0 = record { within = v.within; threads = v.threads } in
    cleaned b (grab b0 u).1 [] t u (grab-IsValid b0 u v0) h
      (λ e. subst (λ w. IsCaughtUp (grab b0 w).1 t) (sym e) (grab-IsCaughtUp b0 t v0 h))
      (λ n. pending-grab_other b0 t u n ∙ sym (append-nil (pending b t)))
sync-Synced b count (c ∷ cs) t u v h =
    let b0 = count_sync b count (c ∷ cs) u in
    let v0 : IsValid _ b0 = record { within = v.within; threads = v.threads } in
    let v1 = grab-IsValid b0 u v0 in
    cleaned b (push (grab b0 u).1 (c ∷ cs) u) (c ∷ cs) t u (push-IsValid _ (c ∷ cs) u v1) h
      (λ e.
        subst (λ w. IsCaughtUp (push (grab b0 w).1 (c ∷ cs) w) t) (sym e)
          (push-IsCaughtUp (grab b0 t).1 (c ∷ cs) t (rw (grab-IsValid b0 t v0).threads h)
            (grab-IsCaughtUp b0 t v0 h)))
      (λ n.
        pending-push_other (grab b0 u).1 (c ∷ cs) t u n v1
        ∙ ap (λ p. p ++ c ∷ cs) (pending-grab_other b0 t u n))

-- A call of `syncSharedClauses`.
pub record Sync : Type 0 where
  pub thread : ℕ
  pub unfiltered_count : ℕ
  pub clauses : List Clause

pub after : Bag → List Sync → Bag
after b [] = b
after b (s ∷ ss) = after (sync_shared_clauses b s.unfiltered_count s.clauses s.thread).1 ss

-- What the calls of a thread return, one after the other.
pub delivered : ℕ → Bag → List Sync → List Clause
delivered t b [] = []
delivered t b (s ∷ ss) =
    let r = sync_shared_clauses b s.unfiltered_count s.clauses s.thread in
    let rest = delivered t r.1 ss in if s.thread == t then r.0 ++ rest else rest

-- What the calls of the other threads offer, one after the other.
pub offered_by_others : ℕ → List Sync → List Clause
offered_by_others t [] = []
offered_by_others t (s ∷ ss) =
    let rest = offered_by_others t ss in if s.thread == t then rest else s.clauses ++ rest

-- Over any schedule of calls on a valid bag, what a worker is given, followed by what is still
-- pending for it, is what was pending before, followed by what the other threads offer, each clause
-- once and in the order of the offers.
pub delivered-pending :
    {workers : ℕ} (t : ℕ) (b : Bag) (ss : List Sync)
    → IsValid workers b
    → t < workers
    → delivered t b ss ++ pending (after b ss) t ≡ pending b t ++ offered_by_others t ss
unfolding delivered after offered_by_others
delivered-pending t b [] v h = sym (append-nil (pending b t))
delivered-pending t b (s ∷ ss) v h =
    let r = sync_shared_clauses b s.unfiltered_count s.clauses s.thread in
    let step = sync-Synced b s.unfiltered_count s.clauses t s.thread v h in
    let rest =
      delivered-pending t r.1 ss (sync-IsValid b s.unfiltered_count s.clauses s.thread v) h in
    elim (Bool-cases (s.thread == t)) [
      | inl e ↦
          let same = (==_iff s.thread t).0 e in
          rw (e, append_assoc r.0, rest, step.own same, step.given, same)
      | inr e ↦
          let n : s.thread ≢ t = λ same. cc ((==_iff s.thread t).1 same) in
          rw (e, rest, step.other n, append_assoc (pending b t))
    ]
