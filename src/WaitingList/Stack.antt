-- ===== src/WaitingList/Stack.antt =====
-- `Stack`: last in, first out, and `insertAndPrune`.
use dmeic.Prelude.{
  ℕ, ◌+◌, ◌≡◌, ◌⊎◌, inl, inr, Bool, true, false, not, ◌&&◌, ◌||◌, List, [], ◌∷◌, Option, none, some,
  arith, if◌then◌else◌, length, In, All, All-In, Any, Any_of_In, In-erase_if, In-of_erase_if,
  any_of, any_of-true, any_of-false, erase_if, max, Bool-cases, ◌-◌,
}
use dmeic.Point.{YPoint, dominates}
use dmeic.Point.Order.{dominates_refl}
use dmeic.StdSet
use dmeic.StdSet.{point_ordered}

-- The head of `stack` is the back of the vector.
pub record Stack : Type 0 where
  pub stack : List YPoint
  pub set : List YPoint
  pub max_size : ℕ
  pub popped : YPoint
  pub prune_insertions : ℕ
  pub engulfed_fences_discarded : ℕ
  pub pending_fences_pruned : ℕ

-- `none`: the back of an empty vector is undefined.
unfoldable pub pop : Stack → Option (YPoint × Stack)
pop s = elim s.stack [ [] ↦ none | p ∷ rest ↦ some (p, record s { stack = rest; popped = p }) ]

unfoldable pub insert : Stack → YPoint → Bool → Stack
insert s p force =
    let (set', fresh) = StdSet.insert p s.set in
    let stack' = p ∷ s.stack in
    if fresh || force
    then record s { stack = stack'; set = set'; max_size = max s.max_size (length stack') }
    else record s { set = set' }

unfoldable pub insert_and_prune : Stack → YPoint → Bool → Stack
insert_and_prune s p force =
    let (set', fresh) = StdSet.insert p s.set in
    let counted = record s { set = set'; prune_insertions = s.prune_insertions + 1 } in
    let engulfed = record counted { engulfed_fences_discarded = s.engulfed_fences_discarded + 1 } in
    let left = erase_if (λ q. dominates q p) s.stack in
    let pruned = record counted {
      stack = p ∷ left;
      pending_fences_pruned = s.pending_fences_pruned + (length s.stack - length left);
    } in
    if not force && not fresh
    then counted
    else if any_of (λ q. dominates p q) s.stack
    then engulfed
    else pruned

-- No point of the list dominates another one.
abbrev pub IsFence : List YPoint → Type 0
IsFence ps = (p q : YPoint) → In p ps → In q ps → dominates p q ≡ true → p ≡ q

-- What `insertAndPrune` leaves in the stack, on each of its three ways out.
prune_cases :
    (s : Stack) (p : YPoint) (force : Bool)
    → ((insert_and_prune s p force).stack ≡ s.stack)
        × (((StdSet.insert p s.set).1 || force) ≡ false)
      ⊎ ((insert_and_prune s p force).stack ≡ s.stack) × Any (λ q. dominates p q ≡ true) s.stack
      ⊎ ((insert_and_prune s p force).stack ≡ p ∷ erase_if (λ q. dominates q p) s.stack)
        × All (λ q. dominates p q ≡ false) s.stack
unfolding insert_and_prune
prune_cases s p force = elim (Bool-cases ((StdSet.insert p s.set).1 || force)) [
  | inr e ↦ inl (ground arith, e)
  | inl e ↦ elim (Bool-cases (any_of (λ q. dominates p q) s.stack)) [
    | inl a ↦ inr (inl (ground arith, any_of-true _ s.stack a))
    | inr a ↦ inr (inr (ground arith, any_of-false _ s.stack a))
  ]
]

abbrev pub Reaches : List YPoint → YPoint → Type 0
Reaches ps q = Any (λ r. dominates q r ≡ true) ps

IsFence-step :
    (ps : List YPoint) (p : YPoint)
    → IsFence ps
    → All (λ q. dominates p q ≡ false) ps
    → IsFence (p ∷ erase_if (λ q. dominates q p) ps)
IsFence-step ps p h apart a b (inl ea) (inl eb) d = rw (ea, eb)
IsFence-step ps p h apart a b (inl ea) (inr mb) d =
    let far = All-In _ ps apart b (In-of_erase_if _ ps b mb).0 in ground arith
IsFence-step ps p h apart a b (inr ma) (inl eb) d =
    let far = (In-of_erase_if (λ q. dominates q p) ps a ma).1 in ground arith
IsFence-step ps p h apart a b (inr ma) (inr mb) d =
    h a b (In-of_erase_if _ ps a ma).0 (In-of_erase_if _ ps b mb).0 d

Reaches-step :
    (ps : List YPoint) (p q : YPoint) → In q ps → Reaches (p ∷ erase_if (λ q. dominates q p) ps) q
Reaches-step ps p q m = elim (Bool-cases (dominates q p)) [
  | inl e ↦ inl e
  | inr e ↦ inr (Any_of_In _ _ q (In-erase_if (λ q. dominates q p) ps q m e) (dominates_refl q))
]

-- `insertAndPrune` keeps a stack free of dominance; each point that was pending dominates a point
-- that is pending afterwards, and so does the new point when it is forced or was never seen.
pub insert_and_prune-IsFence :
    (s : Stack) (p : YPoint) (force : Bool)
    → IsFence s.stack
    → let after = (insert_and_prune s p force).stack in
      IsFence after
      × ((q : YPoint) → In q s.stack → Reaches after q)
      × (((StdSet.insert p s.set).1 || force) ≡ true → Reaches after p)
insert_and_prune-IsFence s p force h = elim (prune_cases s p force) [
  | inl (same, skipped) ↦ rw same (h, λ q m. Any_of_In _ s.stack q m (dominates_refl q), λ e. cc)
  | inr (inl (same, engulfed)) ↦
      rw same (h, λ q m. Any_of_In _ s.stack q m (dominates_refl q), λ e. engulfed)
  | inr (inr (new, apart)) ↦
      rw new (IsFence-step s.stack p h apart, Reaches-step s.stack p, λ e. inl (dominates_refl p))
]
