-- ===== src/Search/Solution/Front.antt =====
-- What `Solution::pushSafe` (MaxSAT.cc) keeps of the points.
use dmeic.Prelude.{
  suc, ◌≡◌, ◌⊎◌, inl, inr, refl, subst, Bool, true, false, List, [], ◌∷◌, ◌++◌, arith, All, All-In,
  All-of_In, All-append, All-erase_if, Any, Any-mono, Any-witness, Any_of_In, Any-append_left,
  Any-append_right, Pairwise, Pairwise-erase_if, In, In-erase_if, some, In-of_erase_if,
  In-append_cases, any_of-true, any_of-false, Bool-cases, erase_if,
}
use dmeic.Prelude.Int.{ℤ}
use dmeic.Point.{YPoint, dominates, equal}
use dmeic.Point.Order.{dominates_refl, dominates_trans, equal_iff}
use dmeic.Formula.Objective.{Model}
use dmeic.Search.Solution.{
  Entry, Solution, push, push_safe, drop_beaten, insert_new, beats, is_beaten, last,
}

abbrev pub Apart : Entry → Entry → Type 0
Apart a b = (dominates a.point b.point ≡ false) × (dominates b.point a.point ≡ false)

-- No element dominates another one.
abbrev pub IsFront : List Entry → Type 0
IsFront es = Pairwise Apart es

abbrev pub Covers : List Entry → YPoint → Type 0
Covers es p = Any (λ e. dominates e.point p ≡ true) es

beaten-dominates : (p : YPoint) (e : Entry) → is_beaten p e ≡ true → dominates p e.point ≡ true
unfolding is_beaten
beaten-dominates p e h = ground (arith, h)

-- An element that stays and that `p` dominates has the point `p`.
stays : (p : YPoint) (e : Entry) → is_beaten p e ≡ false → dominates p e.point ≡ true → p ≡ e.point
unfolding is_beaten
stays p e h d = elim (Bool-cases (equal p e.point)) [
  | inl q ↦ (equal_iff p e.point).0 q
  | inr q ↦ let bad : true ≡ false = rw (q, d) at h in absurd (cc bad)
]

module _ (s : Solution) (m : Model) (p : YPoint) (notes : ℤ) where
  abbrev new_entry : Entry
  new_entry = record { id = s.next_id; model = m; point = p; notes = notes }

  abbrev kept : List Entry
  kept = erase_if (is_beaten p) s.mods

  -- The two ends of `pushSafe` with both tests.
  pub push_safe-cases :
      (P : Bool × Solution → Type 0)
      → (beats kept p ≡ true → P (false, record (drop_beaten p s) { barred = suc s.barred }))
      → (beats kept p ≡ false → P (true, push (drop_beaten p s) m p notes))
      → P (push_safe s m p notes true true)
  unfolding push_safe insert_new drop_beaten
  push_safe-cases P f g = elim (Bool-cases (beats kept p)) [
    | inl e ↦ rw e (f e)
    | inr e ↦ rw e (g e)
  ]

  fresh : beats kept p ≡ false → All (λ e. Apart e new_entry) kept
  unfolding beats
  fresh h =
      All-of_In (λ e. Apart e new_entry) kept
        (λ e i.
          let out = All-In (λ a. dominates a.point p ≡ false) kept (any_of-false _ kept h) e i in
          let (_, b) = In-of_erase_if (is_beaten p) s.mods e i in
          (
            out,
            elim (Bool-cases (dominates p e.point)) [
              | inr q ↦ q
              | inl q ↦
                  let same = stays p e b q in
                  let bad : true ≡ false =
                    subst (λ t. t ≡ false)
                      (subst (λ t. dominates t p ≡ true) same (dominates_refl p)) out in
                  absurd (cc bad)
            ],
          ))

Pairwise-snoc :
    (R : Entry → Entry → Type 0) (xs : List Entry) (x : Entry)
    → Pairwise R xs
    → All (λ e. R e x) xs
    → Pairwise R (xs ++ x ∷ [])
Pairwise-snoc R [] x h k = (tt, tt)
Pairwise-snoc R (y ∷ xs) x h k =
    (All-append (R y) xs (x ∷ []) h.0 (k.0, tt), Pairwise-snoc R xs x h.1 k.1)

module _ (s : Solution) (m : Model) (p : YPoint) (notes : ℤ) where
  abbrev after : Bool × Solution
  after = push_safe s m p notes true true

  kept-Covers :
      (q : YPoint) → Covers s.mods q → Covers (kept s m p notes) q ⊎ (dominates p q ≡ true)
  kept-Covers q h =
      let (e, i, d) = Any-witness (λ e. dominates e.point q ≡ true) s.mods h in
      elim (Bool-cases (is_beaten p e)) [
        | inl b ↦ inr (dominates_trans p e.point q (beaten-dominates p e b) d)
        | inr b ↦ inl (
            Any_of_In (λ e. dominates e.point q ≡ true) (kept s m p notes) e
              (In-erase_if (is_beaten p) s.mods e i b) d)
      ]

  -- `pushSafe` keeps the solution free of dominated points; each point that was dominated still is,
  -- and so is the new one; each element is an old one or the new one.
  pub push_safe-IsFront :
      IsFront s.mods
      → IsFront after.1.mods
        × Covers after.1.mods p
        × ((q : YPoint) → Covers s.mods q → Covers after.1.mods q)
        × ((e : Entry) → In e after.1.mods → In e s.mods ⊎ (e ≡ new_entry s m p notes))
  unfolding push drop_beaten beats
  push_safe-IsFront front =
      push_safe-cases s m p notes
        (λ r.
          IsFront r.1.mods
          × Covers r.1.mods p
          × ((q : YPoint) → Covers s.mods q → Covers r.1.mods q)
          × ((e : Entry) → In e r.1.mods → In e s.mods ⊎ (e ≡ new_entry s m p notes)))
        (λ b.
          let here = any_of-true (λ e. dominates e.point p) old b in
          (
            old_front,
            here,
            λ q h. elim (kept-Covers q h) [
              | inl k ↦ k
              | inr d ↦ Any-mono _ _ old (λ e k. dominates_trans e.point p q k d) here
            ],
            λ e i. inl (In-of_erase_if (is_beaten p) s.mods e i).0,
          ))
        (λ b. (
          Pairwise-snoc Apart old (new_entry s m p notes) old_front (fresh s m p notes b),
          Any-append_right _ old one (inl (dominates_refl p)),
          λ q h. elim (kept-Covers q h) [
            | inl k ↦ Any-append_left _ old one k
            | inr d ↦ Any-append_right _ old one (inl d)
          ],
          λ e i. elim (In-append_cases old one e i) [
            | inl k ↦ inl (In-of_erase_if (is_beaten p) s.mods e k).0
            | inr (inl q) ↦ inr q
            | inr (inr z) ↦ elim z [ ]
          ],
        ))
    where
      old : List Entry
      old = kept s m p notes

      one : List Entry
      one = new_entry s m p notes ∷ []

      old_front : IsFront old
      old_front = Pairwise-erase_if Apart (is_beaten p) s.mods front

last-snoc : (xs : List Entry) (x : Entry) → last (xs ++ x ∷ []) ≡ some x
unfolding last
last-snoc [] x = refl
last-snoc (y ∷ []) x = refl
last-snoc (y ∷ z ∷ xs) x = last-snoc (z ∷ xs) x

-- A model whose point no element dominates gets in, as the last element.
pub push_safe-fresh :
    (s : Solution) (m : Model) (p : YPoint) (notes : ℤ)
    → All (λ e. dominates e.point p ≡ false) s.mods
    → let r = push_safe s m p notes true true in
      (r.0 ≡ true) × (last r.1.mods ≡ some (new_entry s m p notes))
unfolding push drop_beaten beats
push_safe-fresh s m p notes h =
    push_safe-cases s m p notes (λ r. (r.0 ≡ true) × (last r.1.mods ≡ some (new_entry s m p notes)))
      (λ b.
        let (e, i, d) =
          Any-witness (λ e. dominates e.point p ≡ true) (kept s m p notes)
            (any_of-true (λ e. dominates e.point p) (kept s m p notes) b) in
        let out =
          All-In (λ e. dominates e.point p ≡ false) (kept s m p notes)
            (All-erase_if (λ e. dominates e.point p ≡ false) (is_beaten p) s.mods h) e i in
        absurd (clash (dominates e.point p) d out))
      (λ _. (refl, last-snoc (kept s m p notes) (new_entry s m p notes)))
  where
    clash : (b : Bool) → b ≡ true → ¬ (b ≡ false)
    clash b t f = cc
