-- ===== src/WaitingList/Best/Greatest.antt =====
-- The last element of the vector of `List`, and the entries that `pop` and `insert` leave.
use mathlib.Core.List.{Perm}
use mathlib.Core.List.Perm
use dmeic.Prelude.{
  ℕ, zero, suc, ◌≡◌, refl, sym, subst, inl, inr, Bool, true, false, ◌||◌, List, [], ◌∷◌, some,
  arith, get_elem?, set, All, All-mono, Bool-cases,
}
use dmeic.Point.{YPoint}
use dmeic.StdSet
use dmeic.StdSet.{point_ordered}
use dmeic.WaitingList.Priority.{Entry, Order, less, less_irrefl, less_trans, not_less_trans}
use dmeic.WaitingList.Best.{Best, max_element, promote, pop, place, insert}

module _ (o : Order) where
  abbrev pub NotLess : Entry → Entry → Type 0
  NotLess a b = less o a b ≡ false

  -- No entry is greater than the one at the back.
  abbrev pub IsBest : List Entry → Type 0
  IsBest [] = Unit {0}
  IsBest (e ∷ l) = All (NotLess e) l

  NotLess-above : (a b c : Entry) → less o a b ≡ true → NotLess a c → NotLess b c
  NotLess-above a b c h k = ground (arith, less_trans o a b c)

  NotLess-back : (a b : Entry) → less o a b ≡ true → NotLess b a
  NotLess-back a b h = ground (arith, less_trans o a b a, less_irrefl o a)

  max_element-back :
      (e f : Entry) (l : List Entry)
      → less o (max_element o f l).1 e ≡ true
      → (max_element o e (f ∷ l)).1 ≡ e
  unfolding max_element
  max_element-back e f l h = rw h

  max_element-rest :
      (e f : Entry) (l : List Entry)
      → less o (max_element o f l).1 e ≡ false
      → (max_element o e (f ∷ l)).1 ≡ (max_element o f l).1
  unfolding max_element
  max_element-rest e f l h = rw h

  max_element-greatest : (e : Entry) (l : List Entry) → All (NotLess (max_element o e l).1) (e ∷ l)
  unfolding max_element
  max_element-greatest e [] = (less_irrefl o e, tt)
  max_element-greatest e (f ∷ l) =
      let m = (max_element o f l).1 in
      let ih = max_element-greatest f l in
      elim (Bool-cases (less o m e)) [
        | inl h ↦
            subst (λ c. All (NotLess c) (e ∷ f ∷ l)) (sym (max_element-back e f l h))
              (
                less_irrefl o e,
                All-mono (NotLess m) (NotLess e) (f ∷ l) (λ c k. NotLess-above m e c h k) ih,
              )
        | inr h ↦ subst (λ c. All (NotLess c) (e ∷ f ∷ l)) (sym (max_element-rest e f l h)) (h, ih)
      ]

  max_element-place :
      (e : Entry) (l : List Entry)
      → get_elem? (e ∷ l) (max_element o e l).0 ≡ some (max_element o e l).1
  unfolding max_element
  max_element-place e [] = refl
  max_element-place e (f ∷ l) = ground (arith, max_element-place f l)

  set-All :
      (P : Entry → Type 0) (l : List Entry) (i : ℕ) (e : Entry) → P e → All P l → All P (set l i e)
  set-All P [] i e h k = tt
  set-All P (x ∷ l) zero e h k = (h, k.1)
  set-All P (x ∷ l) (suc i) e h k = (k.0, set-All P l i e h k.1)

  swap-perm :
      (e m : Entry) (l : List Entry) (i : ℕ) → get_elem? l i ≡ some m → Perm (m ∷ set l i e) (e ∷ l)
  swap-perm e m [] i h = absurd (ground arith)
  swap-perm e m (x ∷ l) zero h = let same : x ≡ m = ground arith in rw same (Perm.swap _ _ l)
  swap-perm e m (x ∷ l) (suc i) h =
      Perm.trans (Perm.swap _ _ (set l i e))
        (Perm.trans (Perm.cons x (swap-perm e m l i h)) (Perm.swap _ _ l))

  -- The swap in the form that does not depend on the place of the greatest element.
  promote_cases :
      (e : Entry) (l : List Entry) → IsBest (promote o (e ∷ l)) × Perm (promote o (e ∷ l)) (e ∷ l)
  unfolding promote
  promote_cases e l =
      go (max_element o e l).0 (max_element o e l).1 (max_element-greatest e l)
        (max_element-place e l)
    where
      go :
          (i : ℕ) (m : Entry)
          → All (NotLess m) (e ∷ l)
          → get_elem? (e ∷ l) i ≡ some m
          → IsBest (set (m ∷ l) i e) × Perm (set (m ∷ l) i e) (e ∷ l)
      go zero m h k =
          let same : e ≡ m = ground arith in
          (subst (λ c. All (NotLess c) l) (sym same) h.1, Perm.refl (e ∷ l))
      go (suc i) m h k = (set-All (NotLess m) l i e h.0 h.1, swap-perm e m l i k)

  pub promote-IsBest : (l : List Entry) → IsBest (promote o l) × Perm (promote o l) l
  unfolding promote
  promote-IsBest [] = (tt, Perm.refl [])
  promote-IsBest (e ∷ l) = promote_cases e l

  pub place-IsBest : (e : Entry) (l : List Entry) → IsBest l → IsBest (place o e l)
  unfolding place
  place-IsBest e [] h = tt
  place-IsBest e (f ∷ l) h = elim (Bool-cases (less o e f)) [
    | inl k ↦ rw k (NotLess-back e f k, h)
    | inr k ↦ rw k (k, All-mono _ _ l (λ c q. not_less_trans o e f c k q) h)
  ]

  pub place-perm : (e : Entry) (l : List Entry) → Perm (place o e l) (e ∷ l)
  unfolding place
  place-perm e [] = Perm.refl (e ∷ [])
  place-perm e (f ∷ l) = elim (Bool-cases (less o e f)) [
    | inl k ↦ rw k (Perm.swap _ _ l)
    | inr k ↦ rw k (Perm.refl (e ∷ f ∷ l))
  ]

  All-get_elem? :
      (P : Entry → Type 0) (l : List Entry) (i : ℕ) (m : Entry)
      → get_elem? l i ≡ some m
      → All P l
      → P m
  All-get_elem? P [] i m h k = absurd (ground arith)
  All-get_elem? P (x ∷ l) zero m h k = let same : x ≡ m = ground arith in subst P same k.0
  All-get_elem? P (x ∷ l) (suc i) m h k = All-get_elem? P l i m h k.1

  promote-All : (P : Entry → Type 0) (l : List Entry) → All P l → All P (promote o l)
  unfolding promote
  promote-All P [] h = tt
  promote-All P (e ∷ l) h =
      let m = (max_element o e l).1 in
      set-All P (m ∷ l) (max_element o e l).0 e h.0
        (All-get_elem? P (e ∷ l) (max_element o e l).0 m (max_element-place e l) h, h.1)

  -- `pop` of a list that is not empty and whose last entry is greatest gives the point of that entry,
  -- and leaves the other entries, each as often as before, none greater than it, with a greatest one
  -- last again.
  pub pop-greatest :
      (b : Best) (e : Entry) (rest : List Entry)
      → b.list ≡ e ∷ rest
      → IsBest b.list
      → (b' : Best) × (pop o b ≡ some (e.point, b'))
        × All (NotLess e) b'.list
        × IsBest b'.list
        × Perm b'.list rest
  unfolding pop
  pop-greatest b e rest shape h =
      let best : All (NotLess e) rest = subst IsBest shape h in
      (
        record b { list = promote o rest; popped = e.point; popped_count = e.count },
        rw shape,
        promote-All (NotLess e) rest best,
        (promote-IsBest rest).0,
        (promote-IsBest rest).1,
      )

  -- `insert` into a list whose last entry is greatest leaves such a list. It adds exactly the new
  -- entry when the point is forced or was never inserted, and else leaves the list alone.
  pub insert-IsBest :
      (b : Best) (p : YPoint) (force : Bool) (note : ℕ)
      → IsBest b.list
      → IsBest (insert o b p force note).list
        × (((StdSet.insert p b.set).1 || force) ≡ true
            → Perm (insert o b p force note).list (record { point = p; count = note } ∷ b.list))
        × (((StdSet.insert p b.set).1 || force) ≡ false → (insert o b p force note).list ≡ b.list)
  unfolding insert
  insert-IsBest b p force note h =
      let e : Entry = record { point = p; count = note } in
      elim (Bool-cases ((StdSet.insert p b.set).1 || force)) [
        | inl k ↦ rw k (place-IsBest e b.list h, (λ _. place-perm e b.list), λ q. cc)
        | inr k ↦ rw k (h, (λ q. cc), λ _. refl)
      ]
