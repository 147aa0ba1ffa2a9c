-- ===== src/StdSet/Laws.antt =====
-- What `std::set::insert` does to the elements and to their order.
use dmeic.Prelude.{true, false, ◌≡◌, refl, ◌⊎◌, inl, inr, List, [], ◌∷◌, arith, In, All}
use dmeic.StdSet.{Ordered, insert}

module _ {E : Type 0} ⦃o : Ordered E⦄ where
  pub In-insert_self : (x : E) (s : List E) → In x (insert x s).0
  unfolding insert
  In-insert_self x [] = inl refl
  In-insert_self x (y ∷ s) = ground (arith, In-insert_self x s, o.connex x y)

  pub In-insert_old : (x : E) (s : List E) (a : E) → In a s → In a (insert x s).0
  unfolding insert
  In-insert_old x [] a m = elim m [ ]
  In-insert_old x (y ∷ s) a (inl e) = ground (arith, o.connex x y)
  In-insert_old x (y ∷ s) a (inr m) = ground (arith, In-insert_old x s a m)

  pub In-insert_cases : (x : E) (s : List E) (a : E) → In a (insert x s).0 → (a ≡ x) ⊎ In a s
  unfolding insert
  In-insert_cases x [] a m = m
  In-insert_cases x (y ∷ s) a m = ground (arith, In-insert_cases x s a)

  -- The flag is false exactly when the set holds the element, and then nothing changes.
  pub insert-old : (x : E) (s : List E) → (insert x s).1 ≡ false → In x s × ((insert x s).0 ≡ s)
  unfolding insert
  insert-old x [] h = cc
  insert-old x (y ∷ s) h = ground (arith, insert-old x s, o.connex x y)

  -- Ascending, so that no element stands twice.
  abbrev pub IsAscending : List E → Type 0
  IsAscending [] = Unit
  IsAscending (x ∷ s) = All (λ y. o.before x y ≡ true) s × IsAscending s

  insert-above :
      (x z : E) (s : List E)
      → o.before z x ≡ true
      → All (λ y. o.before z y ≡ true) s
      → All (λ y. o.before z y ≡ true) (insert x s).0
  unfolding insert
  insert-above x z [] h k = (h, tt)
  insert-above x z (y ∷ s) h k = ground (arith, insert-above x z s)

  above_trans :
      (x y : E) (s : List E)
      → o.before x y ≡ true
      → All (λ z. o.before y z ≡ true) s
      → All (λ z. o.before x z ≡ true) s
  above_trans x y [] h k = tt
  above_trans x y (z ∷ s) h k = (o.trans x y z h k.0, above_trans x y s h k.1)

  pub insert-IsAscending : (x : E) (s : List E) → IsAscending s → IsAscending (insert x s).0
  unfolding insert
  insert-IsAscending x [] h = (tt, tt)
  insert-IsAscending x (y ∷ s) h =
      ground (arith, insert-IsAscending x s, insert-above x y s, above_trans x y s)

  not_above : (x : E) (s : List E) → All (λ y. o.before x y ≡ true) s → In x s → ⊥
  not_above x (y ∷ s) h (inl e) = ground (arith, o.irrefl x)
  not_above x (y ∷ s) h (inr m) = not_above x s h.1 m
  not_above x [] h m = m

  -- In an ascending list the flag is true exactly when the element is new.
  pub insert-new : (x : E) (s : List E) → IsAscending s → (insert x s).1 ≡ true → In x s → ⊥
  unfolding insert
  insert-new x [] h k m = m
  insert-new x (y ∷ s) h k m =
      ground (arith, insert-new x s, not_above x s, above_trans x y s, o.irrefl x)
