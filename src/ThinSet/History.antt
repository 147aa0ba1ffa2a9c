-- ===== src/ThinSet/History.antt =====
-- Results of `safe_insert`, and of a history of calls on a set that is empty at first.
use dmeic.Prelude.{
  Bool, true, ◌≡◌, refl, subst, ◌⊎◌, inl, inr, ◌↔◌, List, [], ◌∷◌, arith, In, All, Any-witness,
  Bool-cases,
}
use dmeic.Point.{YPoint}
use dmeic.StdSet.{Ordered, point_ordered}
use dmeic.StdSet.Laws.{insert-old}
use dmeic.ThinSet.{dominates_by, scan, safe_insert, inserts}
use dmeic.ThinSet.Scan.{by_refl, by_trans, by_antisymm, NotBelow, scan-In}
use dmeic.ThinSet.Frontier.{
  IsThin, Covers, safe_insert-In, safe_insert_self, safe_insert-Covers, safe_insert-IsThin,
}

module _ {E : Type 0} ⦃o : Ordered E⦄ (polarity : Bool) (key : E → YPoint) where
  scan-ended-All :
      (x : E) (s : List E)
      → (scan polarity key x s).1 ≡ true
      → All (λ y. NotBelow polarity key y x) s
  unfolding scan
  scan-ended-All x [] h = tt
  scan-ended-All x (y ∷ s) h = ground (arith, scan-ended-All x s)

  All-scan-ended :
      (x : E) (s : List E)
      → All (λ y. NotBelow polarity key y x) s
      → (scan polarity key x s).1 ≡ true
  unfolding scan
  All-scan-ended x [] h = refl
  All-scan-ended x (y ∷ s) h = ground (arith, All-scan-ended x s h.1)

  not-In_of_All : (x : E) (s : List E) → All (λ y. NotBelow polarity key y x) s → In x s → ⊥
  not-In_of_All x (y ∷ s) h (inl e) = ground (arith, by_refl polarity (key x))
  not-In_of_All x (y ∷ s) h (inr m) = not-In_of_All x s h.1 m
  not-In_of_All x [] h m = m

  -- `safe_insert` returns true exactly when no element of the set dominates the new one.
  pub safe_insert-flag :
      (x : E) (s : List E)
      → ((safe_insert polarity key x s).1 ≡ true) ↔ All (λ y. NotBelow polarity key y x) s
  unfolding safe_insert
  safe_insert-flag x s = (
    λ h. elim (Bool-cases (scan polarity key x s).1) [
      | inl e ↦ scan-ended-All x s e
      | inr e ↦ absurd (ground arith)
    ],
    λ h.
        let ended = All-scan-ended x s h in
        ground (
          arith,
          insert-old x (scan polarity key x s).0,
          scan-In polarity key x s x,
          not-In_of_All x s h,
        ),
  )

  pub inserts-In : (xs s : List E) (a : E) → In a (inserts polarity key xs s) → In a xs ⊎ In a s
  unfolding inserts
  inserts-In [] s a m = inr m
  inserts-In (x ∷ xs) s a m =
      ground
        (arith, inserts-In xs (safe_insert polarity key x s).0 a, safe_insert-In polarity key x s a)

  inserts-kept :
      (xs s : List E) (b : E)
      → Covers polarity key s b
      → Covers polarity key (inserts polarity key xs s) b
  unfolding inserts
  inserts-kept [] s b h = h
  inserts-kept (x ∷ xs) s b h = inserts-kept xs _ b (safe_insert-Covers polarity key x s b h)

  -- After any history of calls of `safe_insert`, each offered element is dominated by one of the set.
  pub inserts-Covers :
      (xs s : List E) (b : E) → In b xs → Covers polarity key (inserts polarity key xs s) b
  unfolding inserts
  inserts-Covers [] s b m = elim m [ ]
  inserts-Covers (x ∷ xs) s b (inl e) =
      rw e (inserts-kept xs _ x (safe_insert_self polarity key x s))
  inserts-Covers (x ∷ xs) s b (inr m) = inserts-Covers xs _ b m

  pub inserts-IsThin :
      (xs s : List E) → IsThin polarity key s → IsThin polarity key (inserts polarity key xs s)
  unfolding inserts
  inserts-IsThin [] s thin = thin
  inserts-IsThin (x ∷ xs) s thin = inserts-IsThin xs _ (safe_insert-IsThin polarity key x s thin)

-- A set of points after the calls `safe_insert(x)` for the points of a list, in its order.
pub thin_inserts : Bool → List YPoint → List YPoint
thin_inserts polarity xs = inserts polarity (λ p. p) xs []

abbrev pub IsMinimal : Bool → List YPoint → YPoint → Type 0
IsMinimal polarity xs p =
    In p xs × ((q : YPoint) → In q xs → dominates_by polarity q p ≡ true → q ≡ p)

-- The points of a `ThinSet` after any history of calls are exactly the minimal ones of those
-- offered, whatever their order.
pub thin_inserts-frontier :
    (polarity : Bool) (xs : List YPoint) (p : YPoint)
    → In p (thin_inserts polarity xs) ↔ IsMinimal polarity xs p
unfolding thin_inserts
thin_inserts-frontier polarity xs p = (
  λ m. (from_xs m, λ q mq h. by_antisymm polarity q p h (back m q mq h)),
  λ h.
      let (a, m, k) = Any-witness _ _ (inserts-Covers polarity (λ p. p) xs [] p h.0) in
      subst (λ t. In t (inserts polarity (λ p. p) xs [])) (h.1 a (offered a m) k) m,
)
  where
    thin : IsThin polarity (λ p. p) (inserts polarity (λ p. p) xs [])
    thin = inserts-IsThin polarity (λ p. p) xs [] (λ a b m. elim m [ ])

    offered : (a : YPoint) → In a (inserts polarity (λ p. p) xs []) → In a xs
    offered a m = ground (arith, inserts-In polarity (λ (p : YPoint). p) xs [] a m)

    from_xs : In p (inserts polarity (λ p. p) xs []) → In p xs
    from_xs m = offered p m

    back :
        In p (inserts polarity (λ p. p) xs [])
        → (q : YPoint) → In q xs
        → dominates_by polarity q p ≡ true
        → dominates_by polarity p q ≡ true
    back m q mq h =
        let (a, ma, k) = Any-witness _ _ (inserts-Covers polarity (λ p. p) xs [] q mq) in
        let same : a ≡ p = thin a p ma m (by_trans polarity a q p k h) in
        subst (λ t. dominates_by polarity t q ≡ true) same k
