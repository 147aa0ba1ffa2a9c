-- ===== src/ThinSet/Frontier.antt =====
-- The elements of a `ThinSet` or a `ThinGapSet` after a call of `safe_insert`.
use dmeic.Prelude.{
  Bool, ◌≡◌, ◌⊎◌, inl, inr, List, [], ◌∷◌, arith, In, Any, Any-witness, Any_of_In, Bool-cases,
}
use dmeic.Point.{YPoint}
use dmeic.StdSet.{Ordered, point_ordered}
use dmeic.StdSet.Laws.{In-insert_self, In-insert_old, In-insert_cases}
use dmeic.ThinSet.{scan, safe_insert}
use dmeic.ThinSet.Scan.{by_refl, by_trans, Below, scan-In, scan-dropped, scan-stopped, scan-ended}

module _ {E : Type 0} ⦃o : Ordered E⦄ (polarity : Bool) (key : E → YPoint) where
  -- No element dominates another one.
  abbrev pub IsThin : List E → Type 0
  IsThin s = (a b : E) → In a s → In b s → Below polarity key a b → a ≡ b

  abbrev pub Covers : List E → E → Type 0
  Covers s b = Any (λ a. Below polarity key a b) s

  pub safe_insert-In :
      (x : E) (s : List E) (a : E) → In a (safe_insert polarity key x s).0 → (a ≡ x) ⊎ In a s
  unfolding safe_insert
  safe_insert-In x s a m =
      ground (arith, scan-In polarity key x s a, In-insert_cases x (scan polarity key x s).0 a)

  -- The new element and whatever stood in the set is dominated by an element of the new set.
  pub safe_insert_self : (x : E) (s : List E) → Covers (safe_insert polarity key x s).0 x
  unfolding safe_insert
  safe_insert_self x s = elim (Bool-cases (scan polarity key x s).1) [
    | inl e ↦
        rw e
          (Any_of_In _ _ x (In-insert_self x (scan polarity key x s).0) (by_refl polarity (key x)))
    | inr e ↦ rw e (scan-stopped polarity key x s e)
  ]

  safe_insert-kept :
      (x : E) (s : List E) (a : E)
      → In a s
      → In a (safe_insert polarity key x s).0 ⊎ Below polarity key x a
  unfolding safe_insert
  safe_insert-kept x s a m =
      ground (arith, scan-dropped polarity key x s a m, In-insert_old x (scan polarity key x s).0 a)

  pub Covers-trans : (s : List E) (a b : E) → Covers s a → Below polarity key a b → Covers s b
  Covers-trans [] a b h k = h
  Covers-trans (y ∷ s) a b (inl h) k = inl (by_trans polarity (key y) (key a) (key b) h k)
  Covers-trans (y ∷ s) a b (inr h) k = inr (Covers-trans s a b h k)

  pub safe_insert-Covers :
      (x : E) (s : List E) (b : E) → Covers s b → Covers (safe_insert polarity key x s).0 b
  safe_insert-Covers x s b h =
      let (a, m, k) = Any-witness _ s h in
      elim (safe_insert-kept x s a m) [
        | inl n ↦ Any_of_In _ _ a n k
        | inr n ↦ Covers-trans _ a b (Covers-trans _ x a (safe_insert_self x s) n) k
      ]

  -- A call of `safe_insert` on a set in which no element dominates another one leaves such a set.
  pub safe_insert-IsThin : (x : E) (s : List E) → IsThin s → IsThin (safe_insert polarity key x s).0
  unfolding safe_insert
  safe_insert-IsThin x s thin a b ma mb h = elim (Bool-cases (scan polarity key x s).1) [
    | inl e ↦
        let rest = (scan polarity key x s).0 in
        ground (
          arith,
          In-insert_cases x rest a,
          In-insert_cases x rest b,
          scan-ended polarity key x s a e,
          scan-ended polarity key x s b e,
          scan-In polarity key x s a,
          scan-In polarity key x s b,
          thin a b,
        )
    | inr e ↦
        thin a b (scan-In polarity key x s a (rw e at ma)) (scan-In polarity key x s b (rw e at mb))
          h
  ]
