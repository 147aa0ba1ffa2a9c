-- ===== src/ThinSet/Scan.antt =====
-- What the loop of `safe_insert` leaves in the set.
use dmeic.Prelude.{Bool, true, false, ◌≡◌, ◌⊎◌, inl, inr, List, [], ◌∷◌, arith, In, Any}
use dmeic.Point.{YPoint}
use dmeic.Point.Order.{dominates_refl, dominates_trans, dominates_antisymm}
use dmeic.ThinSet.{dominates_by, scan}

pub by_refl : (polarity : Bool) (p : YPoint) → dominates_by polarity p p ≡ true
unfolding dominates_by
by_refl true p = dominates_refl p
by_refl false p = dominates_refl p

pub by_trans :
    (polarity : Bool) (p q r : YPoint)
    → dominates_by polarity p q ≡ true
    → dominates_by polarity q r ≡ true
    → dominates_by polarity p r ≡ true
unfolding dominates_by
by_trans true p q r h k = dominates_trans r q p k h
by_trans false p q r h k = dominates_trans p q r h k

pub by_antisymm :
    (polarity : Bool) (p q : YPoint)
    → dominates_by polarity p q ≡ true
    → dominates_by polarity q p ≡ true
    → p ≡ q
unfolding dominates_by
by_antisymm true p q h k = dominates_antisymm p q k h
by_antisymm false p q h k = dominates_antisymm p q h k

module _ {E : Type 0} (polarity : Bool) (key : E → YPoint) where
  abbrev pub Below : E → E → Type 0
  Below a b = dominates_by polarity (key a) (key b) ≡ true

  abbrev pub NotBelow : E → E → Type 0
  NotBelow a b = dominates_by polarity (key a) (key b) ≡ false

  pub scan-In : (x : E) (s : List E) (a : E) → In a (scan polarity key x s).0 → In a s
  unfolding scan
  scan-In x [] a m = m
  scan-In x (y ∷ s) a m = ground (arith, scan-In x s a)

  -- An element that the loop drops is dominated by the new one.
  pub scan-dropped :
      (x : E) (s : List E) (a : E) → In a s → In a (scan polarity key x s).0 ⊎ Below x a
  unfolding scan
  scan-dropped x [] a m = inl m
  scan-dropped x (y ∷ s) a (inl e) = ground arith
  scan-dropped x (y ∷ s) a (inr m) = ground (arith, scan-dropped x s a m)

  -- The loop stops early at an element that dominates the new one, which stays.
  pub scan-stopped :
      (x : E) (s : List E)
      → (scan polarity key x s).1 ≡ false
      → Any (λ y. Below y x) (scan polarity key x s).0
  unfolding scan
  scan-stopped x [] h = cc
  scan-stopped x (y ∷ s) h = ground (arith, scan-stopped x s)

  -- When it comes to the end, nothing that is left is comparable with the new element.
  pub scan-ended :
      (x : E) (s : List E) (a : E)
      → (scan polarity key x s).1 ≡ true
      → In a (scan polarity key x s).0
      → NotBelow a x × NotBelow x a
  unfolding scan
  scan-ended x [] a h m = elim m [ ]
  scan-ended x (y ∷ s) a h m = ground (arith, scan-ended x s a)
