-- ===== src/Point/Order.antt =====
-- Weak dominance, and the order of `std::set` on points.
use dmeic.Prelude.{ℕ, zero, suc, ◌≡◌, refl, true, false, [], ◌∷◌, arith, length, ◌↔◌}
use dmeic.Point.{YPoint, dominates, wdominates, equal, less}

pub dominates_refl : (p : YPoint) → dominates p p ≡ true
unfolding dominates
dominates_refl [] = refl
dominates_refl (a ∷ p) = ground (arith, dominates_refl p)

pub dominates_trans :
    (p q r : YPoint) → dominates p q ≡ true → dominates q r ≡ true → dominates p r ≡ true
unfolding dominates
dominates_trans [] q r h k = refl
dominates_trans (a ∷ p) [] r h k = absurd (ground arith)
dominates_trans (a ∷ p) (b ∷ q) [] h k = k
dominates_trans (a ∷ p) (b ∷ q) (c ∷ r) h k = ground (arith, dominates_trans p q r)

pub dominates_antisymm : (p q : YPoint) → dominates p q ≡ true → dominates q p ≡ true → p ≡ q
unfolding dominates
dominates_antisymm [] [] h k = refl
dominates_antisymm [] (b ∷ q) h k = cc
dominates_antisymm (a ∷ p) [] h k = cc
dominates_antisymm (a ∷ p) (b ∷ q) h k = ground (arith, dominates_antisymm p q)

pub equal_iff : (p q : YPoint) → (equal p q ≡ true) ↔ (p ≡ q)
unfolding equal
equal_iff [] [] = (λ _. refl, λ _. refl)
equal_iff [] (b ∷ q) = (λ h. cc, λ h. cc)
equal_iff (a ∷ p) [] = (λ h. cc, λ h. cc)
equal_iff (a ∷ p) (b ∷ q) = (ground (arith, equal_iff p q), ground (arith, equal_iff p q))

pub less_irrefl : (p : YPoint) → less p p ≡ false
unfolding less
less_irrefl [] = refl
less_irrefl (a ∷ p) = ground (arith, less_irrefl p)

pub less_connex : (p q : YPoint) → less p q ≡ false → less q p ≡ false → p ≡ q
unfolding less
less_connex [] [] h k = refl
less_connex [] (b ∷ q) h k = cc
less_connex (a ∷ p) [] h k = cc
less_connex (a ∷ p) (b ∷ q) h k = ground (arith, less_connex p q)

pub less_trans : (p q r : YPoint) → less p q ≡ true → less q r ≡ true → less p r ≡ true
unfolding less
less_trans p q [] h k = k
less_trans [] q (c ∷ r) h k = refl
less_trans (a ∷ p) [] (c ∷ r) h k = cc
less_trans (a ∷ p) (b ∷ q) (c ∷ r) h k = ground (arith, less_trans p q r)

-- On arrays of `d` numbers the two tests of dominance are the same.
pub wdominates-eq-dominates :
    (p q : YPoint) (d : ℕ) → length p ≡ d → length q ≡ d → wdominates p q d ≡ dominates p q
unfolding wdominates dominates
wdominates-eq-dominates [] [] zero h k = refl
wdominates-eq-dominates [] (b ∷ q) d h k = absurd (omega arith)
wdominates-eq-dominates (a ∷ p) [] d h k = absurd (omega arith)
wdominates-eq-dominates [] [] (suc d) h k = absurd (omega arith)
wdominates-eq-dominates (a ∷ p) (b ∷ q) zero h k = absurd (omega arith)
wdominates-eq-dominates (a ∷ p) (b ∷ q) (suc d) h k = ground (arith, wdominates-eq-dominates p q d)
