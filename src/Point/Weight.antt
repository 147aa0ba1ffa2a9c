-- ===== src/Point/Weight.antt =====
-- The weight of a point, for recursion along strict dominance.
use dmeic.Prelude.{ℕ, suc, ◌+◌, ◌<◌, ◌≤◌, ◌≡◌, true, false, [], ◌∷◌, arith}
use dmeic.Point.{YPoint, dominates}
use dmeic.Point.Order.{dominates_trans}

pub weight : YPoint → ℕ
weight [] = 0
weight (a ∷ p) = a + suc (weight p)

abbrev pub Strict : YPoint → YPoint → Type 0
Strict p q = (dominates p q ≡ true) × (dominates q p ≡ false)

pub weight-le : (p q : YPoint) → dominates p q ≡ true → weight p ≤ weight q
unfolding weight dominates
weight-le [] q h = omega arith
weight-le (a ∷ p) [] h = cc
weight-le (a ∷ p) (b ∷ q) h = ground (arith, weight-le p q)

pub weight-lt : (p q : YPoint) → Strict p q → weight p < weight q
unfolding weight dominates
weight-lt [] [] h = ground arith
weight-lt [] (b ∷ q) h = omega arith
weight-lt (a ∷ p) [] h = ground arith
weight-lt (a ∷ p) (b ∷ q) h = ground (arith, weight-lt p q, weight-le p q)

pub Strict-trans : (p q r : YPoint) → dominates p q ≡ true → Strict q r → Strict p r
Strict-trans p q r h k = ground (arith, dominates_trans p q r, dominates_trans r p q)
