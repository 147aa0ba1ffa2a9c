-- ===== src/Point/Dominator.antt =====
-- `pareto::dominator` (Pareto.cc), on the points of a solution.
use dmeic.Prelude.{
  ℕ, ◌≡◌, refl, true, List, [], ◌∷◌, if◌then◌else◌, ltb, length, replicate, All, All-mono, arith,
}
use dmeic.Point.{YPoint, dominates}
use dmeic.Point.Order.{dominates_refl, dominates_trans}

-- The inner loop; each point has `nObj` coordinates.
unfoldable pub lower : YPoint → YPoint → YPoint
lower [] q = []
lower (a ∷ p) [] = a ∷ p
lower (a ∷ p) (b ∷ q) = (if ltb b a then b else a) ∷ lower p q

unfoldable pub lower_all : YPoint → List YPoint → YPoint
unfolding lower
lower_all p [] = p
lower_all p (q ∷ qs) = lower_all (lower p q) qs

-- The points of a solution, of `n_obj` coordinates each, in the order of its iterator.
unfoldable pub dominator : ℕ → List YPoint → YPoint
unfolding lower_all
dominator n_obj [] = replicate n_obj 0
dominator n_obj (p ∷ ps) = lower_all p (p ∷ ps)

lower-dominates :
    (p q : YPoint)
    → length p ≡ length q
    → (length (lower p q) ≡ length q)
      × (dominates (lower p q) p ≡ true)
      × (dominates (lower p q) q ≡ true)
unfolding lower dominates
lower-dominates [] [] h = (refl, refl, refl)
lower-dominates [] (b ∷ q) h = absurd (omega arith)
lower-dominates (a ∷ p) [] h = absurd (omega arith)
lower-dominates (a ∷ p) (b ∷ q) h = ground (arith, lower-dominates p q)

lower-greatest :
    (r p q : YPoint) → dominates r p ≡ true → dominates r q ≡ true → dominates r (lower p q) ≡ true
unfolding lower dominates
lower-greatest [] p q h k = refl
lower-greatest (c ∷ r) [] q h k = cc
lower-greatest (c ∷ r) (a ∷ p) [] h k = cc
lower-greatest (c ∷ r) (a ∷ p) (b ∷ q) h k = ground (arith, lower-greatest r p q)

lower_all-dominates :
    (p : YPoint) (qs : List YPoint)
    → All (λ q. length q ≡ length p) qs
    → (dominates (lower_all p qs) p ≡ true) × All (λ q. dominates (lower_all p qs) q ≡ true) qs
unfolding lower_all
lower_all-dominates p [] h = (dominates_refl p, tt)
lower_all-dominates p (q ∷ qs) h =
    let (size, at_p, at_q) = lower-dominates p q (omega (arith, h.0)) in
    let (first, rest) =
      lower_all-dominates (lower p q) qs
        (All-mono _ _ qs (λ r e. omega (arith, e, size, h.0)) h.1) in
    (dominates_trans _ (lower p q) p first at_p, (dominates_trans _ (lower p q) q first at_q, rest))

lower_all-greatest :
    (r p : YPoint) (qs : List YPoint)
    → dominates r p ≡ true
    → All (λ q. dominates r q ≡ true) qs
    → dominates r (lower_all p qs) ≡ true
unfolding lower_all
lower_all-greatest r p [] h k = h
lower_all-greatest r p (q ∷ qs) h k =
    lower_all-greatest r (lower p q) qs (lower-greatest r p q h k.0) k.1

-- `dominator` of a solution that is not empty, whose points have the same number of coordinates,
-- dominates each of its points, and is dominated by each point that does so.
pub dominator-greatest :
    (n_obj : ℕ) (p : YPoint) (ps : List YPoint)
    → All (λ q. length q ≡ length p) ps
    → All (λ q. dominates (dominator n_obj (p ∷ ps)) q ≡ true) (p ∷ ps)
      × ((r : YPoint)
          → All (λ q. dominates r q ≡ true) (p ∷ ps)
          → dominates r (dominator n_obj (p ∷ ps)) ≡ true)
unfolding dominator
dominator-greatest n_obj p ps h =
    ((lower_all-dominates p (p ∷ ps) (refl, h)).1, λ r k. lower_all-greatest r p (p ∷ ps) k.0 k)
