-- ===== src/Formula/Card.antt =====
-- The class `Card` of FormulaPB.h, whose constructor turns a constraint that is at least into one
-- that is at most. Printing is left out.
use dmeic.Prelude.{
  ◌+◌, ◌≡◌, ◌↔◌, Bool, true, false, not, List, [], ◌∷◌, map, length, if◌then◌else◌, arith,
  Bool-cases, inl, inr,
}
use dmeic.Prelude.Int.{ℤ, pos, ◌-ℤ◌, ◌≤ℤ◌, -ℤ_parts}
use dmeic.Encoding.Solver.{Lit, Assignment, lit_true, neg, count_true}

pub record Card : Type 0 where
  pub lits : List Lit
  pub rhs : ℤ

-- `Card(lits, rhs, sign)`; the `int` that counts the literals is at most their number, an `int` too.
unfoldable pub new_card : List Lit → ℤ → Bool → Card
new_card lits rhs sign =
    if sign
    then record { lits = map neg lits; rhs = pos (length lits) -ℤ rhs }
    else record { lits = lits; rhs = rhs }

count_true-neg :
    (σ : Assignment) (ls : List Lit) → count_true σ (map neg ls) + count_true σ ls ≡ length ls
unfolding count_true
count_true-neg σ [] = omega arith
count_true-neg σ (l ∷ ls) =
    let flip : lit_true σ (neg l) ≡ not (lit_true σ l) = ground arith in
    elim (Bool-cases (lit_true σ l)) [
      | inl e ↦ rw (flip, e) (omega (arith, count_true-neg σ ls))
      | inr e ↦ rw (flip, e) (omega (arith, count_true-neg σ ls))
    ]

-- The constraint that `Card(lits, rhs, sign)` keeps, that at most so many of its literals are true,
-- says of `lits` that at least `rhs` of them are true where `sign` is set, and that at most `rhs` are
-- where it is not.
pub new_card_lem :
    (σ : Assignment) (lits : List Lit) (rhs : ℤ) (sign : Bool)
    → let card = new_card lits rhs sign in
      (pos (count_true σ card.lits) ≤ℤ card.rhs)
      ↔ (if sign then rhs ≤ℤ pos (count_true σ lits) else pos (count_true σ lits) ≤ℤ rhs)
unfolding new_card
new_card_lem σ lits rhs false = ((λ h. h), (λ h. h))
new_card_lem σ lits rhs true =
    let n = count_true-neg σ lits in
    let d = -ℤ_parts (pos (length lits)) rhs in ((λ h. omega arith), (λ h. omega arith))
