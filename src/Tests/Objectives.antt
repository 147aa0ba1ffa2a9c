-- ===== src/Tests/Objectives.antt =====
-- Concrete runs of the objective functions.
use dmeic.Prelude.{
  ℕ, ◌+◌, ◌*◌, ◌^◌, ◌≤◌, ◌<◌, ◌∣◌, ◌≡◌, refl, true, false, List, [], ◌∷◌, some, arith, All, inl,
  inr,
}
use dmeic.Prelude.Int.{pos, negsuc, ◌+ℤ◌, ◌≤ℤ◌}
use dmeic.Encoding.Solver.{neg}
use dmeic.Formula.Pb.{Term}
use dmeic.Formula.Objective.{
  Objective, Model, l_true, l_false, null_objective, objective, evaluate, denormalize, sum_terms,
  satisfied, coeffs, compute_sparse, answer, add, gather,
}
use dmeic.Formula.Pb.Meaning.{total}
use dmeic.Formula.Objective.Word.{IsInt64}
use dmeic.Formula.Objective.Factors.{common_factor, largest, product}
use dmeic.Formula.Objective.Factors.Gcd.{common_factor-gcd}
use dmeic.Formula.Objective.Values.{objective-evaluate}
use dmeic.Formula.Objective.Bounds.{IsWithin, objective-evaluate_le}
use dmeic.Formula.Objective.Sparse.{Attains, sum_of, compute_sparse-Attains}
use dmeic.Formula.Objective.Sum.{IsModest, add-evaluate}
use dmeic.Tests.Encodings.{x0, x1, x2}

abbrev weights : List Term
weights =
    record { coeff = 4; lit = x0 }
    ∷ record { coeff = 6; lit = neg x1 }
    ∷ record { coeff = 2; lit = x2 }
    ∷ []

abbrev yes_no_no : Model
yes_no_no = l_true ∷ l_false ∷ l_false ∷ []

abbrev scaled : Objective
scaled = record null_objective { shift_by = negsuc 4; factor = 3 }

enough : 1 ≤ largest (coeffs weights)
unfolding largest
enough = omega arith

small : largest (coeffs weights) < 2 ^ 53
unfolding largest
small = omega arith

fits_int : 3 * largest (coeffs weights) < 2 ^ 63
unfolding largest
fits_int = omega arith

fits_word : total weights * 3 < 2 ^ 64
unfolding total
fits_word = omega arith

enough_for_two : 2 ≤ largest (4 ∷ 6 ∷ 2 ∷ [])
unfolding largest
enough_for_two = omega arith

small_for_two : largest (4 ∷ 6 ∷ 2 ∷ []) < 2 ^ 53
unfolding largest
small_for_two = omega arith

common_factor-gcd_example :
    (g : ℕ) × (common_factor (4 ∷ 6 ∷ 2 ∷ []) ≡ some g)
    × All (λ c. g ∣ c) (4 ∷ 6 ∷ 2 ∷ [])
    × ((k : ℕ) → All (λ c. k ∣ c) (4 ∷ 6 ∷ 2 ∷ []) → k ∣ g)
common_factor-gcd_example = common_factor-gcd (4 ∷ 6 ∷ 2 ∷ []) enough_for_two small_for_two

-- The divisor of 4, 6 and 2 is 2.
common_factor_run : common_factor (4 ∷ 6 ∷ 2 ∷ []) ≡ some 2
unfolding common_factor
common_factor_run = refl

-- In `double` the divisor of 2 ^ 53 + 1 alone, the product of 3, 107 and 28059810762433, is 2 ^ 53.
rounded_divisor :
    product 1 (
      record { base = 3; count = 1 }
      ∷ record { base = 107; count = 1 }
      ∷ record { base = 28059810762433; count = 1 }
      ∷ [])
    ≡ 2 ^ 53
unfolding product
rounded_divisor = refl

-- Past 64 bits the value wraps round.
wrapped_value : denormalize (record scaled { factor = 4; shift_by = pos 0 }) (2 ^ 62) ≡ pos 0
unfolding denormalize ◌+ℤ◌
wrapped_value = refl

sum_at : sum_terms yes_no_no 0 weights ≡ some 12
unfolding sum_terms satisfied
sum_at = refl

value_fits : IsInt64 (pos (12 * 3) +ℤ pos 5)
unfolding ◌+ℤ◌
value_fits = (omega arith, omega arith)

objective-evaluate_example :
    evaluate (objective weights (pos 5) 3) yes_no_no true ≡ some (pos (12 * 3) +ℤ pos 5)
objective-evaluate_example =
    objective-evaluate weights (pos 5) 3 yes_no_no 12 enough small fits_int sum_at value_fits

abbrev halved : Objective
halved = objective weights (pos 5) 3

-- The normalised value: the divisor 2 has gone to the factor.
normalised : evaluate halved yes_no_no false ≡ some (pos 6)
unfolding evaluate objective ◌+ℤ◌
normalised = refl

objective-evaluate_le_example : IsWithin halved halved.terms × (pos 6 ≤ℤ pos halved.ub)
objective-evaluate_le_example =
    objective-evaluate_le weights (pos 5) 3 yes_no_no (pos 6) (omega arith) enough small fits_word
      normalised

abbrev dense : Objective
dense = record null_objective {
  terms =
      record { coeff = 3; lit = x0 }
      ∷ record { coeff = 1; lit = x1 }
      ∷ record { coeff = 2; lit = x2 }
      ∷ [];
}

not_sparse : (compute_sparse dense).0 ≡ false
unfolding compute_sparse null_objective
not_sparse = refl

compute_sparse-Attains_example : Attains (3 ∷ 1 ∷ 2 ∷ []) 5
unfolding null_objective sum_of
compute_sparse-Attains_example =
    compute_sparse-Attains dense 5 (inr (inl (omega arith))) not_sparse (omega arith)

abbrev plain : Objective
plain = dense

first_value : evaluate halved yes_no_no true ≡ some (pos 41)
unfolding evaluate objective ◌+ℤ◌
first_value = refl

second_value : evaluate plain yes_no_no true ≡ some (pos 5)
unfolding evaluate null_objective answer denormalize ◌+ℤ◌
second_value = refl

big : 1 ≤ largest (coeffs (gather plain.factor (gather halved.factor [] halved.terms) plain.terms))
unfolding gather objective null_objective largest
big = omega arith

small_sum :
    largest (coeffs (gather plain.factor (gather halved.factor [] halved.terms) plain.terms))
    < 2 ^ 53
unfolding gather objective null_objective largest
small_sum = omega arith

fits_sum : total halved.terms * halved.factor + total plain.terms * plain.factor < 2 ^ 62
unfolding objective null_objective total
fits_sum = omega arith

IsModest-first : IsModest halved.shift_by
unfolding objective
IsModest-first = (omega arith, omega arith)

IsModest-second : IsModest plain.shift_by
unfolding null_objective
IsModest-second = (omega arith, omega arith)

add-evaluate_example :
    (s : Objective) × (add (some halved) (some plain) ≡ some s)
    × (evaluate s yes_no_no true ≡ some (pos 41 +ℤ pos 5))
unfolding objective
add-evaluate_example =
    add-evaluate halved plain yes_no_no (pos 41) (pos 5) big small_sum fits_sum IsModest-first
      IsModest-second first_value second_value
