-- ===== src/Tests/Counters.antt =====
-- Concrete runs of the sequential weight counter.
use dmeic.Encoding.Variables.{Agree}
use dmeic.Prelude.{
  ℕ, ◌≤◌, ◌≡◌, refl, true, List, [], ◌∷◌, ◌++◌, not, ◌||◌, Option, none, some, arith, ◌==◌,
}
use dmeic.Encoding.Solver.{Lit, Assignment, mk_lit}
use dmeic.Encoding.Clauses.{add_binary, add_unit, add_ternary}
use dmeic.Encoding.Swc.{Term, Swc, new_swc, encode}
use dmeic.Encoding.Swc.Increment.{encode_inc, update_inc, join, update_assumptions}
use dmeic.Encoding.Swc.Counting.{weight}
use dmeic.Encoding.Swc.Exact.{encode-weight}
use dmeic.Encoding.Swc.Correct.{Bounds}
use dmeic.Encoding.Swc.Histories.{Reaches, made, encoded, updated, joined, Reaches-bound}
use dmeic.Tests.Encodings.{list_sat, ListSolver, three, x0, x1, x2}

abbrev term : Lit → ℕ → Term
term l c = record { lit = l; coeff = c }

abbrev terms : List Term
terms = term x0 2 ∷ term x1 1 ∷ term x2 4 ∷ []

encode-weight_example :
    (s' : ListSolver) × (w : Swc) × (encode list_sat three new_swc terms 3 ≡ some (s', w))
    × ((σ : Assignment) → Bounds list_sat σ 3 2 three terms s' w)
    × ((σ : Assignment)
        → list_sat.holds three σ ≡ true
        → weight σ terms ≤ 3
        → (τ : Assignment) × Agree 3 σ τ × (list_sat.holds s' τ ≡ true))
encode-weight_example =
    encode-weight list_sat three terms 3 2 (omega arith) (omega arith)
      (omega arith, (omega arith, (omega arith, tt))) (λ σ τ h. refl)
      (omega arith, (omega arith, (omega arith, tt)))

abbrev or_else : {A : Type 0} → Option A → A → A
or_else none d = d
or_else (some a) d = a

abbrev first : ListSolver × Swc × List Lit
first = or_else (encode_inc list_sat three new_swc terms 3 [] 4) (three, new_swc, [])

abbrev second : ListSolver × Swc
second = or_else (update_inc list_sat first.0 first.1 4) (three, new_swc)

abbrev third : ListSolver × Swc
third = or_else (join list_sat second.0 second.1 []) (three, new_swc)

third-Reaches : Reaches list_sat third.0 third.1 (terms ++ [])
unfolding encode_inc update_inc join
third-Reaches = joined _ _ _ _ (terms) [] refl (
    updated first.0 _ first.1 _ terms 4 refl (
      encoded three first.0 new_swc first.1 [] terms 3 [] first.2 4 refl
        (omega arith, (omega arith, (omega arith, tt))) refl (made three)))

abbrev model : Assignment
model v = not (v == 10 || v == 12)

third-holds : list_sat.holds third.0 model ≡ true
unfolding encode_inc update_inc join add_binary add_unit add_ternary
third-holds = refl

third-assumed :
    update_assumptions third.1.lit_blocking third.1.unit_terms [] ≡ some (mk_lit 12 true ∷ [])
unfolding encode_inc update_inc join add_binary add_unit add_ternary
third-assumed = refl

Reaches-bound_example :
    (rhs : ℕ) × (third.1.current_pb_rhs ≡ some rhs) × (weight model (terms ++ []) ≤ rhs)
Reaches-bound_example =
    Reaches-bound list_sat model third.0 third.1 (terms ++ []) [] (mk_lit 12 true ∷ [])
      third-Reaches third-assumed third-holds (refl, tt)
