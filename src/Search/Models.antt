-- ===== src/Search/Models.antt =====
-- The functions of MaxSAT.cc that turn a model into clauses: `blockModel`, `modelClause`,
-- `modelClausePlus` and `modelEmbed`.
use dmeic.Prelude.{
  ℕ, suc, ◌-◌, ◌≡◌, ◌↔◌, refl, ap, Bool, true, false, not, ◌||◌, List, [], ◌∷◌, ◌++◌, arith, All,
  if◌then◌else◌, length, take, replicate, ◌==◌,
}
use dmeic.Encoding.Solver.{Sat, Lit, Assignment, lit_true, clause_true, mk_lit}
use dmeic.Formula.Objective.{Model, l_false, is_true}

-- The loop of `blockModel` from the variable `i` on.
unfoldable pub blocking_clause : ℕ → Model → List Lit
blocking_clause i [] = []
blocking_clause i (at ∷ m) = mk_lit i (is_true at) ∷ blocking_clause (suc i) m

unfoldable pub block_model : (sat : Sat) → sat.Solver → Model → sat.Solver
unfolding blocking_clause
block_model sat s m = sat.add_clause s (blocking_clause 0 m)

-- The loop of `modelClause` from the variable `i` on.
unfoldable pub model_clause : ℕ → Model → List Lit
model_clause i [] = []
model_clause i (at ∷ m) = mk_lit i (not (is_true at)) ∷ model_clause (suc i) m

-- The same with a filter, which has an entry for each variable.
unfoldable pub filtered_clause : ℕ → Model → List Bool → List Lit
filtered_clause i [] filter = []
filtered_clause i (at ∷ m) [] = []
filtered_clause i (at ∷ m) (f ∷ filter) =
    let rest = filtered_clause (suc i) m filter in
    if f then mk_lit i (not (is_true at)) ∷ rest else rest

-- The loop of `modelClausePlus`: the variable is only counted where a literal is added.
unfoldable pub clause_plus : ℕ → Model → List Lit
clause_plus i [] = []
clause_plus i (at ∷ m) =
    let same = clause_plus i m in
    let next = clause_plus (suc i) m in if is_true at then same else mk_lit i true ∷ next

-- `modelEmbed(mod, nVars)`
unfoldable pub model_embed : Model → ℕ → Model
model_embed m n = if n == length m then m else take n m ++ replicate (n - length m) l_false

-- The assignment has the values of the model from `i` on, where an open value counts as false.
abbrev pub Agrees : Assignment → ℕ → Model → Type 0
Agrees σ i [] = Unit
Agrees σ i (at ∷ m) = (σ i ≡ is_true at) × Agrees σ (suc i) m

lit_false : (σ : Assignment) (i : ℕ) (b : Bool) → lit_true σ (mk_lit i b) ≡ false → σ i ≡ b
lit_false σ i true h = ground (arith, h)
lit_false σ i false h = h

lit_of_value : (σ : Assignment) (i : ℕ) (b : Bool) → σ i ≡ b → lit_true σ (mk_lit i b) ≡ false
lit_of_value σ i true h = ap not h
lit_of_value σ i false h = h

lit_not : (σ : Assignment) (i : ℕ) (b : Bool) → lit_true σ (mk_lit i (not b)) ≡ true → σ i ≡ b
lit_not σ i true h = h
lit_not σ i false h = ground (arith, h)

lit_not_of_value :
    (σ : Assignment) (i : ℕ) (b : Bool) → σ i ≡ b → lit_true σ (mk_lit i (not b)) ≡ true
lit_not_of_value σ i true h = h
lit_not_of_value σ i false h = ap not h

or_false : (a b : Bool) → a || b ≡ false → (a ≡ false) × (b ≡ false)
or_false true b h = cc
or_false false b h = (refl, h)

blocking-Agrees :
    (σ : Assignment) (i : ℕ) (m : Model)
    → (clause_true σ (blocking_clause i m) ≡ false) ↔ Agrees σ i m
unfolding blocking_clause
blocking-Agrees σ i [] = (λ _. tt, λ _. refl)
blocking-Agrees σ i (at ∷ m) =
    let (f, g) = blocking-Agrees σ (suc i) m in
    (
      λ h.
          let (a, b) =
            or_false (lit_true σ (mk_lit i (is_true at)))
              (clause_true σ (blocking_clause (suc i) m)) h in
          (lit_false σ i (is_true at) a, f b),
      λ (e, rest). let a = lit_of_value σ i (is_true at) e in let b = g rest in rw (a, b) refl,
    )

clause-Agrees :
    (σ : Assignment) (i : ℕ) (m : Model)
    → All (λ l. lit_true σ l ≡ true) (model_clause i m) ↔ Agrees σ i m
unfolding model_clause
clause-Agrees σ i [] = (λ _. tt, λ _. tt)
clause-Agrees σ i (at ∷ m) =
    let (f, g) = clause-Agrees σ (suc i) m in
    (
      λ h. (lit_not σ i (is_true at) h.0, f h.1),
      λ h. (lit_not_of_value σ i (is_true at) h.0, g h.1),
    )

-- The clause of `blockModel` is false exactly for the assignments that the literals of `modelClause`
-- ask for: those with the values of the model, where an open value counts as false.
pub block_model-model_clause :
    (σ : Assignment) (m : Model)
    → ((clause_true σ (blocking_clause 0 m) ≡ false)
        ↔ All (λ l. lit_true σ l ≡ true) (model_clause 0 m))
      × (All (λ l. lit_true σ l ≡ true) (model_clause 0 m) ↔ Agrees σ 0 m)
block_model-model_clause σ m =
    let (f, g) = blocking-Agrees σ 0 m in
    let (h, k) = clause-Agrees σ 0 m in ((λ a. k (f a), λ b. g (h b)), (h, k))
