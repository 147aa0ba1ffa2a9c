-- ===== src/Encoding/Clauses.antt =====
-- `Encodings::addUnitClause` and its kin (Encodings.cc), and `newSATVariable`. The optional literal
-- `blocking` is `none` where the code passes `lit_Undef`; debug output is left out.
use dmeic.Prelude.{
  ℕ, zero, suc, ◌+◌, ◌≡◌, refl, Bool, false, ◌&&◌, ◌||◌, List, [], ◌∷◌, Option, none, some, arith,
}
use dmeic.Encoding.Solver.{Lit, Assignment, Sat, lit_true}

abbrev pub blocked : Option Lit → List Lit
blocked none = []
blocked (some b) = b ∷ []

abbrev pub blocked_true : Assignment → Option Lit → Bool
blocked_true σ none = false
blocked_true σ (some b) = lit_true σ b

module _ (sat : Sat) where
  open sat use {
    Solver, n_vars, new_var, add_clause, holds, n_vars-new_var, n_vars-add_clause, holds-new_var,
    holds-add_clause,
  }

  unfoldable pub add_unit : Solver → Lit → Option Lit → Solver
  add_unit s a blocking = add_clause s (a ∷ blocked blocking)

  unfoldable pub add_binary : Solver → Lit → Lit → Option Lit → Solver
  add_binary s a b blocking = add_clause s (a ∷ b ∷ blocked blocking)

  unfoldable pub add_ternary : Solver → Lit → Lit → Lit → Option Lit → Solver
  add_ternary s a b c blocking = add_clause s (a ∷ b ∷ c ∷ blocked blocking)

  unfoldable pub add_quaternary : Solver → Lit → Lit → Lit → Lit → Option Lit → Solver
  add_quaternary s a b c d blocking = add_clause s (a ∷ b ∷ c ∷ d ∷ blocked blocking)

  -- As many calls of `newSATVariable`.
  pub new_vars : ℕ → Solver → Solver
  new_vars zero s = s
  new_vars (suc n) s = new_vars n (new_var s)

  pub unit-holds :
      (s : Solver) (a : Lit) (b : Option Lit) (σ : Assignment)
      → holds (add_unit s a b) σ ≡ (lit_true σ a || blocked_true σ b) && holds s σ
  unfolding add_unit
  unit-holds s a none σ = ground (arith, holds-add_clause s (a ∷ []) σ)
  unit-holds s a (some b) σ = ground (arith, holds-add_clause s (a ∷ b ∷ []) σ)

  pub binary-holds :
      (s : Solver) (a b : Lit) (k : Option Lit) (σ : Assignment)
      → holds (add_binary s a b k) σ
        ≡ (lit_true σ a || lit_true σ b || blocked_true σ k) && holds s σ
  unfolding add_binary
  binary-holds s a b none σ = ground (arith, holds-add_clause s (a ∷ b ∷ []) σ)
  binary-holds s a b (some k) σ = ground (arith, holds-add_clause s (a ∷ b ∷ k ∷ []) σ)

  pub ternary-holds :
      (s : Solver) (a b c : Lit) (k : Option Lit) (σ : Assignment)
      → holds (add_ternary s a b c k) σ
        ≡ (lit_true σ a || lit_true σ b || lit_true σ c || blocked_true σ k) && holds s σ
  unfolding add_ternary
  ternary-holds s a b c none σ = ground (arith, holds-add_clause s (a ∷ b ∷ c ∷ []) σ)
  ternary-holds s a b c (some k) σ = ground (arith, holds-add_clause s (a ∷ b ∷ c ∷ k ∷ []) σ)

  pub quaternary-holds :
      (s : Solver) (a b c d : Lit) (k : Option Lit) (σ : Assignment)
      → holds (add_quaternary s a b c d k) σ
        ≡ (lit_true σ a || lit_true σ b || lit_true σ c || lit_true σ d || blocked_true σ k)
          && holds s σ
  unfolding add_quaternary
  quaternary-holds s a b c d none σ = ground (arith, holds-add_clause s (a ∷ b ∷ c ∷ d ∷ []) σ)
  quaternary-holds s a b c d (some k) σ =
      ground (arith, holds-add_clause s (a ∷ b ∷ c ∷ d ∷ k ∷ []) σ)

  pub n_vars-new_vars : (n : ℕ) (s : Solver) → n_vars (new_vars n s) ≡ n_vars s + n
  unfolding new_vars
  n_vars-new_vars zero s = omega arith
  n_vars-new_vars (suc n) s = omega (arith, n_vars-new_vars n (new_var s), n_vars-new_var s)

  pub holds-new_vars : (n : ℕ) (s : Solver) (σ : Assignment) → holds (new_vars n s) σ ≡ holds s σ
  unfolding new_vars
  holds-new_vars zero s σ = refl
  holds-new_vars (suc n) s σ = rw (holds-new_vars n (new_var s) σ, holds-new_var s σ)
