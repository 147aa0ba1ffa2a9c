-- ===== src/Encoding/Solver.antt =====
-- The SAT solver that the encodings call (solvers/, a copy of another project). What they rely on
-- is the record `Sat`: variables are numbered from 0 in the order of `newVar`, and the solver stands
-- for the assignments that satisfy the clauses it was given.
use dmeic.Prelude.{◌∷◌, [], ℕ, suc, ◌≡◌, Bool, not, ◌&&◌, List, if◌then◌else◌, any_of}

-- `mkLit(var, sign)`; a sign of true negates.
pub record Lit : Type 0 where
  pub var : ℕ
  pub sign : Bool

abbrev pub mk_lit : ℕ → Bool → Lit
mk_lit v s = record { var = v; sign = s }

-- `operator~`
abbrev pub neg : Lit → Lit
neg l = record { var = l.var; sign = not l.sign }

abbrev pub Assignment : Type 0
Assignment = ℕ → Bool

abbrev pub lit_true : Assignment → Lit → Bool
lit_true σ l = if l.sign then not (σ l.var) else σ l.var

abbrev pub clause_true : Assignment → List Lit → Bool
clause_true σ c = any_of (lit_true σ) c

-- How many of the literals are true.
unfoldable pub count_true : Assignment → List Lit → ℕ
count_true σ [] = 0
count_true σ (l ∷ ls) = if lit_true σ l then suc (count_true σ ls) else count_true σ ls

pub record Sat : Type 1 where
  pub Solver : Type 0
  pub n_vars : Solver → ℕ
  pub new_var : Solver → Solver
  pub add_clause : Solver → List Lit → Solver
  pub holds : Solver → Assignment → Bool
  pub n_vars-new_var : (s : Solver) → n_vars (new_var s) ≡ suc (n_vars s)
  pub n_vars-add_clause : (s : Solver) (c : List Lit) → n_vars (add_clause s c) ≡ n_vars s
  pub holds-new_var : (s : Solver) (σ : Assignment) → holds (new_var s) σ ≡ holds s σ
  pub holds-add_clause :
      (s : Solver) (c : List Lit) (σ : Assignment)
      → holds (add_clause s c) σ ≡ clause_true σ c && holds s σ
