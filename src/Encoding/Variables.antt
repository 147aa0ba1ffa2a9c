-- ===== src/Encoding/Variables.antt =====
-- Assignments and the variables that a solver has so far.
use dmeic.Prelude.{ℕ, ◌<◌, ◌≡◌, ap, not, List, if◌then◌else◌, All}
use dmeic.Encoding.Solver.{Lit, Assignment, Sat, lit_true}

abbrev pub AreBelow : ℕ → List Lit → Type 0
AreBelow n = All (λ l. l.var < n)

-- The two assignments agree on the variables below `n`.
abbrev pub Agree : ℕ → Assignment → Assignment → Type 0
Agree n σ τ = (v : ℕ) → v < n → τ v ≡ σ v

-- The clauses of a solver speak of its own variables only.
abbrev pub IsClosed : (sat : Sat) → sat.Solver → Type 0
IsClosed sat s = (σ τ : Assignment) → Agree (sat.n_vars s) σ τ → sat.holds s τ ≡ sat.holds s σ

pub lit_true-Agree :
    (n : ℕ) (σ τ : Assignment) (l : Lit) → Agree n σ τ → l.var < n → lit_true τ l ≡ lit_true σ l
lit_true-Agree n σ τ l g h = ap (λ b. if l.sign then not b else b) (g l.var h)
