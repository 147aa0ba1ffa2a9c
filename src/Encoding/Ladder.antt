-- ===== src/Encoding/Ladder.antt =====
-- `Ladder::encode` (Enc_Ladder.cc).
pub mod Correct
use dmeic.Prelude.{
  ℕ, zero, suc, ◌+◌, ◌-◌, Bool, true, false, List, [], ◌∷◌, Option, none, some, ◌==◌, if◌then◌else◌,
  length,
}
use dmeic.Encoding.Solver.{Lit, Sat, mk_lit, neg}
use dmeic.Encoding.Clauses.{add_binary, add_ternary, new_vars}

abbrev pub is_last : List Lit → Bool
is_last [] = true
is_last (l ∷ ls) = false

module _ (sat : Sat) where
  open sat use {Solver, n_vars}

  -- The body of the second loop at `i`, for the literal `l`; `last` is `i == lits.size() - 1`.
  unfoldable pub ladder_step : ℕ → Solver → ℕ → Lit → Bool → Solver
  ladder_step base s zero l last = add_binary sat s (neg l) (mk_lit base false) none
  ladder_step base s (suc i) l last =
      let aux = mk_lit (base + suc i) false in
      let prev = mk_lit (base + i) false in
      if last
      then add_binary sat (add_binary sat s l prev none) (neg l) (neg prev) none
      else add_binary sat
          (add_binary sat
            (add_ternary sat (add_binary sat s (neg prev) aux none) l (neg aux) prev none) (neg l)
            aux none)
          (neg l) (neg prev) none

  pub ladder_loop : ℕ → Solver → ℕ → List Lit → Solver
  unfolding ladder_step
  ladder_loop base s i [] = s
  ladder_loop base s i (l ∷ ls) = ladder_loop base (ladder_step base s i l (is_last ls)) (suc i) ls

  -- The assertion excludes the empty list.
  unfoldable pub encode : Solver → List Lit → Solver
  unfolding ladder_loop
  encode s [] = s
  encode s (l ∷ []) = s
  encode s (l ∷ k ∷ ls) = ladder_loop (n_vars s) (new_vars sat (suc (length ls)) s) 0 (l ∷ k ∷ ls)
