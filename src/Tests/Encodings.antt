-- ===== src/Tests/Encodings.antt =====
-- Concrete runs of the encodings and of `PB`, over a solver that keeps its clauses in a list.
use dmeic.Encoding.Variables.{AreBelow}
use dmeic.Prelude.{
  ◌+◌, length, some, ℕ, suc, ◌<◌, ◌≤◌, ◌≡◌, refl, Bool, true, false, ◌&&◌, List, [], ◌∷◌, none,
  arith,
}
use dmeic.Prelude.Int.{pos}
use dmeic.Encoding.Solver.{count_true, Lit, Assignment, Sat, mk_lit, clause_true}
use dmeic.Encoding.Clauses.{blocked_true, add_binary, add_ternary}
use dmeic.Encoding.Ladder.{encode}
use dmeic.Encoding.Ladder.Correct.{encode-at_most_one}
use dmeic.Encoding.Totalizer.{Config, State, plain, pick, to_cnf, adder, adder_clauses, past}
use dmeic.Encoding.Totalizer.Tree.{Sound, to_cnf-Sound}
use dmeic.Encoding.Totalizer.Total.{to_cnf_total}
use dmeic.Encoding.Totalizer.Build.{Totalizer, build, update_plain}
use dmeic.Encoding.Totalizer.Build.AtMost.{build-at_most}
use dmeic.Formula.Pb.{Pb, change_sign, is_clause}
use dmeic.Formula.Pb.Meaning.{total, ClauseAnswer, is_clause_correct, change_sign-twice}

-- The number of variables, and the clauses.
abbrev pub ListSolver : Type 0
ListSolver = ℕ × List (List Lit)

abbrev pub all_true : List (List Lit) → Assignment → Bool
all_true [] σ = true
all_true (c ∷ cs) σ = clause_true σ c && all_true cs σ

abbrev pub list_sat : Sat
list_sat = record {
  Solver = ListSolver;
  n_vars = λ s. s.0;
  new_var = λ s. (suc s.0, s.1);
  add_clause = λ s c. (s.0, c ∷ s.1);
  holds = λ s σ. all_true s.1 σ;
  n_vars-new_var = λ s. refl;
  n_vars-add_clause = λ s c. refl;
  holds-new_var = λ s σ. refl;
  holds-add_clause = λ s c σ. refl;
}

abbrev pub three : ListSolver
three = (3, [])

abbrev pub x0 : Lit
x0 = mk_lit 0 false

abbrev pub x1 : Lit
x1 = mk_lit 1 false

abbrev pub x2 : Lit
x2 = mk_lit 2 true

encode-at_most_one_example :
    ((σ : Assignment)
      → list_sat.holds (encode list_sat three (x0 ∷ x1 ∷ x2 ∷ [])) σ ≡ true
      → (list_sat.holds three σ ≡ true) × (count_true σ (x0 ∷ x1 ∷ x2 ∷ []) ≤ 1))
    × ((σ : Assignment)
        → list_sat.holds three σ ≡ true
        → count_true σ (x0 ∷ x1 ∷ x2 ∷ []) ≤ 1
        → (τ : Assignment) × ((v : ℕ) → v < 3 → τ v ≡ σ v)
          × (list_sat.holds (encode list_sat three (x0 ∷ x1 ∷ x2 ∷ [])) τ ≡ true))
encode-at_most_one_example =
    encode-at_most_one list_sat three x0 x1 (x2 ∷ []) (λ σ τ h. closed σ τ) below
  where
    closed : (σ τ : Assignment) → all_true [] σ ≡ all_true [] τ
    closed σ τ = refl

    below : AreBelow 3 (x0 ∷ x1 ∷ x2 ∷ [])
    below = (omega arith, (omega arith, (omega arith, tt)))

abbrev all_ones : Assignment
all_ones v = true

abbrev sums : List Lit
sums = mk_lit 2 false ∷ mk_lit 3 false ∷ []

abbrev added : ListSolver
added = adder_clauses list_sat (past 2) sums none (4, []) (x0 ∷ []) (x1 ∷ [])

abbrev settings : Config list_sat
settings = record { rhs = 2; blocking = none; incremental = plain }

abbrev before : State list_sat
before = record { solver = (4, []); inlits = x0 ∷ x1 ∷ []; nodes = [] }

abbrev emptied : State list_sat
emptied = record { solver = (4, []); inlits = []; nodes = [] }

abbrev finished : State list_sat
finished = adder list_sat settings emptied (x0 ∷ []) (x1 ∷ []) sums

to_cnf-Sound_example : (used : List Lit) × Sound list_sat all_ones 2 before sums finished used
unfolding to_cnf pick adder adder_clauses add_ternary add_binary
to_cnf-Sound_example = to_cnf-Sound list_sat all_ones settings refl 2 before sums finished refl refl

to_cnf_total_example :
    (st' : State list_sat) × (to_cnf list_sat 2 settings before sums ≡ some st')
    × (length st'.inlits + length sums ≡ length before.inlits)
to_cnf_total_example =
    to_cnf_total list_sat settings 2 before sums (omega arith) (omega arith) (omega arith)

abbrev counter : Totalizer list_sat
counter = record {
  solver = three;
  nodes = [];
  blocking = none;
  has_encoding = false;
  join_mode = false;
  ilits = [];
  inlits = [];
  outlits = [];
  incremental = plain;
  current_rhs = 0;
  disable_lits = [];
}

build-at_most_example :
    (t1 t2 : Totalizer list_sat) × (build list_sat counter (x0 ∷ x1 ∷ x2 ∷ []) 2 ≡ some t1)
    × (update_plain list_sat t1 2 ≡ some t2)
    × ((σ : Assignment)
        → blocked_true σ counter.blocking ≡ false
        → list_sat.holds t2.solver σ ≡ true
        → (list_sat.holds three σ ≡ true) × (count_true σ (x0 ∷ x1 ∷ x2 ∷ []) ≤ 2))
build-at_most_example =
    build-at_most list_sat counter (x0 ∷ x1 ∷ x2 ∷ []) 2 refl (omega arith) (omega arith)

abbrev at_most_one : Pb
at_most_one = record {
  terms = record { coeff = 1; lit = x0 } ∷ record { coeff = 1; lit = x1 } ∷ [];
  rhs = pos 1;
  sign = true;
  ub = 2;
}

change_sign-twice_example : change_sign (change_sign at_most_one) ≡ at_most_one
unfolding total
change_sign-twice_example = change_sign-twice at_most_one small
  where
    small : total at_most_one.terms < 2147483648
    small = omega arith

is_clause_correct_example : ClauseAnswer all_ones at_most_one (is_clause at_most_one)
unfolding total
is_clause_correct_example = is_clause_correct all_ones at_most_one small
  where
    small : total at_most_one.terms < 2147483648
    small = omega arith
