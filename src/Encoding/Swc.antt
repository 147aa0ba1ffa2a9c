-- ===== src/Encoding/Swc.antt =====
-- `SWC`, the sequential weight counter (encodings/Enc_SWC.cc). The vectors `lits` and `coeffs`, of
-- the same size, are one list of terms, and a row `seq_auxiliary[i]` is the list of its literals from
-- place 1 on. Where the code exits or an assertion fails, or it would write past the rows, the result
-- is `none`. Statistics are left out.
pub mod Rows
pub mod Counting
pub mod Increment
pub mod Weights
pub mod States
pub mod Fresh
pub mod Fill
pub mod Keeps
pub mod Histories
pub mod Correct
pub mod Exact
use mathlib.Core.Option
use dmeic.Prelude.{
  ℕ, zero, suc, ◌+◌, ◌-◌, Bool, true, false, ◌&&◌, List, [], ◌∷◌, ◌++◌, map, Option, none, some,
  if◌then◌else◌, ltb, leb, ◌==◌, length, get_or, take, drop,
}
use dmeic.Encoding.Solver.{Lit, Sat, mk_lit, neg}
use dmeic.Encoding.Clauses.{add_unit, add_binary, add_ternary}
use dmeic.Encoding.Totalizer.{undef}

-- A literal with its coefficient.
pub record Term : Type 0 where
  pub lit : Lit
  pub coeff : ℕ

-- `SWC`; `unit_terms` holds `unit_lits` with `unit_coeffs`, and `terms` holds `lits_inc` with
-- `coeffs_inc`. The array of `rows` has places for `capacity` rows. The value -1
-- of `current_pb_rhs` is none.
pub record Swc : Type 0 where
  pub pb_outlits : List Lit
  pub current_pb_rhs : Option ℕ
  pub lit_blocking : Option Lit
  pub unit_terms : List Term
  pub rows : List (List Lit)
  pub capacity : ℕ
  pub terms : List Term
  pub has_encoding : Bool

abbrev pub new_swc : Swc
new_swc = record {
  pb_outlits = [];
  current_pb_rhs = none;
  lit_blocking = none;
  unit_terms = [];
  rows = [];
  capacity = 0;
  terms = [];
  has_encoding = false;
}

abbrev pub int32_max : ℕ
int32_max = 2147483647

-- `row[j]`
abbrev pub place : List Lit → ℕ → Lit
place row j = get_or row (j - 1) undef

-- `lits` and `unit_lits` by their coefficients.
unfoldable pub split : ℕ → List Term → List Term × List Term
split rhs [] = ([], [])
split rhs (t ∷ ts) =
    let (kept, units) = split rhs ts in
    if leb t.coeff rhs then (t ∷ kept, units) else (kept, t ∷ units)

abbrev pub overflows : List Term → Bool
overflows [] = false
overflows (t ∷ ts) = let rest = overflows ts in if leb int32_max t.coeff then true else rest

abbrev pub negated : List Term → List Lit
negated = map (λ t. neg t.lit)

abbrev pub last_row : List (List Lit) → List Lit
last_row [] = []
last_row (r ∷ []) = r
last_row (r ∷ q ∷ rows) = last_row (q ∷ rows)

module _ (sat : Sat) where
  open sat use {Solver, n_vars, new_var}

  -- The loop that fixes literals: those that are kept.
  unfoldable pub fix_literals : ℕ → Solver → List Term → Option (Solver × List Term)
  fix_literals rhs s [] = some (s, [])
  fix_literals rhs s (t ∷ ts) =
      let skipped = fix_literals rhs s ts in
      let fixed = fix_literals rhs (add_unit sat s (neg t.lit) none) ts in
      if t.coeff == 0
      then skipped
      else if leb int32_max t.coeff
      then none
      else if leb t.coeff rhs
      then Option.map (λ p. (p.0, t ∷ p.1)) skipped
      else fixed

  -- As many literals over new variables.
  unfoldable pub fresh_row : ℕ → Solver → Solver × List Lit
  fresh_row zero s = (s, [])
  fresh_row (suc n) s =
      let (s', row) = fresh_row n (new_var s) in (s', mk_lit (n_vars s) false ∷ row)

  unfoldable pub fresh_rows : ℕ → List Term → Solver → Solver × List (List Lit)
  unfolding fresh_row
  fresh_rows rhs [] s = (s, [])
  fresh_rows rhs (t ∷ ts) s =
      let (s1, row) = fresh_row rhs s in let (s2, rows) = fresh_rows rhs ts s1 in (s2, row ∷ rows)

  -- One turn of the loop over `j`: the first row has no row before it.
  unfoldable pub column : ℕ → Term → Option (List Lit) → List Lit → Solver → ℕ → Solver
  column rhs t none row s j =
      if leb j t.coeff then add_binary sat s (neg t.lit) (place row j) none else s
  column rhs t (some prev) row s j =
      let s1 = add_binary sat s (neg (place prev j)) (place row j) none in
      let s2 = if leb j t.coeff then add_binary sat s1 (neg t.lit) (place row j) none else s1 in
      if leb j (rhs - t.coeff)
      then add_ternary sat s2 (neg (place prev j)) (neg t.lit) (place row (j + t.coeff)) none
      else s2

  -- The loop over `j`, of `k` turns from `j` on.
  unfoldable pub columns : (Solver → ℕ → Solver) → ℕ → ℕ → Solver → Solver
  columns turn zero j s = s
  columns turn (suc k) j s = columns turn k (j + 1) (turn s j)

  -- `Encode rhs.`
  abbrev pub bound_row : ℕ → Option Lit → Term → Option (List Lit) → Solver → Solver
  bound_row rhs blocking t none s = s
  bound_row rhs blocking t (some prev) s =
      add_binary sat s (neg (place prev (rhs + 1 - t.coeff))) (neg t.lit) blocking

  -- The loop over `i`, for the turns `turn` of the loop over `j`.
  unfoldable pub weigh_rows :
      (Term → Option (List Lit) → List Lit → Solver → ℕ → Solver)
      → ℕ
      → Option Lit
      → List Term
      → Option (List Lit)
      → List (List Lit)
      → Solver
      → Solver
  unfolding columns
  weigh_rows turn rhs blocking [] prev rows s = s
  weigh_rows turn rhs blocking (t ∷ ts) prev [] s = s
  weigh_rows turn rhs blocking (t ∷ ts) prev (row ∷ rows) s =
      weigh_rows turn rhs blocking ts (some row) rows
        (bound_row rhs blocking t prev (columns (turn t prev row) rhs 1 s))

  unfoldable pub encode_terms : ℕ → Swc → List Term → Solver → Solver × Swc
  unfolding fresh_rows weigh_rows column
  encode_terms rhs w [] s = (s, record w { has_encoding = false })
  encode_terms rhs w (t ∷ []) s = (s, record w { has_encoding = false })
  encode_terms rhs w (t ∷ u ∷ ts) s =
      let (s1, rows) = fresh_rows rhs (t ∷ u ∷ ts) s in
      (
        weigh_rows (column rhs) rhs none (t ∷ u ∷ ts) none rows s1,
        record w {
          pb_outlits = w.pb_outlits ++ last_row rows;
          current_pb_rhs = some rhs;
          has_encoding = true;
        },
      )

  -- `encode(S, lits, coeffs, rhs)`
  unfoldable pub encode : Solver → Swc → List Term → ℕ → Option (Solver × Swc)
  unfolding fix_literals encode_terms
  encode s w terms rhs =
      if leb int32_max rhs
      then none
      else Option.map (λ p. encode_terms rhs w p.1 p.0) (fix_literals rhs s terms)
