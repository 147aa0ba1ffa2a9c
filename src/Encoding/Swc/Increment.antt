-- ===== src/Encoding/Swc/Increment.antt =====
-- The incremental functions of `SWC`, and `update`.
use dmeic.Prelude.{
  ℕ, ◌+◌, ◌-◌, Bool, true, false, ◌&&◌, ◌||◌, List, [], ◌∷◌, ◌++◌, Option, none, some,
  if◌then◌else◌, ltb, leb, ◌==◌, length, take, drop, any_of,
}
use dmeic.Encoding.Solver.{Lit, Sat, mk_lit, neg}
use dmeic.Encoding.Clauses.{add_unit, add_binary, add_ternary}
use dmeic.Encoding.Swc.{
  Term, Swc, int32_max, place, split, overflows, negated, fresh_row, fresh_rows, column, columns,
  weigh_rows,
}

-- A failed assertion: a coefficient of 0, or one greater than `rhs`.
abbrev pub unfit : ℕ → List Term → Bool
unfit rhs = any_of (λ t. t.coeff == 0 || ltb rhs t.coeff)

module _ (sat : Sat) where
  open sat use {Solver, n_vars, new_var}

  abbrev pub forbid_all : List Lit → Solver → Solver
  forbid_all [] s = s
  forbid_all (l ∷ ls) s = forbid_all ls (add_unit sat s (neg l) none)

  -- `update(S, rhs)` for the value of `current_pb_rhs`.
  abbrev pub tighten : ℕ → Swc → Solver → Option ℕ → Option (Solver × Swc)
  tighten rhs w s none = none
  tighten rhs w s (some current) =
      some (
        forbid_all (drop rhs (take current w.pb_outlits)) s,
        record w { current_pb_rhs = some rhs },
      )

  unfoldable pub update : Solver → Swc → ℕ → Option (Solver × Swc)
  update s w rhs = if leb int32_max rhs then none else tighten rhs w s w.current_pb_rhs

  -- The end of `encode` with `assumptions`, for the terms that are kept, of which there are two or
  -- more.
  unfoldable pub start_rows :
      ℕ → Swc → List Term → List Term → List Lit → Solver → Solver × Swc × List Lit
  unfolding fresh_rows weigh_rows column
  start_rows rhs w kept units assumptions s =
      let (s1, rows) = fresh_rows sat rhs kept s in
      let blocking = mk_lit (n_vars s1) false in
      (
        weigh_rows sat (column sat rhs) rhs (some blocking) kept none rows (new_var s1),
        record w {
          current_pb_rhs = some rhs;
          lit_blocking = some blocking;
          unit_terms = units;
          rows = rows;
          terms = kept;
          has_encoding = true;
        },
        assumptions ++ neg blocking ∷ negated units,
      )

  unfoldable pub encode_kept :
      ℕ → ℕ → Swc → List Term → List Term → List Lit → Solver → Option (Solver × Swc × List Lit)
  unfolding start_rows
  encode_kept size rhs w [] units assumptions s =
      some (s, record w { unit_terms = units; has_encoding = false }, assumptions ++ negated units)
  encode_kept size rhs w (t ∷ []) units assumptions s = some (
    s,
    record w { unit_terms = units ++ t ∷ []; has_encoding = false },
    assumptions ++ negated units,
  )
  encode_kept size rhs w (t ∷ u ∷ ts) units assumptions s =
      if ltb size (length (t ∷ u ∷ ts))
      then none
      else some (start_rows rhs (record w { capacity = size }) (t ∷ u ∷ ts) units assumptions s)

  -- `encode(S, lits, coeffs, rhs, assumptions, size)`
  unfoldable pub encode_inc :
      Solver → Swc → List Term → ℕ → List Lit → ℕ → Option (Solver × Swc × List Lit)
  unfolding split encode_kept
  encode_inc s w terms rhs assumptions size =
      let (kept1, units1) = split rhs w.unit_terms in
      let (kept2, units2) = split rhs terms in
      if leb int32_max rhs || overflows w.unit_terms
      then none
      else encode_kept size rhs w (kept1 ++ kept2) (units1 ++ units2) assumptions s

  -- One turn of the loop over `j` of `update(S, rhs, assumptions)`.
  unfoldable pub update_column : ℕ → ℕ → Term → Option (List Lit) → List Lit → Solver → ℕ → Solver
  update_column offset rhs t none row s j = s
  update_column offset rhs t (some prev) row s j =
      let s1 =
        if leb offset j then add_binary sat s (neg (place prev j)) (place row j) none else s in
      if leb j (rhs - t.coeff) && leb offset (j + t.coeff)
      then add_ternary sat s1 (neg (place prev j)) (neg t.lit) (place row (j + t.coeff)) none
      else s1

  unfoldable pub extend_rows : ℕ → List (List Lit) → Solver → Solver × List (List Lit)
  unfolding fresh_row
  extend_rows n [] s = (s, [])
  extend_rows n (row ∷ rows) s =
      let (s1, new) = fresh_row sat n s in
      let (s2, rows') = extend_rows n rows s1 in (s2, (row ++ new) ∷ rows')

  abbrev pub disable : Option Lit → Solver → Solver
  disable none s = s
  disable (some b) s = add_unit sat s b none

  unfoldable pub update_rows : ℕ → ℕ → Swc → Solver → Solver × Swc
  unfolding extend_rows update_column weigh_rows
  update_rows current rhs w s =
      let (s1, rows) = extend_rows (rhs - current) w.rows (disable w.lit_blocking s) in
      let blocking = mk_lit (n_vars s1) false in
      (
        weigh_rows sat (update_column (current + 1) rhs) rhs (some blocking) w.terms none rows
            (new_var s1),
        record w { current_pb_rhs = some rhs; lit_blocking = some blocking; rows = rows },
      )

  -- `update(S, rhs, assumptions)`, which takes no part in `assumptions`.
  unfoldable pub grow : ℕ → Swc → Solver → Option ℕ → Option (Solver × Swc)
  unfolding update_rows
  grow rhs w s none = none
  grow rhs w s (some current) = if ltb current rhs then some (update_rows current rhs w s) else none

  unfoldable pub update_inc : Solver → Swc → ℕ → Option (Solver × Swc)
  unfolding grow
  update_inc s w rhs =
      if leb int32_max rhs || unfit rhs w.terms then none else grow rhs w s w.current_pb_rhs

-- `updateAssumptions`; none where there is no blocking literal.
abbrev pub update_assumptions : Option Lit → List Term → List Lit → Option (List Lit)
update_assumptions none units assumptions = none
update_assumptions (some b) units assumptions = some (assumptions ++ neg b ∷ negated units)

abbrev pub last_two : List (List Lit) → Option (List Lit × List Lit)
last_two [] = none
last_two (r ∷ []) = none
last_two (r ∷ q ∷ []) = some (r, q)
last_two (r ∷ q ∷ p ∷ rows) = last_two (q ∷ p ∷ rows)

abbrev pub last_term : List Term → Option Term
last_term [] = none
last_term (t ∷ []) = some t
last_term (t ∷ u ∷ ts) = last_term (u ∷ ts)

module _ (sat : Sat) where
  open sat use {Solver}

  -- The clauses of `join`, from the last row of before on; with one row alone it would read the row
  -- at 0, which has no variables.
  unfoldable pub join_rows :
      ℕ
      → Lit
      → Swc
      → List Term
      → Option (List Lit × List Lit)
      → Option Term
      → Solver
      → Option (Solver × Swc)
  unfolding fresh_rows columns column weigh_rows
  join_rows rhs b w added none last s = none
  join_rows rhs b w added (some p) none s = none
  join_rows rhs b w added (some (prev, row)) (some t) s =
      let (s1, new) = fresh_rows sat rhs added s in
      let s2 = columns sat (column sat rhs t (some prev) row) rhs 1 s1 in
      if unfit rhs (t ∷ added)
      then none
      else some (
        weigh_rows sat (column sat rhs) rhs (some b) added (some row) new s2,
        record w { rows = w.rows ++ new; terms = w.terms ++ added },
      )

  unfoldable pub join_kept : ℕ → Lit → Swc → List Term → Solver → Option (Solver × Swc)
  unfolding join_rows
  join_kept rhs b w [] s = some (s, w)
  join_kept rhs b w (t ∷ ts) s =
      if ltb w.capacity (length (w.terms ++ t ∷ ts))
      then none
      else join_rows rhs b w (t ∷ ts) (last_two w.rows) (last_term w.terms) s

  -- `join` for the values of `current_pb_rhs` and `current_lit_blocking`.
  unfoldable pub join_at : Option ℕ → Option Lit → Swc → List Term → Solver → Option (Solver × Swc)
  unfolding split join_kept
  join_at none blocking w terms s = none
  join_at (some rhs) none w terms s = none
  join_at (some rhs) (some b) w terms s =
      let (kept1, units1) = split rhs w.unit_terms in
      let (kept2, units2) = split rhs terms in
      if leb int32_max rhs
      then none
      else join_kept rhs b (record w { unit_terms = units1 ++ units2 }) (kept1 ++ kept2) s

  -- `join(S, lits, coeffs, assumptions)`, which takes no part in `assumptions`.
  unfoldable pub join : Solver → Swc → List Term → Option (Solver × Swc)
  unfolding join_at
  join s w terms = join_at w.current_pb_rhs w.lit_blocking w terms s
