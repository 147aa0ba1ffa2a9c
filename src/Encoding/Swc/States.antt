-- ===== src/Encoding/Swc/States.antt =====
-- The rows that the incremental calls of `SWC` leave.
use dmeic.Prelude.{
  some_injective, get_or-append, All-mono, ℕ, suc, ◌+◌, ◌-◌, ◌<◌, ◌≤◌, ◌≡◌, refl, sym, subst, ap,
  ◌∙◌, Bool, true, false, List, [], ◌∷◌, ◌++◌, Option, none, some, arith, ltb, ltb→lt, Bool-cases,
  inl, inr, All, All-append, length, length-append,
}
use dmeic.Encoding.Solver.{Lit, Assignment, Sat, lit_true, mk_lit}
use dmeic.Encoding.Clauses.{unit-holds}
use dmeic.Encoding.Swc.{Term, Swc, fresh_row, fresh_rows, column, columns, weigh_rows}
use dmeic.Encoding.Totalizer.{undef}
use dmeic.Encoding.Swc.Increment.{
  start_rows, update_column, extend_rows, disable, update_rows, grow, last_two,
}
use dmeic.Encoding.Swc.Rows.{
  AtColumn, AtUpdate, column-AtColumn, update_column-AtUpdate, columns_says, weigh_rows-AtRows,
}
use dmeic.Encoding.Swc.Counting.{
  weight, AllCount, FitIn, Extend, rows-AllCount, rows_bound, update-AllCount,
}
use dmeic.Encoding.Swc.Fresh.{
  length-fresh_row, length-fresh_rows, rows_of_fresh, holds-fresh_row, holds-fresh_rows,
}
use dmeic.Encoding.Swc.Weights.{weight-append, AllCount-append, last_two-Counts}

module _ (sat : Sat) where
  open sat use {Solver, holds}

  -- The state: nothing encoded, or rows for the terms.
  pub data Stands (σ : Assignment)
      : Bool → Option ℕ → Option Lit → List (List Lit) → List Term → Solver → Type 0 where
    idle : (s : Solver) → Stands σ false none none [] [] s
    counting :
        (rhs : ℕ) (b : Lit) (rows : List (List Lit)) (terms : List Term) (s : Solver)
        → length rows ≡ length terms
        → All (λ r. length r ≡ rhs) rows
        → FitIn σ rhs terms
        → (holds s σ ≡ true
            → AllCount σ rhs 0 terms rows × (lit_true σ b ≡ false → weight σ terms ≤ rhs))
        → Stands σ true (some rhs) (some b) rows terms s

module _ (sat : Sat) (σ : Assignment) where
  open sat use {Solver, holds, n_vars, new_var, holds-new_var}

  extend_rows_lem :
      (n current : ℕ) (rows : List (List Lit)) (s : Solver)
      → All (λ r. length r ≡ current) rows
      → Extend σ current rows (extend_rows sat n rows s).1
        × (length (extend_rows sat n rows s).1 ≡ length rows)
        × All (λ r. length r ≡ current + n) (extend_rows sat n rows s).1
        × (holds (extend_rows sat n rows s).0 σ ≡ holds s σ)
  unfolding extend_rows
  extend_rows_lem n current [] s all = (tt, refl, tt, refl)
  extend_rows_lem n current (row ∷ rows) s all =
      let (s1, new) = fresh_row sat n s in
      let (ext, len, sizes, same) = extend_rows_lem n current rows s1 all.1 in
      (
        ((λ j lo hi. get_or-append row new (j - 1) undef (omega (arith, lo, hi, all.0))), ext),
        ap suc len,
        (omega (arith, length-append row new, length-fresh_row sat n s, all.0), sizes),
        same ∙ holds-fresh_row sat σ n s,
      )

  -- What the loops over new rows say.
  counted :
      (rhs : ℕ) (b : Lit) (ts : List Term) (rows : List (List Lit)) (s : Solver)
      → length rows ≡ length ts
      → FitIn σ rhs ts
      → holds (weigh_rows sat (column sat rhs) rhs (some b) ts none rows s) σ ≡ true
      → (holds s σ ≡ true) × AllCount σ rhs 0 ts rows × (lit_true σ b ≡ false → weight σ ts ≤ rhs)
  counted rhs b ts rows s same fit h =
      let (h0, at) =
        weigh_rows-AtRows sat σ (column sat rhs) (AtColumn σ rhs) (column-AtColumn sat σ rhs) rhs
          (some b) ts none rows s h in
      let all = rows-AllCount σ rhs (some b) 0 ts none rows at refl in
      (
        h0,
        all,
        λ off.
            let bound =
              rows_bound σ (AtColumn σ rhs) rhs (some b) 0 ts none rows same off at all refl
                (omega arith) fit in
            omega (arith, bound),
      )

  pub start_rows-Stands :
      (rhs : ℕ) (w : Swc) (kept units : List Term) (ls : List Lit) (s : Solver)
      → FitIn σ rhs kept
      → (let (s', w', ls') = start_rows sat rhs w kept units ls s in
          Stands sat σ w'.has_encoding w'.current_pb_rhs w'.lit_blocking w'.rows w'.terms s')
  unfolding start_rows
  start_rows-Stands rhs w kept units ls s fit =
      let (s1, rows) = fresh_rows sat rhs kept s in
      let same = length-fresh_rows sat rhs kept s in
      counting rhs (mk_lit (n_vars s1) false) rows kept _ same (rows_of_fresh sat rhs kept s) fit
        (λ h. let (h0, all, bound) = counted rhs _ kept rows _ same fit h in (all, bound))

  disable-holds :
      (o : Option Lit) (s : Solver) → holds (disable sat o s) σ ≡ true → holds s σ ≡ true
  disable-holds none s h = h
  disable-holds (some b) s h = ground (arith, h, unit-holds sat s b none σ)

  -- The rows of `update`, for a right-hand side that has grown.
  grown :
      (current rhs : ℕ) (has : Bool) (blocking : Option Lit) (rows : List (List Lit))
      → (terms : List Term) (s : Solver) → current < rhs
      → Stands sat σ has (some current) blocking rows terms s
      → (let (s1, rows') = extend_rows sat (rhs - current) rows (disable sat blocking s) in
          let b = mk_lit (n_vars s1) false in
          Stands sat σ has (some rhs) (some b) rows' terms (
            weigh_rows sat
              (update_column sat (current + 1) rhs)
              rhs
              (some b)
              terms
              none
              rows'
              (new_var s1)))
  grown current rhs has blocking rows terms s more
        (counting current' b rows' terms' s' same sizes fit says) =
      let (ext, len, sizes', held) =
        extend_rows_lem (rhs - current) current rows (disable sat blocking s) sizes in
      let (s1, new) = extend_rows sat (rhs - current) rows (disable sat blocking s) in
      let next = mk_lit (n_vars s1) false in
      let fit' =
        All-mono (λ t. t.coeff ≤ current) (λ t. t.coeff ≤ rhs) terms (λ t l. omega (arith, l, more))
          fit in
      let whole : current + (rhs - current) ≡ rhs = omega (arith, more) in
      let same' : length new ≡ length terms = len ∙ same in
      counting rhs next new terms _ same' (subst (λ n. All (λ r. length r ≡ n) new) whole sizes')
        fit'
        (λ h.
          let (h2, at) =
            weigh_rows-AtRows sat σ (update_column sat (current + 1) rhs)
              (AtUpdate σ (current + 1) rhs) (update_column-AtUpdate sat σ (current + 1) rhs) rhs
              (some next) terms none new (new_var s1) h in
          let h1 = sym held ∙ (sym (holds-new_var s1 σ) ∙ h2) in
          let old = (says (disable-holds blocking s h1)).0 in
          let all =
            update-AllCount σ current rhs (some next) 0 terms none rows new fit ext old at refl in
          (
            all,
            λ off.
                let bound =
                  rows_bound σ (AtUpdate σ (current + 1) rhs) rhs (some next) 0 terms none new same'
                    off at all refl (omega arith) fit' in
                omega (arith, bound),
          ))

  abbrev pub StandsAt : Solver × Swc → Type 0
  StandsAt p =
      Stands sat σ p.1.has_encoding p.1.current_pb_rhs p.1.lit_blocking p.1.rows p.1.terms p.0

  pub grow-StandsAt :
      (rhs : ℕ) (w : Swc) (s : Solver) (o : Option ℕ) (p : Solver × Swc)
      → Stands sat σ w.has_encoding o w.lit_blocking w.rows w.terms s
      → grow sat rhs w s o ≡ some p
      → StandsAt p
  unfolding grow update_rows
  grow-StandsAt rhs w s none p st e = absurd (ground (arith, e))
  grow-StandsAt rhs w s (some current) p st e = elim (Bool-cases (ltb current rhs)) [
    | inr l ↦ absurd (ground (arith, rw l at e))
    | inl l ↦
        subst StandsAt (some_injective (rw l at e))
          (grown current rhs w.has_encoding w.lit_blocking w.rows w.terms s (ltb→lt _ _ l) st)
  ]

  -- The rows of `join`.
  pub joined_rows :
      (rhs : ℕ) (b : Lit) (has : Bool) (rows : List (List Lit)) (terms added : List Term)
      → (prev row : List Lit) (t : Term) (s : Solver) → last_two rows ≡ some (prev, row)
      → FitIn σ rhs added
      → Stands sat σ has (some rhs) (some b) rows terms s
      → (let (s1, new) = fresh_rows sat rhs added s in
          Stands sat σ has (some rhs) (some b) (rows ++ new) (terms ++ added) (
            weigh_rows sat
              (column sat rhs)
              rhs
              (some b)
              added
              (some row)
              new
              (columns sat (column sat rhs t (some prev) row) rhs 1 s1)))
  joined_rows rhs b has rows terms added prev row t s two fit'
        (counting rhs' b' rows' terms' s' same sizes fit says) =
      let (s1, new) = fresh_rows sat rhs added s in
      let len = length-fresh_rows sat rhs added s in
      counting rhs b (rows ++ new) (terms ++ added) _
        (omega (arith, len, same, length-append rows new, length-append terms added))
        (All-append (λ r. length r ≡ rhs) rows new sizes (rows_of_fresh sat rhs added s))
        (All-append (λ u. u.coeff ≤ rhs) terms added fit fit')
        (λ h.
          let (h2, at) =
            weigh_rows-AtRows sat σ (column sat rhs) (AtColumn σ rhs) (column-AtColumn sat σ rhs)
              rhs (some b) added (some row) new _ h in
          let (h1, again) =
            columns_says sat σ (column sat rhs t (some prev) row) (AtColumn σ rhs t (some prev) row)
              (column-AtColumn sat σ rhs t (some prev) row) rhs 1 s1 h2 in
          let (all, bound) = says (sym (holds-fresh_rows sat σ rhs added s) ∙ h1) in
          let counts = last_two-Counts σ rhs 0 terms rows prev row same all two in
          let later =
            rows-AllCount σ rhs (some b) (0 + weight σ terms) added (some row) new at counts in
          (
            AllCount-append σ rhs 0 terms added rows new same all later,
            λ off.
                let le =
                  rows_bound σ (AtColumn σ rhs) rhs (some b) (0 + weight σ terms) added (some row)
                    new len off at later counts (omega (arith, bound off)) fit' in
                omega (arith, le, weight-append σ terms added),
          ))
