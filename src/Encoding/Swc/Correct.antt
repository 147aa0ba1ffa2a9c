-- ===== src/Encoding/Swc/Correct.antt =====
-- `SWC::encode` and `SWC::update` without assumptions.
use dmeic.Prelude.{
  ℕ, zero, suc, ◌+◌, ◌-◌, ◌<◌, ◌≤◌, ◌≡◌, refl, sym, ◌∙◌, true, false, List, [], ◌∷◌, none, some,
  arith, leb, leb→le, leb→gt, Bool-cases, inl, inr, All, length, get_or, take, drop,
}
use dmeic.Encoding.Solver.{Lit, Assignment, Sat, neg, lit_true}
use dmeic.Encoding.Clauses.{add_unit, unit-holds}
use dmeic.Encoding.Swc.{
  Term, Swc, new_swc, int32_max, fresh_rows, column, weigh_rows, last_row, encode_terms, encode,
}
use dmeic.Encoding.Totalizer.{undef}
use dmeic.Encoding.Swc.Increment.{forbid_all, update}
use dmeic.Encoding.Swc.Rows.{AtColumn, column-AtColumn, weigh_rows-AtRows}
use dmeic.Encoding.Swc.Counting.{
  weight, Counts, AllCount, FitIn, rows-AllCount, rows_bound, last_row-Counts,
}
use dmeic.Encoding.Swc.Fresh.{
  length-fresh_rows, rows_of_fresh, holds-fresh_rows, fix_literals-weight,
}

module _ (sat : Sat) (σ : Assignment) where
  open sat use {Solver, holds}

  last_Counts :
      (rhs : ℕ) (t : Term) (ts : List Term) (rows : List (List Lit))
      → length rows ≡ length (t ∷ ts)
      → AllCount σ rhs 0 (t ∷ ts) rows
      → Counts σ rhs (weight σ (t ∷ ts)) (last_row rows)
  last_Counts rhs t ts [] same all = absurd (omega (arith, same))
  last_Counts rhs t ts (row ∷ rows) same all = λ j lo hi le.
      last_row-Counts σ rhs 0 t ts row rows (omega (arith, same)) all j lo hi (omega (arith, le))

  -- What `encode` leaves for two terms or more.
  encode_rows :
      (rhs : ℕ) (t u : Term) (ts : List Term) (s : Solver)
      → FitIn σ rhs (t ∷ u ∷ ts)
      → (let (s1, rows) = fresh_rows sat rhs (t ∷ u ∷ ts) s in
          holds (weigh_rows sat (column sat rhs) rhs none (t ∷ u ∷ ts) none rows s1) σ ≡ true
          → (holds s σ ≡ true)
            × (weight σ (t ∷ u ∷ ts) ≤ rhs)
            × Counts σ rhs (weight σ (t ∷ u ∷ ts)) (last_row rows))
  encode_rows rhs t u ts s fit h =
      let terms = t ∷ u ∷ ts in
      let (s1, rows) = fresh_rows sat rhs terms s in
      let (h1, at) =
        weigh_rows-AtRows sat σ (column sat rhs) (AtColumn σ rhs) (column-AtColumn sat σ rhs) rhs
          none terms none rows s1 h in
      let all = rows-AllCount σ rhs none 0 terms none rows at refl in
      let same = length-fresh_rows sat rhs terms s in
      let h0 = sym (holds-fresh_rows sat σ rhs terms s) ∙ h1 in
      let bound =
        rows_bound σ (AtColumn σ rhs) rhs none 0 terms none rows same refl at all refl (omega arith)
          fit in
      (h0, omega (arith, bound), last_Counts rhs t (u ∷ ts) rows same all)

  forbid_all-false :
      (ls : List Lit) (s : Solver)
      → holds (forbid_all sat ls s) σ ≡ true
      → (holds s σ ≡ true) × All (λ l. lit_true σ l ≡ false) ls
  forbid_all-false [] s h = (h, tt)
  forbid_all-false (l ∷ ls) s h =
      let (h1, off) = forbid_all-false ls (add_unit sat s (neg l) none) h in
      let e = unit-holds sat s (neg l) none σ in
      (ground (arith, h1, e), (ground (arith, h1, e), off))

  beyond_false :
      (k n : ℕ) (row : List Lit) (d : Lit)
      → length row ≡ n
      → k < n
      → All (λ l. lit_true σ l ≡ false) (drop k (take n row))
      → lit_true σ (get_or row k d) ≡ false
  beyond_false k zero row d e less off = absurd (omega (arith, less))
  beyond_false k (suc n) [] d e less off = absurd (omega (arith, e))
  beyond_false zero (suc n) (l ∷ row) d e less off = off.0
  beyond_false (suc k) (suc n) (l ∷ row) d e less off =
      beyond_false k n row d (omega (arith, e)) (omega (arith, less)) off

  length-last_row :
      (rhs : ℕ) (rows : List (List Lit))
      → 0 < length rows
      → All (λ r. length r ≡ rhs) rows
      → length (last_row rows) ≡ rhs
  length-last_row rhs [] some_row all = absurd (omega (arith, some_row))
  length-last_row rhs (r ∷ []) some_row all = all.0
  length-last_row rhs (r ∷ q ∷ rows) some_row all =
      length-last_row rhs (q ∷ rows) (omega arith) all.1

  tightened :
      (rhs rhs' n : ℕ) (row : List Lit) (s : Solver)
      → length row ≡ rhs
      → n ≤ rhs
      → Counts σ rhs n row
      → holds (forbid_all sat (drop rhs' (take rhs row)) s) σ ≡ true
      → (holds s σ ≡ true) × (n ≤ rhs')
  tightened rhs rhs' n row s e le counts h =
      let (h0, off) = forbid_all-false (drop rhs' (take rhs row)) s h in
      (
        h0,
        elim (Bool-cases (leb n rhs')) [
          | inl fine ↦ leb→le _ _ fine
          | inr over ↦
              let more = leb→gt _ _ over in
              let on =
                counts (rhs' + 1) (omega arith) (omega (arith, more, le)) (omega (arith, more)) in
              let index : rhs' + 1 - 1 ≡ rhs' = omega arith in
              let not_on = beyond_false rhs' rhs row undef e (omega (arith, more, le)) off in
              absurd (cc (on, not_on, index))
        ],
      )

  -- What a call of `encode` and one of `update` after it bound.
  abbrev pub Bounds : ℕ → ℕ → Solver → List Term → Solver → Swc → Type 0
  Bounds rhs rhs' s terms s' w =
      (holds s' σ ≡ true → (holds s σ ≡ true) × (weight σ terms ≤ rhs))
      × (w.has_encoding ≡ true
          → (s'' : Solver) × (w' : Swc) × (update sat s' w rhs' ≡ some (s'', w'))
            × (holds s'' σ ≡ true → (holds s' σ ≡ true) × (weight σ terms ≤ rhs')))

  encode_terms-Bounds :
      (rhs rhs' : ℕ) (s : Solver) (kept : List Term)
      → rhs < int32_max
      → rhs' ≤ rhs
      → FitIn σ rhs kept
      → Bounds rhs rhs' s kept
          (encode_terms sat rhs new_swc kept s).0
          (encode_terms sat rhs new_swc kept s).1
  unfolding encode_terms update weight
  encode_terms-Bounds rhs rhs' s [] small le fit = ((λ h. (h, omega arith)), λ e. cc)
  encode_terms-Bounds rhs rhs' s (t ∷ []) small le fit =
      ((λ h. (h, ground (arith, fit.0))), λ e. cc)
  encode_terms-Bounds rhs rhs' s (t ∷ u ∷ ts) small le fit =
      let (s1, rows) = fresh_rows sat rhs (t ∷ u ∷ ts) s in
      let size =
        length-last_row rhs rows (omega (arith, length-fresh_rows sat rhs (t ∷ u ∷ ts) s))
          (rows_of_fresh sat rhs (t ∷ u ∷ ts) s) in
      let fine : leb int32_max rhs' ≡ false = ground (arith, small, le) in
      (
        (λ h. let (h0, bound, counts) = encode_rows rhs t u ts s fit h in (h0, bound)),
        λ e.
            let s2 = weigh_rows sat (column sat rhs) rhs none (t ∷ u ∷ ts) none rows s1 in
            (
              forbid_all sat (drop rhs' (take rhs (last_row rows))) s2,
              record (encode_terms sat rhs new_swc (t ∷ u ∷ ts) s).1 { current_pb_rhs = some rhs' },
              rw fine refl,
              λ h.
                  let (h2, off) = forbid_all-false (drop rhs' (take rhs (last_row rows))) s2 h in
                  let (h0, bound, counts) = encode_rows rhs t u ts s fit h2 in
                  tightened rhs rhs' _ (last_row rows) s2 size bound counts h,
            ),
      )

  -- For a right-hand side and coefficients below INT32_MAX, `encode` succeeds on a new SWC, and bounds
  -- the sum of the coefficients of the true literals by the right-hand side; and where it says that
  -- it has an encoding, `update` with a right-hand side that is not greater succeeds and bounds it by
  -- that.
  pub encode-Bounds :
      (s : Solver) (terms : List Term) (rhs rhs' : ℕ)
      → rhs < int32_max
      → rhs' ≤ rhs
      → All (λ t. t.coeff < int32_max) terms
      → (s' : Solver) × (w : Swc) × (encode sat s new_swc terms rhs ≡ some (s', w))
        × Bounds rhs rhs' s terms s' w
  unfolding encode
  encode-Bounds s terms rhs rhs' small le fits =
      let (s1, kept, e, fit, same) = fix_literals-weight sat σ rhs s terms fits in
      let (first, second) = encode_terms-Bounds rhs rhs' s1 kept small le fit in
      let fine : leb int32_max rhs ≡ false = ground (arith, small) in
      (
        (encode_terms sat rhs new_swc kept s1).0,
        (encode_terms sat rhs new_swc kept s1).1,
        rw (fine, e) refl,
        (
          (λ h. let (h1, l) = first h in let (h0, v) = same h1 in (h0, omega (arith, l, v))),
          λ has.
              let (s2, w2, u, k) = second has in
              (
                s2,
                w2,
                u,
                λ h.
                    let (h1, l) = k h in
                    let (h2, m) = first h1 in let (h0, v) = same h2 in (h1, omega (arith, l, v)),
              ),
        ),
      )
