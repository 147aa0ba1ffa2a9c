-- ===== src/Encoding/Swc/Counting.antt =====
-- The rows of `SWC` count: place `j` of a row is on where the sum up to its term is at least `j`.
use dmeic.Prelude.{
  ℕ, ◌+◌, ◌-◌, ◌<◌, ◌≤◌, ◌≡◌, sym, subst, true, false, List, [], ◌∷◌, Option, none, some,
  if◌then◌else◌, arith, leb, leb→le, leb→gt, Bool-cases, inl, inr, All, length,
}
use dmeic.Encoding.Solver.{Lit, Assignment, lit_true}
use dmeic.Encoding.Clauses.{blocked_true}
use dmeic.Encoding.Swc.{Term, place, last_row}
use dmeic.Encoding.Swc.Rows.{IsOn, AtColumn, AtUpdate, AtBound, AtRows}

module _ (σ : Assignment) where
  -- The sum of the coefficients of the true literals.
  unfoldable pub weight : List Term → ℕ
  weight [] = 0
  weight (t ∷ ts) = let rest = weight ts in if lit_true σ t.lit then t.coeff + rest else rest

  abbrev pub gain : Term → ℕ → ℕ
  gain t n = if lit_true σ t.lit then n + t.coeff else n

  abbrev pub Counts : ℕ → ℕ → List Lit → Type 0
  Counts rhs n row = (j : ℕ) → 1 ≤ j → j ≤ rhs → j ≤ n → IsOn σ row j

  abbrev pub CountsPrev : ℕ → ℕ → Option (List Lit) → Type 0
  CountsPrev rhs n none = n ≡ 0
  CountsPrev rhs n (some prev) = Counts rhs n prev

  abbrev pub AllCount : ℕ → ℕ → List Term → List (List Lit) → Type 0
  AllCount rhs n [] rows = Unit
  AllCount rhs n (t ∷ ts) [] = Unit
  AllCount rhs n (t ∷ ts) (row ∷ rows) = Counts rhs (gain t n) row × AllCount rhs (gain t n) ts rows

  column-Counts :
      (rhs n : ℕ) (t : Term) (prev : Option (List Lit)) (row : List Lit)
      → ((j : ℕ) → 1 ≤ j → j < 1 + rhs → AtColumn σ rhs t prev row j)
      → CountsPrev rhs n prev
      → Counts rhs (gain t n) row
  column-Counts rhs n t none row at e j lo hi le = elim (Bool-cases (lit_true σ t.lit)) [
    | inl l ↦ at j lo (omega arith) (omega (arith, e, rw l at le)) l
    | inr l ↦ absurd (omega (arith, lo, e, rw l at le))
  ]
  column-Counts rhs n t (some prev) row at e j lo hi le = elim (Bool-cases (lit_true σ t.lit)) [
    | inr l ↦ (at j lo (omega arith)).0 (e j lo hi (rw l at le))
    | inl l ↦ elim (Bool-cases (leb j t.coeff)) [
      | inl small ↦ (at j lo (omega arith)).1 (leb→le _ _ small) l
      | inr big ↦
          let le' : j ≤ n + t.coeff = rw l at le in
          let i = j - t.coeff in
          let more = leb→gt _ _ big in
          let there = at i (omega (arith, more)) (omega (arith, hi)) in
          let before = e i (omega (arith, more)) (omega (arith, hi)) (omega (arith, le')) in
          let back : i + t.coeff ≡ j = omega (arith, more) in
          subst (IsOn σ row) back (there.2 (omega (arith, hi)) before l)
    ]
  ]

  pub rows-AllCount :
      (rhs : ℕ) (blocking : Option Lit) (n : ℕ) (ts : List Term)
      → (prev : Option (List Lit)) (rows : List (List Lit))
      → AtRows σ (AtColumn σ rhs) rhs blocking ts prev rows
      → CountsPrev rhs n prev
      → AllCount rhs n ts rows
  rows-AllCount rhs blocking n [] prev rows at e = tt
  rows-AllCount rhs blocking n (t ∷ ts) prev [] at e = tt
  rows-AllCount rhs blocking n (t ∷ ts) prev (row ∷ rows) at e =
      let here = column-Counts rhs n t prev row at.0.0 e in
      (here, rows-AllCount rhs blocking (gain t n) ts (some row) rows at.1 here)

  abbrev pub FitIn : ℕ → List Term → Type 0
  FitIn rhs = All (λ t. t.coeff ≤ rhs)

  bound_step :
      (rhs : ℕ) (blocking : Option Lit) (n : ℕ) (t : Term) (prev : Option (List Lit))
      → blocked_true σ blocking ≡ false
      → AtBound σ rhs blocking t prev
      → CountsPrev rhs n prev
      → n ≤ rhs
      → t.coeff ≤ rhs
      → gain t n ≤ rhs
  bound_step rhs blocking n t none free at e le fit = ground (arith, e, le, fit)
  bound_step rhs blocking n t (some prev) free at e le fit = elim (Bool-cases (lit_true σ t.lit)) [
    | inr l ↦ rw l le
    | inl l ↦ elim (Bool-cases (leb (n + t.coeff) rhs)) [
      | inl fine ↦ rw l (leb→le _ _ fine)
      | inr over ↦
          let more = leb→gt _ _ over in
          let on =
            e (rhs + 1 - t.coeff) (omega (arith, fit)) (omega (arith, more, le))
              (omega (arith, more)) in
          let yes = at on l in absurd (ground (arith, yes, free))
    ]
  ]

  -- Where the blocking literal is off, the clauses for `rhs` bound the sum.
  pub rows_bound :
      (P : Term → Option (List Lit) → List Lit → ℕ → Type 0) (rhs : ℕ) (blocking : Option Lit)
      → (n : ℕ) (ts : List Term) (prev : Option (List Lit)) (rows : List (List Lit))
      → length rows ≡ length ts
      → blocked_true σ blocking ≡ false
      → AtRows σ P rhs blocking ts prev rows
      → AllCount rhs n ts rows
      → CountsPrev rhs n prev
      → n ≤ rhs
      → FitIn rhs ts
      → n + weight ts ≤ rhs
  unfolding weight
  rows_bound P rhs blocking n [] prev rows same free at all e le fit = omega (arith, le)
  rows_bound P rhs blocking n (t ∷ ts) prev [] same free at all e le fit =
      absurd (omega (arith, same))
  rows_bound P rhs blocking n (t ∷ ts) prev (row ∷ rows) same free at all e le fit =
      let next = bound_step rhs blocking n t prev free at.0.1 e le fit.0 in
      let later =
        rows_bound P rhs blocking (gain t n) ts (some row) rows (omega (arith, same)) free at.1
          all.1 all.0 next fit.1 in
      elim (Bool-cases (lit_true σ t.lit)) [
        | inl l ↦ rw l (omega (arith, rw l at later))
        | inr l ↦ rw l (rw l at later)
      ]

  pub weight-gain : (t : Term) (ts : List Term) (n : ℕ) → n + weight (t ∷ ts) ≡ gain t n + weight ts
  unfolding weight
  weight-gain t ts n = ground arith

  -- The last row counts the whole sum.
  pub last_row-Counts :
      (rhs n : ℕ) (t : Term) (ts : List Term) (row : List Lit) (rows : List (List Lit))
      → length rows ≡ length ts
      → AllCount rhs n (t ∷ ts) (row ∷ rows)
      → Counts rhs (n + weight (t ∷ ts)) (last_row (row ∷ rows))
  unfolding weight
  last_row-Counts rhs n t [] row [] same all =
      λ j lo hi le. all.0 j lo hi (omega (arith, le, weight-gain t [] n))
  last_row-Counts rhs n t [] row (q ∷ rows) same all = absurd (omega (arith, same))
  last_row-Counts rhs n t (u ∷ ts) row [] same all = absurd (omega (arith, same))
  last_row-Counts rhs n t (u ∷ ts) row (q ∷ rows) same all = λ j lo hi le.
      last_row-Counts rhs (gain t n) u ts q rows (omega (arith, same)) all.1 j lo hi
        (omega (arith, le, weight-gain t (u ∷ ts) n))

  -- The rows after `update`, each of which begins with the one of before.
  abbrev pub Extend : ℕ → List (List Lit) → List (List Lit) → Type 0
  Extend current [] [] = Unit
  Extend current (old ∷ olds) [] = ⊥
  Extend current [] (row ∷ rows) = ⊥
  Extend current (old ∷ olds) (row ∷ rows) =
      ((j : ℕ) → 1 ≤ j → j ≤ current → place row j ≡ place old j) × Extend current olds rows

  update-Counts :
      (current rhs n : ℕ) (t : Term) (prev : Option (List Lit)) (old row : List Lit)
      → t.coeff ≤ current
      → ((j : ℕ) → 1 ≤ j → j ≤ current → place row j ≡ place old j)
      → Counts current (gain t n) old
      → ((j : ℕ) → 1 ≤ j → j < 1 + rhs → AtUpdate σ (current + 1) rhs t prev row j)
      → CountsPrev rhs n prev
      → Counts rhs (gain t n) row
  update-Counts current rhs n t prev old row fit same was at e j lo hi le =
      elim (Bool-cases (leb j current)) [
        | inl small ↦
            let l = leb→le _ _ small in
            subst (λ x. lit_true σ x ≡ true) (sym (same j lo l)) (was j lo l le)
        | inr big ↦ beyond prev (leb→gt _ _ big) at e
      ]
    where
      beyond :
          (p : Option (List Lit))
          → current < j
          → ((i : ℕ) → 1 ≤ i → i < 1 + rhs → AtUpdate σ (current + 1) rhs t p row i)
          → CountsPrev rhs n p
          → IsOn σ row j
      beyond none more a c = absurd (ground (arith, le, c, more, fit, lo))
      beyond (some p) more a c = elim (Bool-cases (lit_true σ t.lit)) [
        | inr l ↦ (a j lo (omega arith)).0 (omega (arith, more)) (c j lo hi (rw l at le))
        | inl l ↦
            let le' : j ≤ n + t.coeff = rw l at le in
            let i = j - t.coeff in
            let there = a i (omega (arith, more, fit)) (omega (arith, hi)) in
            let before = c i (omega (arith, more, fit)) (omega (arith, hi)) (omega (arith, le')) in
            let back : i + t.coeff ≡ j = omega (arith, more, fit) in
            subst (IsOn σ row) back
              (there.1 (omega (arith, hi)) (omega (arith, more, fit)) before l)
      ]

  pub update-AllCount :
      (current rhs : ℕ) (blocking : Option Lit) (n : ℕ) (ts : List Term)
      → (prev : Option (List Lit)) (olds rows : List (List Lit)) → FitIn current ts
      → Extend current olds rows
      → AllCount current n ts olds
      → AtRows σ (AtUpdate σ (current + 1) rhs) rhs blocking ts prev rows
      → CountsPrev rhs n prev
      → AllCount rhs n ts rows
  update-AllCount current rhs blocking n [] prev olds rows fit ext was at e = tt
  update-AllCount current rhs blocking n (t ∷ ts) prev olds [] fit ext was at e = tt
  update-AllCount current rhs blocking n (t ∷ ts) prev [] (row ∷ rows) fit ext was at e = absurd ext
  update-AllCount current rhs blocking n (t ∷ ts) prev (old ∷ olds) (row ∷ rows) fit ext was at e =
      let here = update-Counts current rhs n t prev old row fit.0 ext.0 was.0 at.0.0 e in
      (
        here,
        update-AllCount current rhs blocking (gain t n) ts (some row) olds rows fit.1 ext.1 was.1
            at.1 here,
      )
