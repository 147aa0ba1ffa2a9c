-- ===== src/Encoding/Swc/Fill.antt =====
-- The assignment of the rows of `SWC::encode` that counts exactly.
use dmeic.Prelude.{
  ℕ, zero, suc, ◌+◌, ◌-◌, ◌<◌, ◌≤◌, ◌≡◌, refl, sym, ◌∙◌, ap, Bool, true, false, List, [], ◌∷◌,
  Option, none, some, arith, if◌then◌else◌, ltb, leb, leb→le, lt→ltb, get_or, All, Bool-cases, inl,
  inr,
}
use dmeic.Encoding.Solver.{Lit, Assignment, Sat, mk_lit, neg, lit_true}
use dmeic.Encoding.Clauses.{add_binary, add_ternary, binary-holds, ternary-holds}
use dmeic.Encoding.Totalizer.{undef}
use dmeic.Encoding.Swc.{Term, place, fresh_row, fresh_rows, column, columns, bound_row, weigh_rows}
use dmeic.Encoding.Swc.Counting.{weight, gain, weight-gain, FitIn}

-- The rows from variable `base` on hold the sums from `n` on.
unfoldable pub fill : Assignment → ℕ → ℕ → ℕ → List Term → Assignment
fill σ base rhs n [] v = σ v
fill σ base rhs n (t ∷ ts) v =
    let rest = fill σ (base + rhs) rhs (gain σ t n) ts v in
    if ltb v base then σ v else if ltb v (base + rhs) then leb (v - base + 1) (gain σ t n) else rest

pub fill-old :
    (σ : Assignment) (base rhs n : ℕ) (ts : List Term) (v : ℕ)
    → v < base
    → fill σ base rhs n ts v ≡ σ v
unfolding fill
fill-old σ base rhs n [] v h = refl
fill-old σ base rhs n (t ∷ ts) v h = rw (lt→ltb v base h) refl

fill-row :
    (σ : Assignment) (base rhs n : ℕ) (t : Term) (ts : List Term) (j : ℕ)
    → j < rhs
    → fill σ base rhs n (t ∷ ts) (base + j) ≡ leb (j + 1) (gain σ t n)
unfolding fill
fill-row σ base rhs n t ts j h =
    let a : ltb (base + j) base ≡ false = ground arith in
    let b : ltb (base + j) (base + rhs) ≡ true = ground (arith, h) in
    let c : base + j - base ≡ j = omega arith in rw (a, b, c) refl

fill-later :
    (σ : Assignment) (base rhs n : ℕ) (t : Term) (ts : List Term) (v : ℕ)
    → base + rhs ≤ v
    → fill σ base rhs n (t ∷ ts) v ≡ fill σ (base + rhs) rhs (gain σ t n) ts v
unfolding fill
fill-later σ base rhs n t ts v h =
    let a : ltb v base ≡ false = ground (arith, h) in
    let b : ltb v (base + rhs) ≡ false = ground (arith, h) in rw (a, b) refl

module _ (sat : Sat) where
  open sat use {Solver, holds, n_vars, new_var, n_vars-new_var}

  n_vars-fresh_row : (n : ℕ) (s : Solver) → n_vars (fresh_row sat n s).0 ≡ n_vars s + n
  unfolding fresh_row
  n_vars-fresh_row zero s = omega arith
  n_vars-fresh_row (suc n) s = omega (arith, n_vars-fresh_row n (new_var s), n_vars-new_var s)

  place_of_row :
      (n : ℕ) (s : Solver) (j : ℕ)
      → j < n
      → get_or (fresh_row sat n s).1 j undef ≡ mk_lit (n_vars s + j) false
  unfolding fresh_row
  place_of_row zero s j h = absurd (omega (arith, h))
  place_of_row (suc n) s zero h = let e : n_vars s + 0 ≡ n_vars s = omega arith in rw e refl
  place_of_row (suc n) s (suc j) h =
      let e : n_vars (new_var s) + j ≡ n_vars s + suc j = omega (arith, n_vars-new_var s) in
      place_of_row n (new_var s) j (omega (arith, h)) ∙ ap (λ v. mk_lit v false) e

  -- The rows hold exactly the sums.
  abbrev pub IsExact : Assignment → Assignment → ℕ → ℕ → List Term → List (List Lit) → Type 0
  IsExact σ τ rhs n [] rows = Unit
  IsExact σ τ rhs n (t ∷ ts) [] = Unit
  IsExact σ τ rhs n (t ∷ ts) (row ∷ rows) =
      ((j : ℕ) → 1 ≤ j → j ≤ rhs → lit_true τ (place row j) ≡ leb j (gain σ t n))
      × IsExact σ τ rhs (gain σ t n) ts rows

  pub fresh_rows-IsExact :
      (σ τ : Assignment) (rhs n : ℕ) (ts : List Term) (s : Solver)
      → ((v : ℕ) → n_vars s ≤ v → τ v ≡ fill σ (n_vars s) rhs n ts v)
      → IsExact σ τ rhs n ts (fresh_rows sat rhs ts s).1
  unfolding fresh_rows
  fresh_rows-IsExact σ τ rhs n [] s h = tt
  fresh_rows-IsExact σ τ rhs n (t ∷ ts) s h =
      let (s1, row) = fresh_row sat rhs s in
      let n1 : n_vars s1 ≡ n_vars s + rhs = n_vars-fresh_row rhs s in
      (
        (λ j lo hi.
            let at = place_of_row rhs s (j - 1) (omega (arith, lo, hi)) in
            let back : j - 1 + 1 ≡ j = omega (arith, lo) in
            ap (lit_true τ) at
            ∙ (h (n_vars s + (j - 1)) (omega arith)
                ∙ (fill-row σ (n_vars s) rhs n t ts (j - 1) (omega (arith, lo, hi))
                    ∙ ap (λ k. leb k (gain σ t n)) back))),
        fresh_rows-IsExact σ τ rhs (gain σ t n) ts s1 (λ v l.
            h v (omega (arith, l, n1))
            ∙ (fill-later σ (n_vars s) rhs n t ts v (omega (arith, l, n1))
                ∙ ap (λ b. fill σ b rhs (gain σ t n) ts v) (sym n1))),
      )

  -- What the row before holds.
  abbrev pub ExactPrev : Assignment → ℕ → ℕ → Option (List Lit) → Type 0
  ExactPrev τ rhs n none = n ≡ 0
  ExactPrev τ rhs n (some prev) = (j : ℕ) → 1 ≤ j → j ≤ rhs → lit_true τ (place prev j) ≡ leb j n

  when_binary :
      (τ : Assignment) (s : Solver) (a b : Lit) (test : Bool)
      → holds s τ ≡ true
      → (test ≡ true → lit_true τ a ≡ true → lit_true τ b ≡ true)
      → holds (if test then add_binary sat s (neg a) b none else s) τ ≡ true
  when_binary τ s a b true h k = ground (arith, h, k refl, binary-holds sat s (neg a) b none τ)
  when_binary τ s a b false h k = h

  when_ternary :
      (τ : Assignment) (s : Solver) (a b c : Lit) (test : Bool)
      → holds s τ ≡ true
      → (test ≡ true → lit_true τ a ≡ true → lit_true τ b ≡ true → lit_true τ c ≡ true)
      → holds (if test then add_ternary sat s (neg a) (neg b) c none else s) τ ≡ true
  when_ternary τ s a b c true h k =
      ground (arith, h, k refl, ternary-holds sat s (neg a) (neg b) c none τ)
  when_ternary τ s a b c false h k = h

  column_holds :
      (τ : Assignment) (rhs n : ℕ) (t : Term) (prev : Option (List Lit)) (row : List Lit)
      → t.coeff ≤ rhs
      → ExactPrev τ rhs n prev
      → ((j : ℕ) → 1 ≤ j → j ≤ rhs → lit_true τ (place row j) ≡ leb j (gain τ t n))
      → (s : Solver) (j : ℕ) → 1 ≤ j
      → j ≤ rhs
      → holds s τ ≡ true
      → holds (column sat rhs t prev row s j) τ ≡ true
  unfolding column
  column_holds τ rhs n t none row fit e x s j lo hi h =
      when_binary τ s t.lit (place row j) (leb j t.coeff) h
        (λ l p. x j lo hi ∙ ground (arith, l, p, e))
  column_holds τ rhs n t (some prev) row fit e x s j lo hi h =
      let h1 =
        when_binary τ s (place prev j) (place row j) true h
          (λ q p. x j lo hi ∙ ground (arith, p, e j lo hi)) in
      let h2 =
        when_binary τ _ t.lit (place row j) (leb j t.coeff) h1
          (λ l p. x j lo hi ∙ ground (arith, l, p)) in
      when_ternary τ _ (place prev j) t.lit (place row (j + t.coeff)) (leb j (rhs - t.coeff)) h2
        (λ l p q.
          let le = leb→le j (rhs - t.coeff) l in
          x (j + t.coeff) (omega (arith, lo)) (omega (arith, le, fit))
          ∙ ground (arith, p, q, e j lo hi))

  columns_hold :
      (τ : Assignment) (rhs : ℕ) (turn : Solver → ℕ → Solver)
      → ((s : Solver) (j : ℕ) → 1 ≤ j → j ≤ rhs → holds s τ ≡ true → holds (turn s j) τ ≡ true)
      → (k j : ℕ) (s : Solver) → 1 ≤ j
      → j + k ≤ rhs + 1
      → holds s τ ≡ true
      → holds (columns sat turn k j s) τ ≡ true
  unfolding columns
  columns_hold τ rhs turn each zero j s lo hi h = h
  columns_hold τ rhs turn each (suc k) j s lo hi h =
      columns_hold τ rhs turn each k (j + 1) (turn s j) (omega arith) (omega (arith, hi))
        (each s j lo (omega (arith, hi)) h)

  bound_row_holds :
      (τ : Assignment) (rhs n : ℕ) (t : Term) (prev : Option (List Lit)) (s : Solver)
      → 0 < t.coeff
      → t.coeff ≤ rhs
      → gain τ t n ≤ rhs
      → ExactPrev τ rhs n prev
      → holds s τ ≡ true
      → holds (bound_row sat rhs none t prev s) τ ≡ true
  bound_row_holds τ rhs n t none s pos fit le e h = h
  bound_row_holds τ rhs n t (some prev) s pos fit le e h =
      let at = e (rhs + 1 - t.coeff) (omega (arith, fit)) (omega (arith, pos)) in
      let b = binary-holds sat s (neg (place prev (rhs + 1 - t.coeff))) (neg t.lit) none τ in
      elim (Bool-cases (lit_true τ t.lit)) [
        | inr l ↦ ground (arith, h, b, l)
        | inl l ↦
            let off : lit_true τ (place prev (rhs + 1 - t.coeff)) ≡ false =
              at ∙ ground (arith, rw l at le, fit) in
            ground (arith, h, b, off)
      ]

  pub weigh_rows_hold :
      (τ : Assignment) (rhs n : ℕ) (ts : List Term) (prev : Option (List Lit))
      → (rows : List (List Lit)) (s : Solver) → All (λ t. 0 < t.coeff) ts
      → FitIn τ rhs ts
      → n + weight τ ts ≤ rhs
      → ExactPrev τ rhs n prev
      → IsExact τ τ rhs n ts rows
      → holds s τ ≡ true
      → holds (weigh_rows sat (column sat rhs) rhs none ts prev rows s) τ ≡ true
  unfolding weigh_rows
  weigh_rows_hold τ rhs n [] prev rows s pos fit le e x h = h
  weigh_rows_hold τ rhs n (t ∷ ts) prev [] s pos fit le e x h = h
  weigh_rows_hold τ rhs n (t ∷ ts) prev (row ∷ rows) s pos fit le e x h =
      let le' : gain τ t n + weight τ ts ≤ rhs = omega (arith, le, weight-gain τ t ts n) in
      let h1 =
        columns_hold τ rhs (column sat rhs t prev row) (column_holds τ rhs n t prev row fit.0 e x.0)
          rhs 1 s (omega arith) (omega arith) h in
      let h2 = bound_row_holds τ rhs n t prev _ pos.0 fit.0 (omega (arith, le')) e h1 in
      weigh_rows_hold τ rhs (gain τ t n) ts (some row) rows _ pos.1 fit.1 le' x.0 x.1 h2
