-- ===== src/Encoding/Swc/Rows.antt =====
-- What the clauses of the loops of `SWC` say of the rows.
use dmeic.Prelude.{
  ℕ, zero, suc, ◌+◌, ◌-◌, ◌<◌, ◌≤◌, ◌≡◌, refl, sym, subst, Bool, true, false, ◌&&◌, List, [], ◌∷◌,
  Option, none, some, if◌then◌else◌, arith, leb, leb→le, leb→gt, Bool-cases, inl, inr,
}
use dmeic.Encoding.Solver.{Lit, Assignment, Sat, neg, lit_true}
use dmeic.Encoding.Clauses.{add_binary, add_ternary, binary-holds, ternary-holds, blocked_true}
use dmeic.Encoding.Swc.{Term, place, column, columns, bound_row, weigh_rows}
use dmeic.Encoding.Swc.Increment.{update_column}

abbrev pub IsOn : Assignment → List Lit → ℕ → Type 0
IsOn σ row j = lit_true σ (place row j) ≡ true

abbrev pub IsTaken : Assignment → Term → Type 0
IsTaken σ t = lit_true σ t.lit ≡ true

-- What a turn of the loop over `j` says.
abbrev pub AtColumn : Assignment → ℕ → Term → Option (List Lit) → List Lit → ℕ → Type 0
AtColumn σ rhs t none row j = j ≤ t.coeff → IsTaken σ t → IsOn σ row j
AtColumn σ rhs t (some prev) row j =
    (IsOn σ prev j → IsOn σ row j)
    × (j ≤ t.coeff → IsTaken σ t → IsOn σ row j)
    × (j ≤ rhs - t.coeff → IsOn σ prev j → IsTaken σ t → IsOn σ row (j + t.coeff))

abbrev pub AtUpdate : Assignment → ℕ → ℕ → Term → Option (List Lit) → List Lit → ℕ → Type 0
AtUpdate σ offset rhs t none row j = Unit
AtUpdate σ offset rhs t (some prev) row j =
    (offset ≤ j → IsOn σ prev j → IsOn σ row j)
    × (j ≤ rhs - t.coeff
        → offset ≤ j + t.coeff
        → IsOn σ prev j
        → IsTaken σ t
        → IsOn σ row (j + t.coeff))

-- What the clause for `rhs` says.
abbrev pub AtBound : Assignment → ℕ → Option Lit → Term → Option (List Lit) → Type 0
AtBound σ rhs blocking t none = Unit
AtBound σ rhs blocking t (some prev) =
    IsOn σ prev (rhs + 1 - t.coeff) → IsTaken σ t → blocked_true σ blocking ≡ true

module _ (σ : Assignment) (P : Term → Option (List Lit) → List Lit → ℕ → Type 0) (rhs : ℕ)
    (blocking : Option Lit) where
  -- What the clauses of a row say.
  abbrev pub AtRow : Term → Option (List Lit) → List Lit → Type 0
  AtRow t prev row =
      ((j : ℕ) → 1 ≤ j → j < 1 + rhs → P t prev row j) × AtBound σ rhs blocking t prev

  abbrev pub AtRows : List Term → Option (List Lit) → List (List Lit) → Type 0
  AtRows [] prev rows = Unit
  AtRows (t ∷ ts) prev [] = Unit
  AtRows (t ∷ ts) prev (row ∷ rows) = AtRow t prev row × AtRows ts (some row) rows

module _ (sat : Sat) (σ : Assignment) where
  open sat use {Solver, holds}

  -- Each of two tests adds a clause, or none.
  when_binary :
      (s : Solver) (a b : Lit) (test : Bool)
      → holds (if test then add_binary sat s (neg a) b none else s) σ ≡ true
      → (holds s σ ≡ true) × (test ≡ true → lit_true σ a ≡ true → lit_true σ b ≡ true)
  when_binary s a b true h =
      let e = binary-holds sat s (neg a) b none σ in
      (ground (arith, h, e), λ q p. ground (arith, h, e, p))
  when_binary s a b false h = (h, λ q p. absurd (ground (arith, q)))

  when_ternary :
      (s : Solver) (a b c : Lit) (test : Bool)
      → holds (if test then add_ternary sat s (neg a) (neg b) c none else s) σ ≡ true
      → (holds s σ ≡ true)
        × (test ≡ true → lit_true σ a ≡ true → lit_true σ b ≡ true → lit_true σ c ≡ true)
  when_ternary s a b c true h =
      let e = ternary-holds sat s (neg a) (neg b) c none σ in
      (ground (arith, h, e), λ q p r. ground (arith, h, e, p, r))
  when_ternary s a b c false h = (h, λ q p r. absurd (ground (arith, q)))

  pub column-AtColumn :
      (rhs : ℕ) (t : Term) (prev : Option (List Lit)) (row : List Lit) (s : Solver) (j : ℕ)
      → holds (column sat rhs t prev row s j) σ ≡ true
      → (holds s σ ≡ true) × AtColumn σ rhs t prev row j
  unfolding column
  column-AtColumn rhs t none row s j h =
      let (h0, f) = when_binary s t.lit (place row j) (leb j t.coeff) h in
      (h0, λ l. f (ground (arith, l)))
  column-AtColumn rhs t (some prev) row s j h =
      let (h2, third) =
        when_ternary _ (place prev j) t.lit (place row (j + t.coeff)) (leb j (rhs - t.coeff)) h in
      let (h1, second) = when_binary _ t.lit (place row j) (leb j t.coeff) h2 in
      let (h0, first) = when_binary s (place prev j) (place row j) true h1 in
      (h0, (first refl, (λ l. second (ground (arith, l))), λ l. third (ground (arith, l))))

  pub update_column-AtUpdate :
      (offset rhs : ℕ) (t : Term) (prev : Option (List Lit)) (row : List Lit) (s : Solver) (j : ℕ)
      → holds (update_column sat offset rhs t prev row s j) σ ≡ true
      → (holds s σ ≡ true) × AtUpdate σ offset rhs t prev row j
  unfolding update_column
  update_column-AtUpdate offset rhs t none row s j h = (h, tt)
  update_column-AtUpdate offset rhs t (some prev) row s j h =
      let (h1, second) =
        when_ternary _ (place prev j) t.lit (place row (j + t.coeff))
          (leb j (rhs - t.coeff) && leb offset (j + t.coeff)) h in
      let (h0, first) = when_binary s (place prev j) (place row j) (leb offset j) h1 in
      (h0, ((λ l. first (ground (arith, l))), λ l k. second (ground (arith, l, k))))

  module _ (turn : Solver → ℕ → Solver) (P : ℕ → Type 0)
      (says : (s : Solver) (j : ℕ) → holds (turn s j) σ ≡ true → (holds s σ ≡ true) × P j) where
    pub columns_says :
        (k j : ℕ) (s : Solver)
        → holds (columns sat turn k j s) σ ≡ true
        → (holds s σ ≡ true) × ((i : ℕ) → j ≤ i → i < j + k → P i)
    unfolding columns
    columns_says zero j s h = (h, λ i l m. absurd (omega (arith, l, m)))
    columns_says (suc k) j s h =
        let (h1, later) = columns_says k (j + 1) (turn s j) h in
        let (h0, here) = says s j h1 in
        (
          h0,
          λ i l m. elim (Bool-cases (leb i j)) [
            | inl e ↦ let same : i ≡ j = omega (arith, l, leb→le i j e) in subst P (sym same) here
            | inr e ↦ later i (omega (arith, leb→gt i j e)) (omega (arith, m))
          ],
        )

  bound_row-AtBound :
      (rhs : ℕ) (blocking : Option Lit) (t : Term) (prev : Option (List Lit)) (s : Solver)
      → holds (bound_row sat rhs blocking t prev s) σ ≡ true
      → (holds s σ ≡ true) × AtBound σ rhs blocking t prev
  bound_row-AtBound rhs blocking t none s h = (h, tt)
  bound_row-AtBound rhs blocking t (some prev) s h =
      let e = binary-holds sat s (neg (place prev (rhs + 1 - t.coeff))) (neg t.lit) blocking σ in
      (ground (arith, h, e), λ p q. ground (arith, h, e, p, q))

  module _ (turn : Term → Option (List Lit) → List Lit → Solver → ℕ → Solver)
      (P : Term → Option (List Lit) → List Lit → ℕ → Type 0)
      (says : (t : Term) (prev : Option (List Lit)) (row : List Lit) (s : Solver) (j : ℕ)
        → holds (turn t prev row s j) σ ≡ true
        → (holds s σ ≡ true) × P t prev row j)
      (rhs : ℕ) (blocking : Option Lit) where
    pub weigh_rows-AtRows :
        (ts : List Term) (prev : Option (List Lit)) (rows : List (List Lit)) (s : Solver)
        → holds (weigh_rows sat turn rhs blocking ts prev rows s) σ ≡ true
        → (holds s σ ≡ true) × AtRows σ P rhs blocking ts prev rows
    unfolding weigh_rows
    weigh_rows-AtRows [] prev rows s h = (h, tt)
    weigh_rows-AtRows (t ∷ ts) prev [] s h = (h, tt)
    weigh_rows-AtRows (t ∷ ts) prev (row ∷ rows) s h =
        let (h2, later) = weigh_rows-AtRows ts (some row) rows _ h in
        let (h1, bound) = bound_row-AtBound rhs blocking t prev _ h2 in
        let (h0, cols) =
          columns_says (turn t prev row) (P t prev row) (says t prev row) rhs 1 s h1 in
        (h0, ((cols, bound), later))
