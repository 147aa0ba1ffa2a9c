-- ===== src/Encoding/Totalizer/Adder.antt =====
-- The clauses of `Totalizer::adder` under an assignment.
use dmeic.Prelude.{
  ℕ, zero, suc, ◌+◌, ◌-◌, ◌<◌, ◌≤◌, ◌≡◌, refl, Bool, true, false, List, [], ◌∷◌, Option, none, some,
  length, get_or, arith, Bool-cases, inl, inr, min,
}
use dmeic.Encoding.Solver.{Lit, Assignment, Sat, neg, lit_true}
use dmeic.Encoding.Clauses.{binary-holds, ternary-holds, blocked_true}
use dmeic.Encoding.Totalizer.{undef, past, cell, row, rows, adder_clauses}

-- The literal at a place; false out of range.
unfoldable pub bit : Assignment → List Lit → ℕ → Bool
bit σ [] k = false
bit σ (l ∷ ls) zero = lit_true σ l
bit σ (l ∷ ls) (suc k) = bit σ ls k

-- The literal that an index of the loops stands for: none at 0.
abbrev pub reach : Assignment → List Lit → ℕ → Bool
reach σ ls zero = true
reach σ ls (suc k) = bit σ ls k

abbrev opt_true : Assignment → Option Lit → Bool
opt_true σ none = true
opt_true σ (some l) = lit_true σ l

module _ (sat : Sat) (skip : ℕ → Bool) (out : List Lit) (blocking : Option Lit) (σ : Assignment)
    (free : blocked_true σ blocking ≡ false) where
  open sat use {Solver, holds}

  abbrev SetOut : ℕ → Type 0
  SetOut n = lit_true σ (get_or out (n - 1) undef) ≡ true

  cell_sound :
      (s : Solver) (i : ℕ) (l r : Option Lit) (j : ℕ)
      → (l ≡ none → i ≡ 0)
      → (r ≡ none → j ≡ 0)
      → holds (cell sat skip out blocking s i l j r) σ ≡ true
      → (holds s σ ≡ true)
        × (opt_true σ l ≡ true
            → opt_true σ r ≡ true
            → skip (i + j) ≡ false
            → 0 < i + j
            → SetOut (i + j))
  unfolding cell
  cell_sound s i none none j hi hj h = (h, λ p q u v. absurd (omega (arith, hi refl, hj refl)))
  cell_sound s i none (some r) j hi hj h =
      let e : i + j ≡ j = omega (arith, hi refl) in
      elim (Bool-cases (skip (i + j))) [
        | inl big ↦ (rw big at h, λ p q u v. absurd (ground (arith, u, big)))
        | inr small ↦
            let b = binary-holds sat s (neg r) (get_or out (j - 1) undef) blocking σ in
            let h' = rw small at h in
            (ground (arith, b, h', free), λ p q u v. rw e (ground (arith, b, h', free)))
      ]
  cell_sound s i (some l) none j hi hj h =
      let e : i + j ≡ i = omega (arith, hj refl) in
      elim (Bool-cases (skip (i + j))) [
        | inl big ↦ (rw big at h, λ p q u v. absurd (ground (arith, u, big)))
        | inr small ↦
            let b = binary-holds sat s (neg l) (get_or out (i - 1) undef) blocking σ in
            let h' = rw small at h in
            (ground (arith, b, h', free), λ p q u v. rw e (ground (arith, b, h', free)))
      ]
  cell_sound s i (some l) (some r) j hi hj h = elim (Bool-cases (skip (i + j))) [
    | inl big ↦ (rw big at h, λ p q u v. absurd (ground (arith, u, big)))
    | inr small ↦
        let b = ternary-holds sat s (neg l) (neg r) (get_or out (i + j - 1) undef) blocking σ in
        let h' = rw small at h in
        (ground (arith, b, h', free), λ p q u v. ground (arith, b, h', free))
  ]

  row_sound :
      (s : Solver) (i : ℕ) (l : Option Lit) (j : ℕ) (rs : List Lit)
      → (l ≡ none → i ≡ 0)
      → 0 < j
      → holds (row sat skip out blocking s i l j rs) σ ≡ true
      → (holds s σ ≡ true)
        × ((k : ℕ)
            → opt_true σ l ≡ true
            → bit σ rs k ≡ true
            → skip (i + (j + k)) ≡ false
            → SetOut (i + (j + k)))
  unfolding row bit
  row_sound s i l j [] hi hj h = (h, λ k p q u. cc)
  row_sound s i l j (r ∷ rs) hi hj h =
      let (h1, later) =
        row_sound (cell sat skip out blocking s i l j (some r)) i l (suc j) rs hi (omega arith) h in
      let (h0, here) = cell_sound s i l (some r) j hi (λ e. cc) h1 in
      (
        h0,
        elim [
          | zero ↦ let e : j + 0 ≡ j = omega arith in rw e (λ p q u. here p q u (omega arith))
          | suc k ↦ let e : j + suc k ≡ suc j + k = omega arith in rw e (later k)
        ],
      )

  -- A whole row: the index 0 of the inner loop, and the others.
  line_sound :
      (s : Solver) (i : ℕ) (l : Option Lit) (right : List Lit)
      → (l ≡ none → i ≡ 0)
      → holds (row sat skip out blocking (cell sat skip out blocking s i l 0 none) i l 1 right) σ
        ≡ true
      → (holds s σ ≡ true)
        × ((m : ℕ)
            → opt_true σ l ≡ true
            → reach σ right m ≡ true
            → skip (i + m) ≡ false
            → 0 < i + m
            → SetOut (i + m))
  line_sound s i l right hi h =
      let (h1, later) =
        row_sound (cell sat skip out blocking s i l 0 none) i l 1 right hi (omega arith) h in
      let (h0, here) = cell_sound s i l none 0 hi (λ e. refl) h1 in
      (
        h0,
        elim [
          | zero ↦ λ p q u v. here p refl u v
          | suc k ↦ let e : suc k ≡ 1 + k = omega arith in rw e (λ p q u v. later k p q u)
        ],
      )

  rows_sound :
      (s : Solver) (i : ℕ) (ls right : List Lit)
      → 0 < i
      → holds (rows sat skip out blocking s i ls right) σ ≡ true
      → (holds s σ ≡ true)
        × ((k m : ℕ)
            → bit σ ls k ≡ true
            → reach σ right m ≡ true
            → skip (i + k + m) ≡ false
            → SetOut (i + k + m))
  unfolding rows bit
  rows_sound s i [] right hi h = (h, λ k m p q u. cc)
  rows_sound s i (l ∷ ls) right hi h =
      let (h1, later) =
        rows_sound
          (row sat skip out blocking (cell sat skip out blocking s i (some l) 0 none) i (some l) 1
            right)
          (suc i) ls right (omega arith) h in
      let (h0, here) = line_sound s i (some l) right (λ e. cc) h1 in
      (
        h0,
        elim [
          | zero ↦ λ m.
              let e : i + 0 + m ≡ i + m = omega arith in rw e (λ p q u. here m p q u (omega arith))
          | suc k ↦ λ m. let e : i + suc k + m ≡ suc i + k + m = omega arith in rw e (later k m)
        ],
      )

  -- The clauses of `adder`: if the first `i` places on the left and the first `j` on the right say
  -- so, the output at `i + j` is true, for sums that are not skipped.
  pub adder_clauses_sound :
      (s : Solver) (left right : List Lit)
      → holds (adder_clauses sat skip out blocking s left right) σ ≡ true
      → (holds s σ ≡ true)
        × ((i j : ℕ)
            → reach σ left i ≡ true
            → reach σ right j ≡ true
            → skip (i + j) ≡ false
            → 0 < i + j
            → lit_true σ (get_or out (i + j - 1) undef) ≡ true)
  unfolding adder_clauses
  adder_clauses_sound s left right h =
      let (h1, later) =
        rows_sound
          (row sat skip out blocking (cell sat skip out blocking s 0 none 0 none) 0 none 1 right) 1
          left right (omega arith) h in
      let (h0, here) = line_sound s 0 none right (λ e. refl) h1 in
      (
        h0,
        elim [
          | zero ↦ λ j p q u v. here j refl q u v
          | suc k ↦
              λ j. let e : suc k + j ≡ 1 + k + j = omega arith in rw e (λ p q u v. later k j p q u)
        ],
      )

pub bit-get_or :
    (σ : Assignment) (ls : List Lit) (k : ℕ)
    → k < length ls
    → lit_true σ (get_or ls k undef) ≡ true
    → bit σ ls k ≡ true
unfolding bit
bit-get_or σ [] k h t = absurd (omega arith)
bit-get_or σ (l ∷ ls) zero h t = t
bit-get_or σ (l ∷ ls) (suc k) h t = bit-get_or σ ls k (omega arith) t

-- The first `n` places of a list, up to the place `rhs`, are true.
abbrev pub CountsTo : ℕ → Assignment → List Lit → ℕ → Type 0
CountsTo rhs σ ls n = (m : ℕ) → m < n → m ≤ rhs → bit σ ls m ≡ true

reach_of_counts :
    (rhs : ℕ) (σ : Assignment) (ls : List Lit) (n m : ℕ)
    → CountsTo rhs σ ls n
    → m ≤ n
    → m ≤ rhs + 1
    → reach σ ls m ≡ true
reach_of_counts rhs σ ls n zero h u v = refl
reach_of_counts rhs σ ls n (suc m) h u v = h m u (omega arith)

-- If an assignment satisfies the clauses of `adder` and does not make `blocking` true, the first `a`
-- literals on the left and the first `b` on the right are true up to the place `rhs`, and the output
-- has `a + b` places, then the first `a + b` literals of the output are true up to the place `rhs`.
pub adder-CountsTo :
    (sat : Sat) (rhs : ℕ) (out : List Lit) (blocking : Option Lit) (σ : Assignment)
    → blocked_true σ blocking ≡ false
    → (s : sat.Solver) (left right : List Lit) (a b : ℕ)
    → sat.holds (adder_clauses sat (past rhs) out blocking s left right) σ ≡ true
    → CountsTo rhs σ left a
    → CountsTo rhs σ right b
    → a + b ≤ length out
    → CountsTo rhs σ out (a + b)
adder-CountsTo sat rhs out blocking σ free s left right a b h ca cb fits m lt le =
    let i = min a (suc m) in
    let j = suc m - i in
    let sum : i + j ≡ suc m = omega arith in
    let e : i + j - 1 ≡ m = omega arith in
    let t =
      (adder_clauses_sound sat (past rhs) out blocking σ free s left right h).1 i j
        (reach_of_counts rhs σ left a i ca (omega arith) (omega arith))
        (reach_of_counts rhs σ right b j cb (omega arith) (omega arith)) (ground arith)
        (omega arith) in
    bit-get_or σ out m (omega arith) (rw e at t)
