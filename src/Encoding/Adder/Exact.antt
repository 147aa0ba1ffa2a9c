-- ===== src/Encoding/Adder/Exact.antt =====
-- `Adder::encode` excludes exactly the assignments that go past the right-hand side.
use dmeic.Encoding.Variables.{AreBelow, Agree, IsClosed}
use dmeic.Prelude.{
  some_injective, ℕ, ◌^◌, ◌<◌, ◌≤◌, ◌≡◌, refl, sym, ◌∙◌, ap, subst, true, false, List, some, arith,
  All,
}
use dmeic.Encoding.Solver.{Lit, Assignment, Sat}
use dmeic.Encoding.Adder.{Adder, new_adder, make_buckets, ld64, start, encode}
use dmeic.Encoding.Adder.Extend.{Extends, adder_tree-Extends}
use dmeic.Encoding.Adder.Buckets.{total, make_buckets-AreBelow, total-Agree}
use dmeic.Encoding.Adder.Places.{sum}
use dmeic.Encoding.Adder.Correct.{ClzLaws, encode-at_most, encode_holds}

module _ (sat : Sat) where
  open sat use {Solver, holds, n_vars}

  start-Extends :
      (clz : ℕ → ℕ) (s : Solver) (lits : List Lit) (coeffs : List ℕ) (rhs : ℕ)
      → AreBelow (n_vars s) lits
      → Extends sat s (start sat clz s new_adder lits coeffs rhs).0
  unfolding start
  start-Extends clz s lits coeffs rhs below =
      adder_tree-Extends sat s (make_buckets 0 (ld64 clz rhs) lits coeffs)
        (make_buckets-AreBelow (n_vars s) 0 (ld64 clz rhs) lits coeffs below)

  -- With a positive right-hand side of 64 bits, no greater coefficient, coefficients that sum up to
  -- less than 2 ^ 64, and literals over variables of a solver whose clauses speak of its own
  -- variables only, `encode` succeeds on a new Adder. What
  -- satisfies the clauses after it satisfied those before, and the coefficients of its true literals
  -- sum up to at most the right-hand side; and an assignment that does both satisfies them after a
  -- change to the new variables only.
  pub encode-total :
      (clz : ℕ → ℕ) (s : Solver) (lits : List Lit) (coeffs : List ℕ) (rhs : ℕ)
      → ClzLaws clz
      → 0 < rhs
      → rhs < 2 ^ 64
      → All (λ c. c ≤ rhs) coeffs
      → sum coeffs < 2 ^ 64
      → IsClosed sat s
      → AreBelow (n_vars s) lits
      → (s' : Solver) × (a : Adder) × (encode sat clz s new_adder lits coeffs rhs ≡ some (s', a))
        × ((σ : Assignment) → holds s' σ ≡ true → (holds s σ ≡ true) × (total σ lits coeffs ≤ rhs))
        × ((σ : Assignment)
            → holds s σ ≡ true
            → total σ lits coeffs ≤ rhs
            → (τ : Assignment) × Agree (n_vars s) σ τ × (holds s' τ ≡ true))
  encode-total clz s lits coeffs rhs laws pos fits small whole closed below =
      let (s', a, e, first, size) =
        encode-at_most sat (λ v. false) clz s lits coeffs rhs laws pos fits small whole in
      (
        s',
        a,
        e,
        (λ σ h.
            let (s1, a1, e1, sound, size1) =
              encode-at_most sat σ clz s lits coeffs rhs laws pos fits small whole in
            let same : s' ≡ s1 = ap (λ p. p.0) (some_injective (sym e ∙ e1)) in
            let (h0, le, v) = sound (subst (λ k. holds k σ ≡ true) same h) in (h0, le)),
        λ σ h le.
            let (τ, agree, keeps) = (start-Extends clz s lits coeffs rhs below).1 σ in
            let (s1, a1, e1, complete) =
              encode_holds sat τ clz s lits coeffs rhs laws pos fits small whole in
            let same : s1 ≡ s' = ap (λ p. p.0) (some_injective (sym e1 ∙ e)) in
            let here = keeps τ (λ v l. refl) (closed σ τ agree ∙ h) in
            let le' : total τ lits coeffs ≤ rhs =
              omega (arith, le, total-Agree (n_vars s) σ τ lits coeffs agree below) in
            (τ, agree, subst (λ k. holds k τ ≡ true) same (complete here le')),
      )
