-- ===== src/Encoding/Adder/Gates.antt =====
-- The gates of `Adder` under an assignment.
use dmeic.Prelude.{
  ℕ, ◌+◌, ◌*◌, ◌≡◌, sym, ◌∙◌, Bool, true, not, ◌&&◌, ◌||◌, none, arith, if◌then◌else◌,
}
use dmeic.Encoding.Solver.{Lit, Assignment, Sat, neg, lit_true}
use dmeic.Encoding.Clauses.{
  add_binary, add_ternary, add_quaternary, binary-holds, ternary-holds, quaternary-holds,
}
use dmeic.Encoding.Adder.{fa_sum, fa_carry, fa_extra, ha_sum, ha_carry}

abbrev pub one : Bool → ℕ
one b = if b then 1 else 0

lit_true-neg : (σ : Assignment) (l : Lit) → lit_true σ (neg l) ≡ not (lit_true σ l)
lit_true-neg σ l = ground arith

module _ (sat : Sat) (σ : Assignment) where
  open sat use {Solver, holds, n_vars, new_var, holds-new_var}

  binary-elim :
      (s : Solver) (a b : Lit)
      → holds (add_binary sat s a b none) σ ≡ true
      → (lit_true σ a || lit_true σ b ≡ true) × (holds s σ ≡ true)
  binary-elim s a b h = ground (arith, h, binary-holds sat s a b none σ)

  ternary-elim :
      (s : Solver) (a b c : Lit)
      → holds (add_ternary sat s a b c none) σ ≡ true
      → (lit_true σ a || (lit_true σ b || lit_true σ c) ≡ true) × (holds s σ ≡ true)
  ternary-elim s a b c h = ground (arith, h, ternary-holds sat s a b c none σ)

  quaternary-elim :
      (s : Solver) (a b c d : Lit)
      → holds (add_quaternary sat s a b c d none) σ ≡ true
      → (lit_true σ a || (lit_true σ b || (lit_true σ c || lit_true σ d)) ≡ true)
        × (holds s σ ≡ true)
  quaternary-elim s a b c d h = ground (arith, h, quaternary-holds sat s a b c d none σ)

  pub ha_carry_lem :
      (s : Solver) (a b : Lit)
      → holds (ha_carry sat s a b).0 σ ≡ true
      → (holds s σ ≡ true) × (lit_true σ (ha_carry sat s a b).1 ≡ lit_true σ a && lit_true σ b)
  unfolding ha_carry
  ha_carry_lem s a b h =
      let (c3, h3) = ternary-elim _ _ _ _ h in
      let (c2, h2) = binary-elim _ _ _ h3 in
      let (c1, h1) = binary-elim _ _ _ h2 in
      (sym (holds-new_var s σ) ∙ h1, ground (arith, c1, c2, c3))

  pub ha_sum_lem :
      (s : Solver) (a b : Lit)
      → holds (ha_sum sat s a b).0 σ ≡ true
      → (holds s σ ≡ true)
        × (lit_true σ (ha_sum sat s a b).1
            ≡ (if lit_true σ a then not (lit_true σ b) else lit_true σ b))
  unfolding ha_sum
  ha_sum_lem s a b h =
      let (c4, h4) = ternary-elim _ _ _ _ h in
      let (c3, h3) = ternary-elim _ _ _ _ h4 in
      let (c2, h2) = ternary-elim _ _ _ _ h3 in
      let (c1, h1) = ternary-elim _ _ _ _ h2 in
      (sym (holds-new_var s σ) ∙ h1, ground (arith, c1, c2, c3, c4))

  fa_extra_lem :
      (s : Solver) (xc xs a b c : Lit)
      → holds (fa_extra sat s xc xs a b c) σ ≡ true
      → holds s σ ≡ true
  unfolding fa_extra
  fa_extra_lem s xc xs a b c h =
      let (c6, h6) = ternary-elim _ _ _ _ h in
      let (c5, h5) = ternary-elim _ _ _ _ h6 in
      let (c4, h4) = ternary-elim _ _ _ _ h5 in
      let (c3, h3) = ternary-elim _ _ _ _ h4 in
      let (c2, h2) = ternary-elim _ _ _ _ h3 in (ternary-elim _ _ _ _ h2).1

  fa_carry_lem :
      (s : Solver) (a b c : Lit)
      → holds (fa_carry sat s a b c).0 σ ≡ true
      → (holds s σ ≡ true)
        × (lit_true σ (fa_carry sat s a b c).1
            ≡ (if lit_true σ a then lit_true σ b || lit_true σ c else lit_true σ b && lit_true σ c))
  unfolding fa_carry
  fa_carry_lem s a b c h =
      let (c6, h6) = ternary-elim _ _ _ _ h in
      let (c5, h5) = ternary-elim _ _ _ _ h6 in
      let (c4, h4) = ternary-elim _ _ _ _ h5 in
      let (c3, h3) = ternary-elim _ _ _ _ h4 in
      let (c2, h2) = ternary-elim _ _ _ _ h3 in
      let (c1, h1) = ternary-elim _ _ _ _ h2 in
      (sym (holds-new_var s σ) ∙ h1, ground (arith, c1, c2, c3, c4, c5, c6))

  fa_sum_lem :
      (s : Solver) (a b c : Lit)
      → holds (fa_sum sat s a b c).0 σ ≡ true
      → (holds s σ ≡ true)
        × (lit_true σ (fa_sum sat s a b c).1 ≡ (
            if lit_true σ a
            then (if lit_true σ b then lit_true σ c else not (lit_true σ c))
            else (if lit_true σ b then not (lit_true σ c) else lit_true σ c)))
  unfolding fa_sum
  fa_sum_lem s a b c h =
      let (c8, h8) = quaternary-elim _ _ _ _ _ h in
      let (c7, h7) = quaternary-elim _ _ _ _ _ h8 in
      let (c6, h6) = quaternary-elim _ _ _ _ _ h7 in
      let (c5, h5) = quaternary-elim _ _ _ _ _ h6 in
      let (c4, h4) = quaternary-elim _ _ _ _ _ h5 in
      let (c3, h3) = quaternary-elim _ _ _ _ _ h4 in
      let (c2, h2) = quaternary-elim _ _ _ _ _ h3 in
      let (c1, h1) = quaternary-elim _ _ _ _ _ h2 in
      (sym (holds-new_var s σ) ∙ h1, ground (arith, c1, c2, c3, c4, c5, c6, c7, c8))

  -- The two outputs are the sum of the three inputs.
  pub full_adder :
      (s : Solver) (a b c : Lit)
      → (let (s1, xs) = fa_sum sat s a b c in
          let (s2, xc) = fa_carry sat s1 a b c in
          holds (fa_extra sat s2 xc xs a b c) σ ≡ true
          → (holds s σ ≡ true)
            × (one (lit_true σ xs) + 2 * one (lit_true σ xc)
                ≡ one (lit_true σ a) + one (lit_true σ b) + one (lit_true σ c)))
  full_adder s a b c h =
      let (h1, carry) = fa_carry_lem _ a b c (fa_extra_lem _ _ _ a b c h) in
      let (h0, sum) = fa_sum_lem s a b c h1 in (h0, ground (arith, carry, sum))

  pub half_adder :
      (s : Solver) (a b : Lit)
      → (let (s1, x) = ha_sum sat s a b in
          let (s2, xc) = ha_carry sat s1 a b in
          holds s2 σ ≡ true
          → (holds s σ ≡ true)
            × (one (lit_true σ x) + 2 * one (lit_true σ xc)
                ≡ one (lit_true σ a) + one (lit_true σ b)))
  half_adder s a b h =
      let (h1, carry) = ha_carry_lem _ a b h in
      let (h0, sum) = ha_sum_lem s a b h1 in (h0, ground (arith, carry, sum))
