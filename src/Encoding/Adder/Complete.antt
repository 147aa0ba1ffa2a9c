-- ===== src/Encoding/Adder/Complete.antt =====
-- The gates of `Adder` leave every assignment of the variables of before possible.
use dmeic.Prelude.{
  ℕ, suc, ◌≡◌, refl, ◌∙◌, Bool, true, false, not, ◌&&◌, ◌||◌, [], ◌∷◌, none, arith, if◌then◌else◌,
  ◌==◌,
}
use dmeic.Encoding.Solver.{Lit, Assignment, Sat, mk_lit, neg, lit_true}
use dmeic.Encoding.Clauses.{
  add_binary, add_ternary, add_quaternary, binary-holds, ternary-holds, quaternary-holds,
}
use dmeic.Encoding.Adder.{fa_sum, fa_carry, fa_extra, ha_sum, ha_carry}

abbrev pub assign : Assignment → ℕ → Bool → Assignment
assign σ n b v = if v == n then b else σ v

abbrev pub xor3 : Bool → Bool → Bool → Bool
xor3 a b c = if a then (if b then c else not c) else (if b then not c else c)

abbrev pub most3 : Bool → Bool → Bool → Bool
most3 a b c = if a then b || c else b && c

module _ (sat : Sat) where
  open sat use {Solver, holds, n_vars, new_var, holds-new_var, n_vars-new_var, n_vars-add_clause}

  n_vars-binary : (s : Solver) (a b : Lit) → n_vars (add_binary sat s a b none) ≡ n_vars s
  unfolding add_binary
  n_vars-binary s a b = n_vars-add_clause s (a ∷ b ∷ [])

  n_vars-ternary : (s : Solver) (a b c : Lit) → n_vars (add_ternary sat s a b c none) ≡ n_vars s
  unfolding add_ternary
  n_vars-ternary s a b c = n_vars-add_clause s (a ∷ b ∷ c ∷ [])

  n_vars-quaternary :
      (s : Solver) (a b c d : Lit) → n_vars (add_quaternary sat s a b c d none) ≡ n_vars s
  unfolding add_quaternary
  n_vars-quaternary s a b c d = n_vars-add_clause s (a ∷ b ∷ c ∷ d ∷ [])

  pub n_vars-ha_sum : (s : Solver) (a b : Lit) → n_vars (ha_sum sat s a b).0 ≡ suc (n_vars s)
  unfolding ha_sum
  n_vars-ha_sum s a b = simp (n_vars-ternary, n_vars-new_var) refl

  pub n_vars-ha_carry : (s : Solver) (a b : Lit) → n_vars (ha_carry sat s a b).0 ≡ suc (n_vars s)
  unfolding ha_carry
  n_vars-ha_carry s a b = simp (n_vars-ternary, n_vars-binary, n_vars-new_var) refl

  pub n_vars-fa_sum : (s : Solver) (a b c : Lit) → n_vars (fa_sum sat s a b c).0 ≡ suc (n_vars s)
  unfolding fa_sum
  n_vars-fa_sum s a b c = simp (n_vars-quaternary, n_vars-new_var) refl

  pub n_vars-fa_carry :
      (s : Solver) (a b c : Lit) → n_vars (fa_carry sat s a b c).0 ≡ suc (n_vars s)
  unfolding fa_carry
  n_vars-fa_carry s a b c = simp (n_vars-ternary, n_vars-new_var) refl

  pub n_vars-fa_extra :
      (s : Solver) (xc xs a b c : Lit) → n_vars (fa_extra sat s xc xs a b c) ≡ n_vars s
  unfolding fa_extra
  n_vars-fa_extra s xc xs a b c = simp n_vars-ternary refl

  module _ (τ : Assignment) where
    ternary-intro :
        (s : Solver) (a b c : Lit)
        → holds s τ ≡ true
        → lit_true τ a || (lit_true τ b || lit_true τ c) ≡ true
        → holds (add_ternary sat s a b c none) τ ≡ true
    ternary-intro s a b c h k = ground (arith, h, k, ternary-holds sat s a b c none τ)

    binary-intro :
        (s : Solver) (a b : Lit)
        → holds s τ ≡ true
        → lit_true τ a || lit_true τ b ≡ true
        → holds (add_binary sat s a b none) τ ≡ true
    binary-intro s a b h k = ground (arith, h, k, binary-holds sat s a b none τ)

    quaternary-intro :
        (s : Solver) (a b c d : Lit)
        → holds s τ ≡ true
        → lit_true τ a || (lit_true τ b || (lit_true τ c || lit_true τ d)) ≡ true
        → holds (add_quaternary sat s a b c d none) τ ≡ true
    quaternary-intro s a b c d h k = ground (arith, h, k, quaternary-holds sat s a b c d none τ)

    pub fa_sum-intro :
        (s : Solver) (a b c : Lit)
        → holds s τ ≡ true
        → τ (n_vars s) ≡ xor3 (lit_true τ a) (lit_true τ b) (lit_true τ c)
        → holds (fa_sum sat s a b c).0 τ ≡ true
    unfolding fa_sum
    fa_sum-intro s a b c h e =
        let h1 =
          quaternary-intro _ a b c (mk_lit (n_vars s) true) (holds-new_var s τ ∙ h)
            (ground (arith, e)) in
        let h2 =
          quaternary-intro _ a (neg b) (neg c) (mk_lit (n_vars s) true) h1 (ground (arith, e)) in
        let h3 =
          quaternary-intro _ (neg a) b (neg c) (mk_lit (n_vars s) true) h2 (ground (arith, e)) in
        let h4 =
          quaternary-intro _ (neg a) (neg b) c (mk_lit (n_vars s) true) h3 (ground (arith, e)) in
        let h5 =
          quaternary-intro _ (neg a) (neg b) (neg c) (mk_lit (n_vars s) false) h4
            (ground (arith, e)) in
        let h6 = quaternary-intro _ (neg a) b c (mk_lit (n_vars s) false) h5 (ground (arith, e)) in
        let h7 = quaternary-intro _ a (neg b) c (mk_lit (n_vars s) false) h6 (ground (arith, e)) in
        quaternary-intro _ a b (neg c) (mk_lit (n_vars s) false) h7 (ground (arith, e))

    pub fa_carry-intro :
        (s : Solver) (a b c : Lit)
        → holds s τ ≡ true
        → τ (n_vars s) ≡ most3 (lit_true τ a) (lit_true τ b) (lit_true τ c)
        → holds (fa_carry sat s a b c).0 τ ≡ true
    unfolding fa_carry
    fa_carry-intro s a b c h e =
        let h1 =
          ternary-intro _ b c (mk_lit (n_vars s) true) (holds-new_var s τ ∙ h)
            (ground (arith, e)) in
        let h2 = ternary-intro _ a c (mk_lit (n_vars s) true) h1 (ground (arith, e)) in
        let h3 = ternary-intro _ a b (mk_lit (n_vars s) true) h2 (ground (arith, e)) in
        let h4 = ternary-intro _ (neg b) (neg c) (mk_lit (n_vars s) false) h3 (ground (arith, e)) in
        let h5 = ternary-intro _ (neg a) (neg c) (mk_lit (n_vars s) false) h4 (ground (arith, e)) in
        ternary-intro _ (neg a) (neg b) (mk_lit (n_vars s) false) h5 (ground (arith, e))

    pub fa_extra-intro :
        (s : Solver) (xc xs a b c : Lit)
        → holds s τ ≡ true
        → lit_true τ xs ≡ xor3 (lit_true τ a) (lit_true τ b) (lit_true τ c)
        → lit_true τ xc ≡ most3 (lit_true τ a) (lit_true τ b) (lit_true τ c)
        → holds (fa_extra sat s xc xs a b c) τ ≡ true
    unfolding fa_extra
    fa_extra-intro s xc xs a b c h e f =
        let h1 = ternary-intro _ (neg xc) (neg xs) a h (ground (arith, e, f)) in
        let h2 = ternary-intro _ (neg xc) (neg xs) b h1 (ground (arith, e, f)) in
        let h3 = ternary-intro _ (neg xc) (neg xs) c h2 (ground (arith, e, f)) in
        let h4 = ternary-intro _ xc xs (neg a) h3 (ground (arith, e, f)) in
        let h5 = ternary-intro _ xc xs (neg b) h4 (ground (arith, e, f)) in
        ternary-intro _ xc xs (neg c) h5 (ground (arith, e, f))

    pub ha_sum-intro :
        (s : Solver) (a b : Lit)
        → holds s τ ≡ true
        → τ (n_vars s) ≡ (if lit_true τ a then not (lit_true τ b) else lit_true τ b)
        → holds (ha_sum sat s a b).0 τ ≡ true
    unfolding ha_sum
    ha_sum-intro s a b h e =
        let h1 =
          ternary-intro _ (neg a) (neg b) (mk_lit (n_vars s) true) (holds-new_var s τ ∙ h)
            (ground (arith, e)) in
        let h2 = ternary-intro _ a b (mk_lit (n_vars s) true) h1 (ground (arith, e)) in
        let h3 = ternary-intro _ (neg a) b (mk_lit (n_vars s) false) h2 (ground (arith, e)) in
        ternary-intro _ a (neg b) (mk_lit (n_vars s) false) h3 (ground (arith, e))

    pub ha_carry-intro :
        (s : Solver) (a b : Lit)
        → holds s τ ≡ true
        → τ (n_vars s) ≡ lit_true τ a && lit_true τ b
        → holds (ha_carry sat s a b).0 τ ≡ true
    unfolding ha_carry
    ha_carry-intro s a b h e =
        let h1 =
          binary-intro _ a (mk_lit (n_vars s) true) (holds-new_var s τ ∙ h) (ground (arith, e)) in
        let h2 = binary-intro _ b (mk_lit (n_vars s) true) h1 (ground (arith, e)) in
        ternary-intro _ (neg a) (neg b) (mk_lit (n_vars s) false) h2 (ground (arith, e))
