-- ===== src/Encoding/Adder/Extend.antt =====
-- Each step of `adderTree` extends an assignment of the variables of before to its new ones.
use dmeic.Encoding.Variables.{AreBelow, Agree, lit_true-Agree}
use dmeic.Prelude.{
  ℕ, zero, suc, ◌+◌, ◌<◌, ◌≤◌, ◌≡◌, refl, ◌∙◌, ap, Bool, true, false, not, ◌&&◌, List, [], ◌∷◌,
  ◌++◌, arith, if◌then◌else◌, leb, length, All, All-mono, All-append, Bool-cases, inl, inr,
}
use dmeic.Encoding.Solver.{Lit, Assignment, Sat, mk_lit, lit_true}
use dmeic.Encoding.Adder.{
  fa_sum, fa_carry, fa_extra, ha_sum, ha_carry, add_bucket, tree_from, adder_tree, size,
}
use dmeic.Encoding.Adder.Complete.{
  assign, xor3, most3, n_vars-ha_sum, n_vars-ha_carry, n_vars-fa_sum, n_vars-fa_carry,
  n_vars-fa_extra, fa_sum-intro, fa_carry-intro, fa_extra-intro, ha_sum-intro, ha_carry-intro,
}

AreBelow-mono : (n m : ℕ) (ls : List Lit) → n ≤ m → AreBelow n ls → AreBelow m ls
AreBelow-mono n m ls le h =
    All-mono (λ l. l.var < n) (λ l. l.var < m) ls (λ l k. omega (arith, k, le)) h

module _ (sat : Sat) where
  open sat use {Solver, holds, n_vars}

  -- The second solver has the variables of the first, and every assignment of these extends to one
  -- under which its new clauses hold.
  abbrev pub Extends : Solver → Solver → Type 0
  Extends s s' =
      (n_vars s ≤ n_vars s')
      × ((σ : Assignment)
          → (σ' : Assignment) × Agree (n_vars s) σ σ'
            × ((τ : Assignment) → Agree (n_vars s') σ' τ → holds s τ ≡ true → holds s' τ ≡ true))

  Extends-refl : (s : Solver) → Extends s s
  Extends-refl s = (omega arith, λ σ. (σ, (λ v h. refl), λ τ g h. h))

  Extends-trans : (s t u : Solver) → Extends s t → Extends t u → Extends s u
  Extends-trans s t u (le1, f) (le2, g) = (
    omega (arith, le1, le2),
    λ σ.
        let (σ1, a1, k1) = f σ in
        let (σ2, a2, k2) = g σ1 in
        (
          σ2,
          (λ v h. a2 v (omega (arith, h, le1)) ∙ a1 v h),
          λ τ a h. k2 τ a (k1 τ (λ v l. a v (omega (arith, l, le2)) ∙ a2 v l) h),
        ),
  )

  -- Two new variables.
  two_assigned :
      (n : ℕ) (σ : Assignment) (x y : Bool)
      → let σ' = assign (assign σ n x) (suc n) y in Agree n σ σ' × (σ' n ≡ x) × (σ' (suc n) ≡ y)
  two_assigned n σ x y = ((λ v h. ground (arith, h)), ground arith, ground arith)

  full_adder-Extends :
      (s : Solver) (a b c : Lit)
      → AreBelow (n_vars s) (a ∷ b ∷ c ∷ [])
      → (let (s1, xs) = fa_sum sat s a b c in
          let (s2, xc) = fa_carry sat s1 a b c in
          Extends s (fa_extra sat s2 xc xs a b c)
          × (n_vars (fa_extra sat s2 xc xs a b c) ≡ n_vars s + 2)
          × (xs.var ≡ n_vars s)
          × (xc.var ≡ n_vars s + 1))
  unfolding fa_sum fa_carry
  full_adder-Extends s a b c below =
      let s1 = (fa_sum sat s a b c).0 in
      let xs = mk_lit (n_vars s) false in
      let s2 = (fa_carry sat s1 a b c).0 in
      let xc = mk_lit (n_vars s1) false in
      let n1 : n_vars s1 ≡ suc (n_vars s) = n_vars-fa_sum sat s a b c in
      let n2 : n_vars s2 ≡ suc (n_vars s1) = n_vars-fa_carry sat s1 a b c in
      let n3 = n_vars-fa_extra sat s2 xc xs a b c in
      (
        (
          omega (arith, n1, n2, n3),
          λ σ.
              let sum = xor3 (lit_true σ a) (lit_true σ b) (lit_true σ c) in
              let carry = most3 (lit_true σ a) (lit_true σ b) (lit_true σ c) in
              let (agree, at_sum, at_carry) = two_assigned (n_vars s) σ sum carry in
              let σ' = assign (assign σ (n_vars s) sum) (suc (n_vars s)) carry in
              (
                σ',
                agree,
                λ τ g h.
                    let old : Agree (n_vars s) σ τ =
                      λ v l. g v (omega (arith, l, n1, n2, n3)) ∙ agree v l in
                    let ea = lit_true-Agree (n_vars s) σ τ a old below.0 in
                    let eb = lit_true-Agree (n_vars s) σ τ b old below.1.0 in
                    let ec = lit_true-Agree (n_vars s) σ τ c old below.1.1.0 in
                    let x : τ (n_vars s) ≡ sum =
                      g (n_vars s) (omega (arith, n1, n2, n3)) ∙ at_sum in
                    let y : τ (n_vars s1) ≡ carry =
                      ap τ n1 ∙ (g (suc (n_vars s)) (omega (arith, n1, n2, n3)) ∙ at_carry) in
                    let x' : τ (n_vars s) ≡ xor3 (lit_true τ a) (lit_true τ b) (lit_true τ c) =
                      rw (ea, eb, ec) x in
                    let y' : τ (n_vars s1) ≡ most3 (lit_true τ a) (lit_true τ b) (lit_true τ c) =
                      rw (ea, eb, ec) y in
                    let h1 = fa_sum-intro sat τ s a b c h x' in
                    let h2 = fa_carry-intro sat τ s1 a b c h1 y' in
                    fa_extra-intro sat τ s2 xc xs a b c h2 x' y',
              ),
        ),
        omega (arith, n1, n2, n3),
        refl,
        omega (arith, n1),
      )

  half_adder-Extends :
      (s : Solver) (a b : Lit)
      → AreBelow (n_vars s) (a ∷ b ∷ [])
      → (let (s1, x) = ha_sum sat s a b in
          let (s2, xc) = ha_carry sat s1 a b in
          Extends s s2 × (n_vars s2 ≡ n_vars s + 2) × (x.var ≡ n_vars s) × (xc.var ≡ n_vars s + 1))
  unfolding ha_sum ha_carry
  half_adder-Extends s a b below =
      let s1 = (ha_sum sat s a b).0 in
      let s2 = (ha_carry sat s1 a b).0 in
      let n1 : n_vars s1 ≡ suc (n_vars s) = n_vars-ha_sum sat s a b in
      let n2 : n_vars s2 ≡ suc (n_vars s1) = n_vars-ha_carry sat s1 a b in
      (
        (
          omega (arith, n1, n2),
          λ σ.
              let sum = if lit_true σ a then not (lit_true σ b) else lit_true σ b in
              let carry = lit_true σ a && lit_true σ b in
              let (agree, at_sum, at_carry) = two_assigned (n_vars s) σ sum carry in
              let σ' = assign (assign σ (n_vars s) sum) (suc (n_vars s)) carry in
              (
                σ',
                agree,
                λ τ g h.
                    let old : Agree (n_vars s) σ τ =
                      λ v l. g v (omega (arith, l, n1, n2)) ∙ agree v l in
                    let ea = lit_true-Agree (n_vars s) σ τ a old below.0 in
                    let eb = lit_true-Agree (n_vars s) σ τ b old below.1.0 in
                    let x : τ (n_vars s) ≡ sum = g (n_vars s) (omega (arith, n1, n2)) ∙ at_sum in
                    let y : τ (n_vars s1) ≡ carry =
                      ap τ n1 ∙ (g (suc (n_vars s)) (omega (arith, n1, n2)) ∙ at_carry) in
                    let h1 = ha_sum-intro sat τ s a b h (rw (ea, eb) x) in
                    ha_carry-intro sat τ s1 a b h1 (rw (ea, eb) y),
              ),
        ),
        omega (arith, n1, n2),
        refl,
        omega (arith, n1),
      )

  add_bucket-Extends :
      (fuel : ℕ) (s : Solver) (q next : List Lit)
      → AreBelow (n_vars s) q
      → AreBelow (n_vars s) next
      → Extends s (add_bucket sat fuel s q next).0
        × AreBelow (n_vars (add_bucket sat fuel s q next).0) (add_bucket sat fuel s q next).2
  unfolding add_bucket
  add_bucket-Extends fuel s [] next bq bn = (Extends-refl s, bn)
  add_bucket-Extends fuel s (x ∷ []) next bq bn = (Extends-refl s, bn)
  add_bucket-Extends fuel s (x ∷ y ∷ []) next bq bn =
      let (ext, n2, vx, vc) = half_adder-Extends s x y bq in
      let (s1, h) = ha_sum sat s x y in
      let (s2, c) = ha_carry sat s1 x y in
      (
        ext,
        All-append (λ l. l.var < n_vars s2) next (c ∷ [])
            (AreBelow-mono (n_vars s) (n_vars s2) next ext.0 bn) (omega (arith, vc, n2), tt),
      )
  add_bucket-Extends zero s (x ∷ y ∷ z ∷ q) next bq bn = (Extends-refl s, bn)
  add_bucket-Extends (suc fuel) s (x ∷ y ∷ z ∷ q) next bq bn =
      let (s1, xs) = fa_sum sat s x y z in
      let (s2, xc) = fa_carry sat s1 x y z in
      let s3 = fa_extra sat s2 xc xs x y z in
      let (ext, n3, vs, vc) = full_adder-Extends s x y z (bq.0, (bq.1.0, (bq.1.1.0, tt))) in
      let up = AreBelow-mono (n_vars s) (n_vars s3) in
      let (later, below) =
        add_bucket-Extends fuel s3 (q ++ xs ∷ []) (next ++ xc ∷ [])
          (All-append (λ l. l.var < n_vars s3) q (xs ∷ []) (up q ext.0 bq.1.1.1)
            (omega (arith, vs, n3), tt))
          (All-append (λ l. l.var < n_vars s3) next (xc ∷ []) (up next ext.0 bn)
            (omega (arith, vc, n3), tt)) in
      (Extends-trans s s3 _ ext later, below)

  tree_from-Extends :
      (fuel : ℕ) (s : Solver) (q : List Lit) (rest : List (List Lit))
      → AreBelow (n_vars s) q
      → All (AreBelow (n_vars s)) rest
      → Extends s (tree_from sat fuel s q rest).0
  unfolding tree_from
  tree_from-Extends zero s q rest bq br = Extends-refl s
  tree_from-Extends (suc fuel) s q (next ∷ rest) bq br =
      let (s1, r, next') = add_bucket sat (length q) s q next in
      let (ext, below) = add_bucket-Extends (length q) s q next bq br.0 in
      let up =
        All-mono (AreBelow (n_vars s)) (AreBelow (n_vars s1)) rest
          (λ ls. AreBelow-mono (n_vars s) (n_vars s1) ls ext.0) br.1 in
      Extends-trans s s1 _ ext (tree_from-Extends fuel s1 next' rest below up)
  tree_from-Extends (suc fuel) s q [] bq br =
      let (s1, r, next') = add_bucket sat (length q) s q [] in
      let (ext, below) = add_bucket-Extends (length q) s q [] bq tt in
      elim (Bool-cases (leb 2 (length q))) [
        | inl many ↦
            rw many (Extends-trans s s1 _ ext (tree_from-Extends fuel s1 next' [] below tt))
        | inr few ↦ rw few ext
      ]

  pub adder_tree-Extends :
      (s : Solver) (bs : List (List Lit))
      → All (AreBelow (n_vars s)) bs
      → Extends s (adder_tree sat s bs).0
  unfolding adder_tree
  adder_tree-Extends s [] below = Extends-refl s
  adder_tree-Extends s (b ∷ bs) below = tree_from-Extends (size (b ∷ bs)) s b bs below.0 below.1
