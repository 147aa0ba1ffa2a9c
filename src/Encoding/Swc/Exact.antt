-- ===== src/Encoding/Swc/Exact.antt =====
-- `SWC::encode` excludes exactly the assignments that go past the right-hand side.
use dmeic.Encoding.Variables.{Agree, lit_true-Agree, IsClosed}
use dmeic.Prelude.{
  some_injective, ℕ, ◌+◌, ◌<◌, ◌≤◌, ◌≡◌, refl, sym, ◌∙◌, ap, subst, true, false, List, [], ◌∷◌,
  none, some, arith, if◌then◌else◌, leb, leb→le, leb→gt, ◌==◌, All, Bool-cases, inl, inr,
}
use dmeic.Encoding.Solver.{Lit, Assignment, Sat, neg, lit_true}
use dmeic.Encoding.Clauses.{add_unit, unit-holds}
use dmeic.Encoding.Swc.{
  Term, Swc, new_swc, int32_max, fix_literals, fresh_rows, encode_terms, encode,
}
use dmeic.Encoding.Swc.Counting.{weight, gain}
use dmeic.Encoding.Swc.Fresh.{holds-fresh_rows}
use dmeic.Encoding.Swc.Fill.{fill, fill-old, IsExact, fresh_rows-IsExact, weigh_rows_hold}
use dmeic.Encoding.Swc.Correct.{Bounds, encode-Bounds}

-- The literals of the terms are over variables below `n`.
abbrev pub TermsBelow : ℕ → List Term → Type 0
TermsBelow n = All (λ t. t.lit.var < n)

module _ (n : ℕ) (σ τ : Assignment) (agree : Agree n σ τ) where
  gain-Agree : (t : Term) (k : ℕ) → t.lit.var < n → gain τ t k ≡ gain σ t k
  gain-Agree t k h = ap (λ b. if b then k + t.coeff else k) (lit_true-Agree n σ τ t.lit agree h)

  weight-Agree : (ts : List Term) → TermsBelow n ts → weight τ ts ≡ weight σ ts
  unfolding weight
  weight-Agree [] h = refl
  weight-Agree (t ∷ ts) h = rw (lit_true-Agree n σ τ t.lit agree h.0, weight-Agree ts h.1) refl

  IsExact-Agree :
      (sat : Sat) (rhs k : ℕ) (ts : List Term) (rows : List (List Lit))
      → TermsBelow n ts
      → IsExact sat σ τ rhs k ts rows
      → IsExact sat τ τ rhs k ts rows
  IsExact-Agree sat rhs k [] rows h x = tt
  IsExact-Agree sat rhs k (t ∷ ts) [] h x = tt
  IsExact-Agree sat rhs k (t ∷ ts) (row ∷ rows) h x =
      let same = sym (gain-Agree t k h.0) in
      (
        (λ j lo hi. x.0 j lo hi ∙ ap (leb j) same),
        IsExact-Agree sat rhs (gain τ t k) ts rows h.1
            (subst (λ m. IsExact sat σ τ rhs m ts rows) same x.1),
      )

module _ (sat : Sat) where
  open sat use {Solver, holds, n_vars, n_vars-add_clause}

  n_vars-unit : (s : Solver) (l : Lit) → n_vars (add_unit sat s l none) ≡ n_vars s
  unfolding add_unit
  n_vars-unit s l = n_vars-add_clause s (l ∷ [])

  fix_literals-holds :
      (rhs n : ℕ) (s : Solver) (ts : List Term)
      → All (λ t. t.coeff < int32_max) ts
      → TermsBelow n ts
      → (s' : Solver) × (kept : List Term) × (fix_literals sat rhs s ts ≡ some (s', kept))
        × (n_vars s' ≡ n_vars s)
        × All (λ t. 0 < t.coeff) kept
        × All (λ t. t.coeff ≤ rhs) kept
        × TermsBelow n kept
        × ((τ : Assignment)
            → holds s τ ≡ true
            → weight τ ts ≤ rhs
            → (holds s' τ ≡ true) × (weight τ kept ≡ weight τ ts))
  unfolding fix_literals weight
  fix_literals-holds rhs n s [] fits below = (s, [], refl, refl, tt, tt, tt, λ τ h le. (h, refl))
  fix_literals-holds rhs n s (t ∷ ts) fits below = elim (Bool-cases (t.coeff == 0)) [
    | inl z ↦
        let (s', kept, e, nv, pos, fit, low, k) = fix_literals-holds rhs n s ts fits.1 below.1 in
        (
          s',
          kept,
          rw z e,
          nv,
          pos,
          fit,
          low,
          λ τ h le.
              let same : weight τ (t ∷ ts) ≡ weight τ ts = ground (arith, z) in
              let (h', v) = k τ h (omega (arith, le, same)) in (h', v ∙ sym same),
        )
    | inr z ↦
        let fine : leb int32_max t.coeff ≡ false = ground (arith, fits.0) in
        elim (Bool-cases (leb t.coeff rhs)) [
          | inl l ↦
              let (s', kept, e, nv, pos, fit, low, k) =
                fix_literals-holds rhs n s ts fits.1 below.1 in
              (
                s',
                t ∷ kept,
                rw (z, fine, l, e) refl,
                nv,
                (ground (arith, z), pos),
                (leb→le _ _ l, fit),
                (below.0, low),
                λ τ h le. let (h', v) = k τ h (ground (arith, le)) in (h', ground (arith, v)),
              )
          | inr l ↦
              let s1 = add_unit sat s (neg t.lit) none in
              let (s', kept, e, nv, pos, fit, low, k) =
                fix_literals-holds rhs n s1 ts fits.1 below.1 in
              (
                s',
                kept,
                rw (z, fine, l) e,
                nv ∙ n_vars-unit s (neg t.lit),
                pos,
                fit,
                low,
                λ τ h le.
                    let big = leb→gt _ _ l in
                    let off : lit_true τ t.lit ≡ false = ground (arith, le, big) in
                    let h1 : holds s1 τ ≡ true =
                      ground (arith, off, h, unit-holds sat s (neg t.lit) none τ) in
                    let (h', v) = k τ h1 (ground (arith, le, off)) in (h', ground (arith, v, off)),
              )
        ]
  ]

  encode_terms-holds :
      (rhs : ℕ) (s : Solver) (kept : List Term) (σ : Assignment)
      → All (λ t. 0 < t.coeff) kept
      → All (λ t. t.coeff ≤ rhs) kept
      → TermsBelow (n_vars s) kept
      → weight σ kept ≤ rhs
      → ((τ : Assignment) → Agree (n_vars s) σ τ → holds s τ ≡ true)
      → (τ : Assignment) × Agree (n_vars s) σ τ
        × (holds (encode_terms sat rhs new_swc kept s).0 τ ≡ true)
  unfolding encode_terms
  encode_terms-holds rhs s [] σ pos fit low le h = (σ, (λ v l. refl), h σ (λ v l. refl))
  encode_terms-holds rhs s (t ∷ []) σ pos fit low le h = (σ, (λ v l. refl), h σ (λ v l. refl))
  encode_terms-holds rhs s (t ∷ u ∷ ts) σ pos fit low le h =
      let kept = t ∷ u ∷ ts in
      let τ = fill σ (n_vars s) rhs 0 kept in
      let agree : Agree (n_vars s) σ τ = fill-old σ (n_vars s) rhs 0 kept in
      let (s1, rows) = fresh_rows sat rhs kept s in
      let exact = fresh_rows-IsExact sat σ τ rhs 0 kept s (λ v l. refl) in
      (
        τ,
        agree,
        weigh_rows_hold sat τ rhs 0 kept none rows s1 pos fit
            (omega (arith, le, weight-Agree (n_vars s) σ τ agree kept low)) refl
            (IsExact-Agree (n_vars s) σ τ agree sat rhs 0 kept rows low exact)
            (holds-fresh_rows sat τ rhs kept s ∙ h τ agree),
      )

  -- With a right-hand side and coefficients below INT32_MAX, and literals over variables of a solver
  -- whose clauses speak of its own variables only, `encode` succeeds on a new SWC. It bounds the sum
  -- of the coefficients of the true literals by the right-hand side, and `update`, where there is an
  -- encoding, by one that is not greater; and an assignment that satisfied the clauses of before and
  -- whose sum is at most the right-hand side satisfies those of `encode` after a change to the new
  -- variables only.
  pub encode-weight :
      (s : Solver) (terms : List Term) (rhs rhs' : ℕ)
      → rhs < int32_max
      → rhs' ≤ rhs
      → All (λ t. t.coeff < int32_max) terms
      → IsClosed sat s
      → TermsBelow (n_vars s) terms
      → (s' : Solver) × (w : Swc) × (encode sat s new_swc terms rhs ≡ some (s', w))
        × ((σ : Assignment) → Bounds sat σ rhs rhs' s terms s' w)
        × ((σ : Assignment)
            → holds s σ ≡ true
            → weight σ terms ≤ rhs
            → (τ : Assignment) × Agree (n_vars s) σ τ × (holds s' τ ≡ true))
  unfolding encode
  encode-weight s terms rhs rhs' small le fits closed below =
      let (s1, kept, e, nv, pos, fit, low, k) =
        fix_literals-holds rhs (n_vars s) s terms fits below in
      let fine : leb int32_max rhs ≡ false = ground (arith, small) in
      let out = encode_terms sat rhs new_swc kept s1 in
      let e' : encode sat s new_swc terms rhs ≡ some out = rw (fine, e) refl in
      (
        out.0,
        out.1,
        e',
        (λ σ.
            let (s2, w2, e2, bounds) = encode-Bounds sat σ s terms rhs rhs' small le fits in
            subst (λ p. Bounds sat σ rhs rhs' s terms p.0 p.1) (some_injective (sym e2 ∙ e'))
              bounds),
        λ σ h few.
            let (h1, v) = k σ h few in
            let low' = subst (λ m. TermsBelow m kept) (sym nv) low in
            let (τ, agree, held) =
              encode_terms-holds rhs s1 kept σ pos fit low' (omega (arith, few, v)) (λ τ g.
                let g' : Agree (n_vars s) σ τ = λ x l. g x (omega (arith, l, nv)) in
                (k τ (closed σ τ g' ∙ h)
                  (omega (arith, few, weight-Agree (n_vars s) σ τ g' terms below))).0) in
            (τ, (λ x l. agree x (omega (arith, l, nv))), held),
      )
