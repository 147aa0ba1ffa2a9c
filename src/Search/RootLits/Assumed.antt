-- ===== src/Search/RootLits/Assumed.antt =====
-- What `assumeDominatingRegion` of algorithms/Alg_PBtoCNF.cc asks for.
use dmeic.Prelude.{
  ℕ, zero, suc, ◌+◌, ◌%◌, ◌^◌, ◌≤◌, ◌<◌, ◌≡◌, ◌↔◌, inl, inr, refl, sym, ap, ◌∙◌, subst, true, ◌&&◌,
  List, [], ◌∷◌, arith, length, All, All-append, All-of_append, Any, ltb, leb, ltb→lt, Bool-cases,
  if◌then◌else◌,
}
use dmeic.Point.{YPoint, dominates}
use dmeic.Encoding.Solver.{Assignment, Lit, lit_true, clause_true}
use dmeic.Search.RootLits.{
  Root, RootLits, body, count_keys, lit_at, index_loop, eval_to_index, assume_lits,
}
use dmeic.Search.RootLits.Regions.{
  IsExact, IsSound, IsAscending, Each, pick, lit_at-pick, any_of-pick, pick_complete,
}

index_loop-count :
    (y j : ℕ) (rs : List Root) → index_loop y (suc j) j rs ≡ j + count_keys ((y + 1) % 2 ^ 64) rs
unfolding index_loop count_keys
index_loop-count y j [] = omega arith
index_loop-count y j (r ∷ rs) = elim (Bool-cases (leb r.key ((y + 1) % 2 ^ 64))) [
  | inl e ↦ rw e (index_loop-count y (suc j) rs ∙ omega arith)
  | inr e ↦ rw e (omega arith)
]

count_keys-length : (y : ℕ) (rs : List Root) → count_keys y rs ≤ length rs
unfolding count_keys
count_keys-length y [] = omega arith
count_keys-length y (r ∷ rs) = ground (arith, count_keys-length y rs)

abbrev chosen : ℕ → RootLits → List Lit
chosen y root =
    let j = eval_to_index y root in if ltb 0 j && ltb j (length root) then lit_at root j else []

pick_zero : (rs : List Root) → pick rs 0 ≡ []
pick_zero [] = refl
pick_zero (r ∷ rs) = refl

-- The test on the size of the object never fails.
chosen-pick :
    (y : ℕ) (s : Root) (rs : List Root)
    → y + 1 < 2 ^ 64
    → chosen y (s ∷ rs) ≡ pick rs (count_keys (y + 1) rs)
unfolding eval_to_index
chosen-pick y s rs h =
    let small : (y + 1) % 2 ^ 64 ≡ y + 1 = omega (arith, h) in
    let e : index_loop y 1 0 rs ≡ count_keys (y + 1) rs =
      index_loop-count y 0 rs ∙ ap (λ z. 0 + count_keys z rs) small ∙ omega arith in
    rw e (tested (count_keys (y + 1) rs) (count_keys-length (y + 1) rs))
  where
    tested :
        (n : ℕ)
        → n ≤ length rs
        → (if ltb 0 n && ltb n (suc (length rs)) then lit_at (s ∷ rs) n else []) ≡ pick rs n
    tested zero le = sym (pick_zero rs)
    tested (suc n) le =
        let a : ltb (suc n) (suc (length rs)) ≡ true = ground (arith, le) in
        let b : ltb 0 (suc n) ≡ true = ground arith in rw (a, b) (lit_at-pick s rs (suc n))

pick_one : (rs : List Root) (n : ℕ) → 0 < n → n ≤ length rs → (l : Lit) × (pick rs n ≡ l ∷ [])
pick_one [] n p le = absurd (omega (arith, p, le))
pick_one (r ∷ rs) zero p le = absurd (omega (arith, p))
pick_one (r ∷ rs) (suc zero) p le = (r.lit, refl)
pick_one (r ∷ rs) (suc (suc n)) p le = pick_one rs (suc n) (omega arith) (omega (arith, le))

first_least : (k z : ℕ) (rs : List Root) → All (λ r. k ≤ r.key) rs → Any (λ r. r.key ≡ z) rs → k ≤ z
first_least k z [] a h = elim h [ ]
first_least k z (r ∷ rs) a (inl e) = omega (arith, a.0, e)
first_least k z (r ∷ rs) a (inr h) = first_least k z rs a.1 h

count_keys-pos :
    (z : ℕ) (rs : List Root) → IsAscending rs → Any (λ r. r.key ≡ z) rs → 0 < count_keys z rs
unfolding count_keys
count_keys-pos z [] a h = elim h [ ]
count_keys-pos z (r ∷ rs) a (inl e) = ground (arith, e)
count_keys-pos z (r ∷ rs) a (inr h) = let le = first_least r.key z rs a.0 h in ground (arith, le)

reached :
    (v z : ℕ) (rs : List Root)
    → v < z
    → Any (λ r. r.key ≡ z) rs
    → Any (λ r. (v < r.key) × (r.key ≤ z)) rs
reached v z [] lt h = h
reached v z (r ∷ rs) lt (inl e) = inl (omega (arith, lt, e), omega (arith, e))
reached v z (r ∷ rs) lt (inr h) = inr (reached v z rs lt h)

IsSound-of_exact : (σ : Assignment) (v : ℕ) (rs : List Root) → IsExact σ v rs → IsSound σ v rs
IsSound-of_exact σ v [] x = tt
IsSound-of_exact σ v (r ∷ rs) x = ((λ t. ltb→lt v r.key (sym x.0 ∙ t)), IsSound-of_exact σ v rs x.1)

-- The literal for one function is true exactly when the value is at most `y`.
pick_iff :
    (σ : Assignment) (v y : ℕ) (rs : List Root)
    → IsExact σ v rs
    → IsAscending rs
    → Any (λ r. r.key ≡ y + 1) rs
    → All (λ l. lit_true σ l ≡ true) (pick rs (count_keys (y + 1) rs)) ↔ (v ≤ y)
pick_iff σ v y rs x a h =
    let n = count_keys (y + 1) rs in
    let (l, e) = pick_one rs n (count_keys-pos (y + 1) rs a h) (count_keys-length (y + 1) rs) in
    (
      λ t.
          let one = subst (λ ls. All (λ l. lit_true σ l ≡ true) ls) e t in
          let lt =
            any_of-pick σ v (y + 1) rs (IsSound-of_exact σ v rs x)
              (subst (λ ls. clause_true σ ls ≡ true) (sym e) (rw (one.0) refl)) in
          omega (arith, lt),
      λ le.
          let c = pick_complete σ v (y + 1) rs x a (reached v (y + 1) rs (omega (arith, le)) h) in
          let d = subst (λ ls. clause_true σ ls ≡ true) e c in
          subst (λ ls. All (λ l. lit_true σ l ≡ true) ls) (sym e) (ground (arith, d), tt),
    )

-- The key after the value `y`.
abbrev pub HasNext : ℕ → List Root → Type 0
HasNext y rs = (y + 1 < 2 ^ 64) × Any (λ r. r.key ≡ y + 1) rs

le_head :
    (v y : ℕ) (p q : YPoint)
    → ((v ≤ y) × (dominates p q ≡ true)) ↔ (dominates (v ∷ p) (y ∷ q) ≡ true)
unfolding dominates
le_head v y p q = ((λ h. ground (arith, h)), (λ h. (ground (arith, h), ground (arith, h))))

-- Where the variables mean that the value is below their key, the keys ascend and each value of `y`
-- has the key after it, the assumptions for the region of `y` hold exactly for the assignments whose
-- point dominates `y`.
pub assume_lits-dominates :
    (σ : Assignment) (p y : YPoint) (roots : List RootLits)
    → Each (IsExact σ) p roots
    → All (λ root. IsAscending (body root)) roots
    → Each HasNext y roots
    → All (λ l. lit_true σ l ≡ true) (assume_lits roots y) ↔ (dominates p y ≡ true)
unfolding assume_lits dominates
assume_lits-dominates σ [] [] [] x a h = ((λ _. refl), (λ _. tt))
assume_lits-dominates σ [] y (root ∷ roots) x a h = elim x [ ]
assume_lits-dominates σ (v ∷ p) y [] x a h = elim x [ ]
assume_lits-dominates σ [] (w ∷ y) [] x a h = elim h [ ]
assume_lits-dominates σ (v ∷ p) [] (root ∷ roots) x a h = elim h [ ]
assume_lits-dominates σ (v ∷ p) (w ∷ y) ([] ∷ roots) x a h = elim h.0.1 [ ]
assume_lits-dominates σ (v ∷ p) (w ∷ y) ((s ∷ rs) ∷ roots) x a h =
    let (f, g) = pick_iff σ v w rs x.0 a.0 h.0.1 in
    let (f2, g2) = assume_lits-dominates σ p y roots x.1 a.1 h.1 in
    let e = chosen-pick w s rs h.0.0 in
    let (up, down) = le_head v w p y in
    (
      λ t.
          let (t1, t2) =
            All-of_append (λ l. lit_true σ l ≡ true) (chosen w (s ∷ rs)) (assume_lits roots y) t in
          up (f (subst (All (λ l. lit_true σ l ≡ true)) e t1), f2 t2),
      λ d.
          let (le, rest) = down d in
          All-append (λ l. lit_true σ l ≡ true) (chosen w (s ∷ rs)) (assume_lits roots y)
            (subst (All (λ l. lit_true σ l ≡ true)) (sym e) (g le)) (g2 rest),
    )
