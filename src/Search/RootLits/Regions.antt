-- ===== src/Search/RootLits/Regions.antt =====
-- What the regions of algorithms/Alg_PBtoCNF.cc say of an assignment, by what the variables of the
-- objective functions mean under it.
use dmeic.Prelude.{
  ℕ, zero, suc, ◌≤◌, ◌<◌, ◌≡◌, ◌⊎◌, inl, inr, refl, sym, ◌∙◌, subst, Bool, true, false, ◌||◌, List,
  [], ◌∷◌, ◌++◌, arith, length, All, Any, Pairwise, ltb, leb, leb→le, lt→ltb, ltb→lt, Bool-cases,
}
use dmeic.Point.{YPoint, dominates}
use dmeic.Encoding.Solver.{Assignment, Lit, lit_true, clause_true}
use dmeic.Search.RootLits.{Root, RootLits, body, count_keys, lit_at, block_lits}

-- A variable that is true says that the value is below its key.
abbrev pub IsSound : Assignment → ℕ → List Root → Type 0
IsSound σ v rs = All (λ r. lit_true σ r.lit ≡ true → v < r.key) rs

-- It is true exactly then.
abbrev pub IsExact : Assignment → ℕ → List Root → Type 0
IsExact σ v rs = All (λ r. lit_true σ r.lit ≡ ltb v r.key) rs

abbrev pub IsAscending : List Root → Type 0
IsAscending rs = Pairwise (λ r s. r.key ≤ s.key) rs

-- When `v` is below `y`, some key tells them apart.
abbrev pub Separates : List Root → ℕ → ℕ → Type 0
Separates rs v y = v < y → Any (λ r. (v < r.key) × (r.key ≤ y)) rs

-- Element `suc i` of the object, an element of the body.
abbrev pub pick : List Root → ℕ → List Lit
pick [] j = []
pick (r ∷ rs) zero = []
pick (r ∷ rs) (suc zero) = r.lit ∷ []
pick (r ∷ rs) (suc (suc j)) = pick rs (suc j)

pub lit_at-pick : (s : Root) (rs : List Root) (j : ℕ) → lit_at (s ∷ rs) j ≡ pick rs j
unfolding lit_at
lit_at-pick s [] zero = refl
lit_at-pick s (r ∷ rs) zero = refl
lit_at-pick s [] (suc j) = refl
lit_at-pick s (r ∷ rs) (suc zero) = refl
lit_at-pick s (r ∷ rs) (suc (suc j)) = lit_at-pick r rs (suc j)

pub any_of-pick :
    (σ : Assignment) (v y : ℕ) (rs : List Root)
    → IsSound σ v rs
    → clause_true σ (pick rs (count_keys y rs)) ≡ true
    → v < y
unfolding count_keys
any_of-pick σ v y [] s h = absurd (cc h)
any_of-pick σ v y (r ∷ rs) s h = elim (Bool-cases (leb r.key y)) [
  | inl e ↦ under (leb→le r.key y e) (count_keys y rs) (rw e at h) (any_of-pick σ v y rs s.1)
  | inr e ↦ let k : false ≡ true = rw e at h in absurd (cc k)
]
  where
    under :
        r.key ≤ y
        → (n : ℕ) → clause_true σ (pick (r ∷ rs) (suc n)) ≡ true
        → (clause_true σ (pick rs n) ≡ true → v < y)
        → v < y
    under le zero k f = let lt = s.0 (ground (arith, k)) in omega (arith, le, lt)
    under le (suc n) k f = f k

shift_pick :
    (σ : Assignment) (r : Root) (rs : List Root) (n : ℕ)
    → clause_true σ (pick rs n) ≡ true
    → clause_true σ (pick (r ∷ rs) (suc n)) ≡ true
shift_pick σ r [] n h = absurd (cc h)
shift_pick σ r (s ∷ rs) zero h = absurd (cc h)
shift_pick σ r (s ∷ rs) (suc n) h = h

single_true : (σ : Assignment) (l : Lit) → lit_true σ l ≡ true → clause_true σ (l ∷ []) ≡ true
single_true σ l h = rw h

pub pick_complete :
    (σ : Assignment) (v y : ℕ) (rs : List Root)
    → IsExact σ v rs
    → IsAscending rs
    → Any (λ r. (v < r.key) × (r.key ≤ y)) rs
    → clause_true σ (pick rs (count_keys y rs)) ≡ true
unfolding count_keys
pick_complete σ v y [] x a h = elim h [ ]
pick_complete σ v y (r ∷ []) x a (inr h) = elim h [ ]
pick_complete σ v y (r ∷ []) x a (inl h) =
    let e : leb r.key y ≡ true = ground (arith, h.1) in
    rw e (single_true σ r.lit (x.0 ∙ lt→ltb v r.key h.0))
pick_complete σ v y (r ∷ s ∷ rs) x a (inl h) =
    let e : leb r.key y ≡ true = ground (arith, h.1) in
    rw e (elim (Bool-cases (leb s.key y)) [
      | inl f ↦
          shift_pick σ r (s ∷ rs) (count_keys y (s ∷ rs)) (
            pick_complete σ v y (s ∷ rs) x.1 a.1
              (inl (omega (arith, h.0, a.0.0), leb→le s.key y f)))
      | inr f ↦ rw f (single_true σ r.lit (x.0 ∙ lt→ltb v r.key h.0))
    ])
pick_complete σ v y (r ∷ s ∷ rs) x a (inr h) =
    let e : leb r.key y ≡ true = low h in
    rw e (shift_pick σ r (s ∷ rs) (count_keys y (s ∷ rs)) (pick_complete σ v y (s ∷ rs) x.1 a.1 h))
  where
    some_above :
        (ts : List Root)
        → All (λ t. r.key ≤ t.key) ts
        → Any (λ t. (v < t.key) × (t.key ≤ y)) ts
        → r.key ≤ y
    some_above [] b k = elim k [ ]
    some_above (t ∷ ts) b (inl k) = omega (arith, b.0, k.1)
    some_above (t ∷ ts) b (inr k) = some_above ts b.1 k

    low : Any (λ t. (v < t.key) × (t.key ≤ y)) (s ∷ rs) → leb r.key y ≡ true
    low k = let le = some_above (s ∷ rs) a.0 k in ground (arith, le)

-- The values of a point, each with its object, and the values of two points.
abbrev pub Each : (ℕ → List Root → Type 0) → YPoint → List RootLits → Type 0
Each P [] [] = Unit
Each P [] (root ∷ roots) = ⊥
Each P (v ∷ p) [] = ⊥
Each P (v ∷ p) (root ∷ roots) = P v (body root) × Each P p roots

abbrev pub SeparatesAll : List RootLits → YPoint → YPoint → Type 0
SeparatesAll [] p y = Unit
SeparatesAll (root ∷ roots) [] y = Unit
SeparatesAll (root ∷ roots) (v ∷ p) [] = Unit
SeparatesAll (root ∷ roots) (v ∷ p) (w ∷ y) = Separates (body root) v w × SeparatesAll roots p y

clause_true-append :
    (σ : Assignment) (xs ys : List Lit)
    → clause_true σ (xs ++ ys) ≡ clause_true σ xs || clause_true σ ys
clause_true-append σ [] ys = refl
clause_true-append σ (x ∷ xs) ys = ground (arith, clause_true-append σ xs ys)

body-pick :
    (root : RootLits) (y : ℕ)
    → lit_at root (count_keys y (body root)) ≡ pick (body root) (count_keys y (body root))
unfolding count_keys lit_at
body-pick [] y = refl
body-pick (s ∷ rs) y = lit_at-pick s rs (count_keys y rs)

or_cases : (a b : Bool) → a || b ≡ true → (a ≡ true) ⊎ (b ≡ true)
or_cases true b h = inl refl
or_cases false b h = inr h

-- An assignment that satisfies the clause which blocks the region of `y` has a point that `y` does
-- not dominate, where each variable that is true says that its function is below its key.
pub block_lits_sound :
    (σ : Assignment) (p y : YPoint) (roots : List RootLits)
    → Each (IsSound σ) p roots
    → clause_true σ (block_lits roots y) ≡ true
    → dominates y p ≡ false
unfolding block_lits dominates
block_lits_sound σ [] y [] h c = absurd (cc c)
block_lits_sound σ [] y (root ∷ roots) h c = elim h [ ]
block_lits_sound σ (v ∷ p) y [] h c = elim h [ ]
block_lits_sound σ (v ∷ p) [] (root ∷ roots) h c = absurd (cc c)
block_lits_sound σ (v ∷ p) (w ∷ y) (root ∷ roots) h c =
    elim (or_cases (clause_true σ first) (clause_true σ (block_lits roots y)) split) [
      | inl t ↦
          let lt =
            any_of-pick σ v w (body root) h.0
              (subst (λ l. clause_true σ l ≡ true) (body-pick root w) t) in
          rw (lt→ltb v w lt) refl
      | inr t ↦ let rest = block_lits_sound σ p y roots h.1 t in ground (arith, rest)
    ]
  where
    first : List Lit
    first = lit_at root (count_keys w (body root))

    split : clause_true σ first || clause_true σ (block_lits roots y) ≡ true
    split = sym (clause_true-append σ first (block_lits roots y)) ∙ c

-- An assignment under which the variables mean just that, and whose point `y` does not dominate,
-- satisfies the clause, where the keys ascend and separate its values from those of `y`.
pub block_lits_complete :
    (σ : Assignment) (p y : YPoint) (roots : List RootLits)
    → Each (IsExact σ) p roots
    → All (λ root. IsAscending (body root)) roots
    → SeparatesAll roots p y
    → length p ≡ length y
    → dominates y p ≡ false
    → clause_true σ (block_lits roots y) ≡ true
unfolding block_lits dominates
block_lits_complete σ [] [] [] x a s l d = absurd (cc d)
block_lits_complete σ [] (w ∷ y) roots x a s l d = absurd (omega (arith, l))
block_lits_complete σ [] [] (root ∷ roots) x a s l d = elim x [ ]
block_lits_complete σ (v ∷ p) y [] x a s l d = elim x [ ]
block_lits_complete σ (v ∷ p) [] (root ∷ roots) x a s l d = absurd (omega (arith, l))
block_lits_complete σ (v ∷ p) (w ∷ y) (root ∷ roots) x a s l d =
    clause_true-append σ (lit_at root (count_keys w (body root))) (block_lits roots y)
    ∙ elim (Bool-cases (ltb v w)) [
      | inl e ↦
          let here =
            subst (λ l. clause_true σ l ≡ true) (sym (body-pick root w))
              (pick_complete σ v w (body root) x.0 a.0 (s.0 (ltb→lt v w e))) in
          rw here refl
      | inr e ↦
          let rest = block_lits_complete σ p y roots x.1 a.1 s.1 (omega (arith, l)) (rw e at d) in
          ground (arith, rest)
    ]
