-- ===== src/Tests/Deciding.antt =====
-- The solver that keeps its clauses in a list, as one that answers each call.
use dmeic.Prelude.{
  ℕ, zero, suc, ◌+◌, ◌≤◌, ◌≡◌, ◌⊎◌, inl, inr, refl, ◌∙◌, Bool, true, false, ◌&&◌, List, [], ◌∷◌,
  ◌==◌, ==_iff, arith, All, if◌then◌else◌, Bool-cases,
}
use dmeic.Encoding.Solver.{Lit, Assignment, lit_true, clause_true}
use dmeic.Encoding.Variables.{Agree, lit_true-Agree}
use dmeic.Tests.Encodings.{all_true}

abbrev put : ℕ → Bool → Assignment → Assignment
put k b σ v = if v == k then b else σ v

put-Agree :
    (k : ℕ) (b : Bool) (σ τ : Assignment) → Agree k σ τ → Agree (suc k) (put k b σ) (put k b τ)
put-Agree k b σ τ h v lt = elim (Bool-cases (v == k)) [
  | inl e ↦ rw e refl
  | inr e ↦ rw e (h v (ground arith))
]

put_self : (k : ℕ) (b : Bool) (σ : Assignment) → σ k ≡ b → Agree (suc k) (put k b σ) σ
put_self k b σ h v lt = elim (Bool-cases (v == k)) [
  | inl e ↦ let q = (==_iff v k).0 e in rw (e, q) h
  | inr e ↦ rw e refl
]

abbrev Depends : ℕ → (Assignment → Bool) → Type 0
Depends k test = (σ τ : Assignment) → Agree k σ τ → test τ ≡ test σ

-- Try both values of each variable below `k`.
pub decide :
    (k : ℕ) (test : Assignment → Bool)
    → Depends k test
    → ((σ : Assignment) × (test σ ≡ true)) ⊎ ((σ : Assignment) → test σ ≡ false)
decide zero test d = elim (Bool-cases (test (λ v. false))) [
  | inl e ↦ inl ((λ v. false), e)
  | inr e ↦ inr (λ σ. d (λ v. false) σ (λ v lt. absurd (omega (arith, lt))) ∙ e)
]
decide (suc k) test d =
    let at_value = λ (b : Bool).
      decide k (λ σ. test (put k b σ)) (λ σ τ h. d (put k b σ) (put k b τ) (put-Agree k b σ τ h)) in
    elim (at_value true) [
      | inl (σ, e) ↦ inl (put k true σ, e)
      | inr f ↦ elim (at_value false) [
        | inl (σ, e) ↦ inl (put k false σ, e)
        | inr g ↦ inr (λ σ. elim (Bool-cases (σ k)) [
          | inl e ↦ d (put k true σ) σ (put_self k true σ e) ∙ f σ
          | inr e ↦ d (put k false σ) σ (put_self k false σ e) ∙ g σ
        ])
      ]
    ]

abbrev size : List Lit → ℕ
size [] = 0
size (l ∷ ls) = suc l.var + size ls

abbrev size_all : List (List Lit) → ℕ
size_all [] = 0
size_all (c ∷ cs) = size c + size_all cs

clause_true-Agree :
    (n : ℕ) (σ τ : Assignment) (c : List Lit)
    → size c ≤ n
    → Agree n σ τ
    → clause_true τ c ≡ clause_true σ c
clause_true-Agree n σ τ [] h a = refl
clause_true-Agree n σ τ (l ∷ c) h a =
    let e = lit_true-Agree n σ τ l a (omega (arith, h)) in
    let f = clause_true-Agree n σ τ c (omega (arith, h)) a in rw (e, f)

all_true-Agree :
    (n : ℕ) (σ τ : Assignment) (cs : List (List Lit))
    → size_all cs ≤ n
    → Agree n σ τ
    → all_true cs τ ≡ all_true cs σ
all_true-Agree n σ τ [] h a = refl
all_true-Agree n σ τ (c ∷ cs) h a =
    let e = clause_true-Agree n σ τ c (omega (arith, h)) a in
    let f = all_true-Agree n σ τ cs (omega (arith, h)) a in rw (e, f)

abbrev units : List Lit → List (List Lit)
units [] = []
units (l ∷ ls) = (l ∷ []) ∷ units ls

units-true :
    (σ : Assignment) (ls : List Lit)
    → all_true (units ls) σ ≡ true
    → All (λ l. lit_true σ l ≡ true) ls
units-true σ [] h = tt
units-true σ (l ∷ ls) h = (ground (arith, h), units-true σ ls (ground (arith, h)))

units_of_true :
    (σ : Assignment) (ls : List Lit)
    → All (λ l. lit_true σ l ≡ true) ls
    → all_true (units ls) σ ≡ true
units_of_true σ [] h = refl
units_of_true σ (l ∷ ls) h = rw (h.0, units_of_true σ ls h.1)

both_true : (a b : Bool) → a && b ≡ true → (a ≡ true) × (b ≡ true)
both_true true b h = (refl, h)
both_true false b h = cc

-- Whether the clauses have an assignment under the assumptions.
pub solve :
    (cs : List (List Lit)) (ls : List Lit)
    → ((σ : Assignment) × (all_true cs σ ≡ true) × All (λ l. lit_true σ l ≡ true) ls)
      ⊎ ((σ : Assignment) → all_true cs σ ≡ true → ¬ All (λ l. lit_true σ l ≡ true) ls)
solve cs ls = elim (decide n (λ σ. all_true cs σ && all_true (units ls) σ) depends) [
  | inl (σ, e) ↦
      let (a, b) = both_true (all_true cs σ) (all_true (units ls) σ) e in
      inl (σ, a, units-true σ ls b)
  | inr f ↦
      inr (λ σ a h. clash (all_true cs σ) (all_true (units ls) σ) a (units_of_true σ ls h) (f σ))
]
  where
    n : ℕ
    n = size_all cs + size_all (units ls)

    depends : Depends n (λ σ. all_true cs σ && all_true (units ls) σ)
    depends σ τ h =
        let e = all_true-Agree n σ τ cs (omega arith) h in
        let f = all_true-Agree n σ τ (units ls) (omega arith) h in rw (e, f)

    clash : (a b : Bool) → a ≡ true → b ≡ true → ¬ (a && b ≡ false)
    clash a b h k q = cc
