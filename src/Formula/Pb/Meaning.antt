-- ===== src/Formula/Pb/Meaning.antt =====
-- What a constraint says of an assignment, before and after the methods of `PB`.
use dmeic.Prelude.{
  ℕ, suc, ◌+◌, ◌%◌, ◌^◌, ◌<◌, ◌≤◌, ◌≡◌, refl, sym, subst, ◌∙◌, ◌↔◌, Bool, true, false, not, List,
  [], ◌∷◌, ◌++◌, if◌then◌else◌, map, arith, Bool-cases, inl, inr, Any, if_cases,
}
use dmeic.Prelude.Int.{ℤ, pos, negsuc, ◌+ℤ◌, ◌-ℤ◌, ◌≤ℤ◌, int_laws, -ℤ_parts}
use dmeic.Encoding.Solver.{Lit, Assignment, lit_true, neg}
use dmeic.Formula.Pb.{
  Term, Pb, add_product, change_sign, to_int, int_sum, neg_term, is_one, all_one, is_clause,
  clause_answer,
}

-- The sum of the coefficients of the literals that are true, and of all coefficients.
pub weight : Assignment → List Term → ℕ
weight σ [] = 0
weight σ (t ∷ ts) = (if lit_true σ t.lit then t.coeff else 0) + weight σ ts

unfoldable pub total : List Term → ℕ
total [] = 0
total (t ∷ ts) = t.coeff + total ts

-- The constraint under an assignment.
abbrev pub Satisfies : Assignment → Pb → Type 0
Satisfies σ b = if b.sign then pos (weight σ b.terms) ≤ℤ b.rhs else b.rhs ≤ℤ pos (weight σ b.terms)

weight-append :
    (σ : Assignment) (xs ys : List Term) → weight σ (xs ++ ys) ≡ weight σ xs + weight σ ys
unfolding weight
weight-append σ [] ys = omega arith
weight-append σ (x ∷ xs) ys = omega (arith, weight-append σ xs ys)

weight-neg : (σ : Assignment) (ts : List Term) → weight σ (map neg_term ts) + weight σ ts ≡ total ts
unfolding weight total
weight-neg σ [] = omega arith
weight-neg σ (t ∷ ts) = ground (arith, weight-neg σ ts)

int_sum-total : (s : ℕ) (ts : List Term) → s + total ts < 2 ^ 31 → int_sum s ts ≡ s + total ts
unfolding int_sum total
int_sum-total s [] h = omega arith
int_sum-total s (t ∷ ts) h =
    let e : (s + t.coeff) % 2 ^ 32 ≡ s + t.coeff = omega arith in
    rw e (int_sum-total (s + t.coeff) ts (omega arith) ∙ omega arith)

to_int-small : (n : ℕ) → n < 2 ^ 31 → to_int n ≡ pos n
unfolding to_int
to_int-small n h = let e : n % 2 ^ 32 ≡ n = omega arith in rw e (ground arith)

int_sum-small : (ts : List Term) → total ts < 2 ^ 31 → to_int (int_sum 0 ts) ≡ pos (total ts)
int_sum-small ts h =
    let e : int_sum 0 ts ≡ total ts = int_sum-total 0 ts (omega arith) ∙ omega arith in
    rw e (to_int-small (total ts) h)

-- `changeSign` keeps the meaning, where the sum of the coefficients is below `2 ^ 31`.
pub change_sign-Satisfies :
    (σ : Assignment) (b : Pb) → total b.terms < 2 ^ 31 → Satisfies σ (change_sign b) ↔ Satisfies σ b
unfolding change_sign
change_sign-Satisfies σ b h =
    let s = int_sum-small b.terms h in
    let w = weight-neg σ b.terms in
    let d = -ℤ_parts (pos (total b.terms)) b.rhs in
    elim (Bool-cases b.sign) [
      | inl e ↦ rw (e, s) ((λ k. omega arith), (λ k. omega arith))
      | inr e ↦ rw (e, s) ((λ k. omega arith), (λ k. omega arith))
    ]

-- `addProduct` adds the product to the left side, also where the coefficient is negative.
pub add_product-value :
    (σ : Assignment) (b : Pb) (l : Lit) (c : ℤ)
    → pos (weight σ (add_product b l c).terms) -ℤ (add_product b l c).rhs
      ≡ pos (weight σ b.terms) +ℤ (if lit_true σ l then c else pos 0) -ℤ b.rhs
unfolding add_product weight
add_product-value σ b l (pos c) =
    let a = weight-append σ b.terms (record { coeff = c; lit = l } ∷ []) in
    elim (Bool-cases (lit_true σ l)) [
      | inl e ↦ rw (a, e) (omega int_laws)
      | inr e ↦ rw (a, e) (omega int_laws)
    ]
add_product-value σ b l (negsuc n) =
    let a = weight-append σ b.terms (record { coeff = suc n; lit = neg l } ∷ []) in
    let flip : lit_true σ (neg l) ≡ not (lit_true σ l) = ground arith in
    elim (Bool-cases (lit_true σ l)) [
      | inl e ↦ rw (a, flip, e) (omega int_laws)
      | inr e ↦ rw (a, flip, e) (omega int_laws)
    ]

map-neg_term : (ts : List Term) → map neg_term (map neg_term ts) ≡ ts
map-neg_term [] = refl
map-neg_term (t ∷ ts) = ground (arith, map-neg_term ts)

total-neg : (ts : List Term) → total (map neg_term ts) ≡ total ts
unfolding total
total-neg [] = refl
total-neg (t ∷ ts) = omega (arith, total-neg ts)

sub_sub : (s r : ℤ) → s -ℤ (s -ℤ r) ≡ r
sub_sub s r = omega int_laws

-- `changeSign` twice changes nothing.
pub change_sign-twice : (b : Pb) → total b.terms < 2 ^ 31 → change_sign (change_sign b) ≡ b
unfolding change_sign
change_sign-twice b h =
    let s = int_sum-small b.terms h in
    let s' = int_sum-small (map neg_term b.terms) (rw (total-neg b.terms) h) in
    let r = sub_sub (pos (total b.terms)) b.rhs in
    ground (arith, s, s', total-neg b.terms, r, map-neg_term b.terms)

one_true :
    (σ : Assignment) (ts : List Term)
    → all_one ts ≡ true
    → (1 ≤ weight σ ts) ↔ Any (λ t. lit_true σ t.lit ≡ true) ts
unfolding all_one weight
one_true σ [] h = (λ k. omega arith, λ k. elim k [ ])
one_true σ (t ∷ ts) h =
    let ih = one_true σ ts in
    elim (Bool-cases (lit_true σ t.lit)) [
      | inl e ↦ (λ _. inl e, λ _. rw e (ground arith))
      | inr e ↦ (
        λ k. inr ((ih (ground arith)).0 (omega (arith, rw e at k))),
        λ k. rw e (omega (arith, (ih (ground arith)).1 (ground (arith, k)))),
      )
    ]

-- What `isClause` answers about the constraint, and how it leaves it.
pub record ClauseAnswer (σ : Assignment) (b : Pb) (r : Bool × Pb) : Type 0 where
  pub same : Satisfies σ r.1 ↔ Satisfies σ b
  pub restored : r.0 ≡ false → r.1 ≡ b
  pub clause : r.0 ≡ true → Satisfies σ b ↔ Any (λ t. lit_true σ t.lit ≡ true) r.1.terms

is_one-pos : (r : ℤ) → is_one r ≡ true → r ≡ pos 1
is_one-pos (pos n) h = ground arith
is_one-pos (negsuc n) h = cc

-- A constraint that is at least, with right-hand side and coefficients 1, is a clause.
clause_meaning :
    (σ : Assignment) (b : Pb)
    → b.sign ≡ false
    → is_one b.rhs ≡ true
    → all_one b.terms ≡ true
    → Satisfies σ b ↔ Any (λ t. lit_true σ t.lit ≡ true) b.terms
clause_meaning σ b s r a =
    let e : b.rhs ≡ pos 1 = is_one-pos b.rhs r in
    rw (s, e)
      (λ k. (one_true σ b.terms a).0 (omega arith), λ k. omega (arith, (one_true σ b.terms a).1 k))

unchanged : (σ : Assignment) (b back : Pb) → back ≡ b → ClauseAnswer σ b (false, back)
unchanged σ b back e = record {
  same = ((λ k. subst (Satisfies σ) e k), (λ k. subst (Satisfies σ) (sym e) k));
  restored = λ _. e;
  clause = λ q. cc;
}

flipped : (b : Pb) → b.sign ≡ true → (change_sign b).sign ≡ false
unfolding change_sign
flipped b s = rw s

-- `isClause` on a constraint that says at least, and what it does once it has turned one round.
at_least_answer :
    (σ : Assignment) (b back turned : Pb)
    → turned.sign ≡ false
    → Satisfies σ turned ↔ Satisfies σ b
    → back ≡ b
    → ClauseAnswer σ b (clause_answer turned back)
unfolding clause_answer
at_least_answer σ b back turned s same e = elim (Bool-cases (is_one turned.rhs)) [
  | inr r ↦ rw r (unchanged σ b back e)
  | inl r ↦ elim (Bool-cases (all_one turned.terms)) [
    | inr a ↦ rw (r, a) (unchanged σ b back e)
    | inl a ↦
        let m = clause_meaning σ turned s r a in
        rw (r, a)
          (record {
            same = same;
            restored = λ q. cc;
            clause = λ _. (λ k. m.0 (same.1 k), λ k. same.0 (m.1 k));
          })
  ]
]

-- Where the sum of the coefficients is below `2 ^ 31`, `isClause` keeps the meaning of the
-- constraint. When it answers false it leaves the constraint as it was; when it answers true, the
-- constraint says that one of the literals it leaves is true.
pub is_clause_correct :
    (σ : Assignment) (b : Pb) → total b.terms < 2 ^ 31 → ClauseAnswer σ b (is_clause b)
unfolding is_clause
is_clause_correct σ b h =
    if_cases (ClauseAnswer σ b) b.sign _ _
      (λ s.
        at_least_answer σ b (change_sign (change_sign b)) (change_sign b) (flipped b s)
          (change_sign-Satisfies σ b h) (change_sign-twice b h))
      (λ s. at_least_answer σ b b b s ((λ k. k), (λ k. k)) refl)
