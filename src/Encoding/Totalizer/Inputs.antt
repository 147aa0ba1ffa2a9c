-- ===== src/Encoding/Totalizer/Inputs.antt =====
-- What one round of the loop of `toCNF` takes from its inputs.
use dmeic.Prelude.{
  some_injective, ℕ, zero, suc, ◌+◌, ◌≤◌, ◌≡◌, ◌≢◌, refl, sym, ap, ◌∙◌, subst, inl, inr, List, [],
  ◌∷◌, ◌++◌, Option, none, some, ◌==◌, length, arith, ==_iff, Bool-cases,
}
use dmeic.Encoding.Solver.{Lit, Assignment, Sat, count_true}
use dmeic.Encoding.Totalizer.{◌>>=◌, State, fresh, pick}
use dmeic.Encoding.Totalizer.Adder.{bit, CountsTo}

pub bind-some {ℓ κ} :
    {A : Type ℓ} {B : Type κ} (m : Option A) (f : A → Option B) (b : B)
    → m >>= f ≡ some b
    → (a : A) × (m ≡ some a) × (f a ≡ some b)
bind-some none f b h = absurd (ground arith)
bind-some (some a) f b h = (a, refl, h)

pub count_true-append :
    (σ : Assignment) (xs ys : List Lit)
    → count_true σ (xs ++ ys) ≡ count_true σ xs + count_true σ ys
unfolding count_true
count_true-append σ [] ys = omega arith
count_true-append σ (x ∷ xs) ys = ground (arith, count_true-append σ xs ys)

pub count_true_le : (σ : Assignment) (xs : List Lit) → count_true σ xs ≤ length xs
unfolding count_true
count_true_le σ [] = omega arith
count_true_le σ (x ∷ xs) = ground (arith, count_true_le σ xs)

pub single-CountsTo :
    (rhs : ℕ) (σ : Assignment) (ls : List Lit) → length ls ≡ 1 → CountsTo rhs σ ls (count_true σ ls)
unfolding count_true bit
single-CountsTo rhs σ [] one m h k = absurd (omega arith)
single-CountsTo rhs σ (l ∷ []) one zero h k = ground arith
single-CountsTo rhs σ (l ∷ []) one (suc m) h k = absurd (ground arith)
single-CountsTo rhs σ (l ∷ r ∷ ls) one m h k = absurd (omega arith)

module _ (sat : Sat) where
  open sat use {holds, new_var, n_vars, holds-new_var}

  -- One literal that is taken from the inputs, or new variables.
  pub record Picked (σ : Assignment) (n : ℕ) (st : State sat) (ls : List Lit) (st' : State sat)
      (used : List Lit) : Type 0 where
    pub inputs : st.inlits ≡ used ++ st'.inlits
    pub same : holds st'.solver σ ≡ holds st.solver σ
    pub size : length ls ≡ n
    pub leaf : n ≡ 1 → (ls ≡ used) × (length used ≡ 1)
    pub inner : n ≢ 1 → used ≡ []

  pub fresh-Picked :
      (σ : Assignment) (n : ℕ) (st : State sat)
      → (length (fresh sat n st).0 ≡ n)
        × ((fresh sat n st).1.inlits ≡ st.inlits)
        × (holds (fresh sat n st).1.solver σ ≡ holds st.solver σ)
  unfolding fresh
  fresh-Picked σ zero st = (refl, refl, refl)
  fresh-Picked σ (suc n) st =
      let next = record st { solver = new_var st.solver } in
      let (a, b, c) = fresh-Picked σ n next in (ap suc a, b, c ∙ holds-new_var st.solver σ)

  pub pick-Picked :
      (σ : Assignment) (n : ℕ) (st : State sat) (ls : List Lit) (st' : State sat)
      → pick sat n st ≡ some (ls, st')
      → (used : List Lit) × Picked σ n st ls st' used
  unfolding pick
  pick-Picked σ n st ls st' h = elim (Bool-cases (n == 1)) [
    | inl e ↦ taken st.inlits refl ((==_iff n 1).0 e) (rw e at h)
    | inr e ↦
        let (a, b, c) = fresh-Picked σ n st in
        let made : fresh sat n st ≡ (ls, st') = some_injective (rw e at h) in
        subst (λ r. (used : List Lit) × Picked σ n st r.0 r.1 used) made
          (
            [],
            record {
              inputs = sym b;
              same = c;
              size = a;
              leaf = λ q. absurd (ground (arith, ==_iff n 1));
              inner = λ q. refl;
            },
          )
  ]
    where
      taken :
          (ins : List Lit)
          → st.inlits ≡ ins
          → n ≡ 1
          → (elim ins as (λ t. Option (List Lit × State sat)) [
            | [] ↦ none
            | l ∷ rest ↦ some (l ∷ [], record st { inlits = rest })
          ])
            ≡ some (ls, st')
          → (used : List Lit) × Picked σ n st ls st' used
      taken [] e one k = absurd (ground arith)
      taken (l ∷ rest) e one k =
          let made : (l ∷ [], record st { inlits = rest }) ≡ (ls, st') = some_injective k in
          subst (λ r. (used : List Lit) × Picked σ n st r.0 r.1 used) made
            (
              l ∷ [],
              record {
                inputs = e;
                same = refl;
                size = sym one;
                leaf = λ q. (refl, refl);
                inner = λ q. absurd (q one);
              },
            )
