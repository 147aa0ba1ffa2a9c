-- ===== src/Encoding/Swc/Histories.antt =====
-- The incremental calls of `SWC` in every order, and what their assumptions bound.
use dmeic.Prelude.{
  some_injective, All-of_append, ℕ, ◌+◌, ◌<◌, ◌≤◌, ◌≡◌, refl, sym, subst, Bool, true, false, List,
  [], ◌∷◌, ◌++◌, Option, some, arith, All,
}
use dmeic.Encoding.Solver.{Lit, Assignment, Sat, neg, lit_true}
use dmeic.Encoding.Swc.{Term, Swc, new_swc, negated}
use dmeic.Encoding.Swc.Increment.{encode_inc, update_inc, update_assumptions, join_at, join}
use dmeic.Encoding.Swc.Counting.{weight}
use dmeic.Encoding.Swc.States.{Stands, idle, counting}
use dmeic.Encoding.Swc.Keeps.{IsValid, encode_inc-IsValid, update_inc-IsValid, join_at-IsValid}

module _ (sat : Sat) where
  open sat use {Solver, holds}

  abbrev pub ArePositive : List Term → Type 0
  ArePositive = All (λ t. 0 < t.coeff)

  -- The calls on one SWC, with the terms that they were given. Between them the solver takes other
  -- clauses. `encode` is called until there is an encoding.
  pub data Reaches : Solver → Swc → List Term → Type 0 where
    made : (s : Solver) → Reaches s new_swc []
    others :
        (s s' : Solver) (w : Swc) (given : List Term)
        → ((σ : Assignment) → holds s' σ ≡ true → holds s σ ≡ true)
        → Reaches s w given
        → Reaches s' w given
    encoded :
        (s s' : Solver) (w w' : Swc) (given terms : List Term) (rhs : ℕ) (ls ls' : List Lit)
        (size : ℕ)
        → w.has_encoding ≡ false
        → ArePositive terms
        → encode_inc sat s w terms rhs ls size ≡ some (s', w', ls')
        → Reaches s w given
        → Reaches s' w' (given ++ terms)
    updated :
        (s s' : Solver) (w w' : Swc) (given : List Term) (rhs : ℕ)
        → update_inc sat s w rhs ≡ some (s', w')
        → Reaches s w given
        → Reaches s' w' given
    joined :
        (s s' : Solver) (w w' : Swc) (given terms : List Term)
        → join sat s w terms ≡ some (s', w')
        → Reaches s w given
        → Reaches s' w' (given ++ terms)

module _ (sat : Sat) (σ : Assignment) where
  open sat use {Solver, holds}

  more_clauses :
      (s s' : Solver) (has : Bool) (o : Option ℕ) (k : Option Lit) (rows : List (List Lit))
      → (terms : List Term) → (holds s' σ ≡ true → holds s σ ≡ true)
      → Stands sat σ has o k rows terms s
      → Stands sat σ has o k rows terms s'
  more_clauses s s' has o k rows terms f (idle s0) = idle s'
  more_clauses s s' has o k rows terms f (counting rhs b rows' terms' s0 same sizes fit says) =
      counting rhs b rows terms s' same sizes fit (λ h. says (f h))

  Reaches-IsValid :
      (s : Solver) (w : Swc) (given : List Term) → Reaches sat s w given → IsValid sat σ s w given
  unfolding weight join
  Reaches-IsValid s w given (made s0) = record { stands = idle s0; whole = omega arith }
  Reaches-IsValid s w given (others s0 s1 w0 given0 more r) =
      let v = Reaches-IsValid s0 w0 given0 r in
      record { stands = more_clauses s0 s1 _ _ _ _ _ (more σ) v.stands; whole = v.whole }
  Reaches-IsValid s w given (encoded s0 s1 w0 w1 given0 terms rhs ls ls' size has pos e r) =
      encode_inc-IsValid sat σ s0 w0 given0 terms rhs ls size (s1, w1, ls') has e
        (Reaches-IsValid s0 w0 given0 r)
  Reaches-IsValid s w given (updated s0 s1 w0 w1 given0 rhs e r) =
      update_inc-IsValid sat σ s0 w0 given0 rhs (s1, w1) e (Reaches-IsValid s0 w0 given0 r)
  Reaches-IsValid s w given (joined s0 s1 w0 w1 given0 terms e r) =
      join_at-IsValid sat σ w0.current_pb_rhs w0.lit_blocking w0 given0 terms s0 (s1, w1) refl refl
        (Reaches-IsValid s0 w0 given0 r) (join_shut s0 w0 terms (s1, w1) e)
    where
      join_shut :
          (s : Solver) (w : Swc) (terms : List Term) (p : Solver × Swc)
          → join sat s w terms ≡ some p
          → join_at sat w.current_pb_rhs w.lit_blocking w terms s ≡ some p
      join_shut s w terms p e = e

  AllTrue-negated : (ts : List Term) → All (λ l. lit_true σ l ≡ true) (negated ts) → weight σ ts ≡ 0
  unfolding weight
  AllTrue-negated [] h = refl
  AllTrue-negated (t ∷ ts) h = ground (arith, h.0, AllTrue-negated ts h.1)

  bound_of :
      (has : Bool) (o : Option ℕ) (k : Option Lit) (rows : List (List Lit))
      (terms units : List Term)
      → (s : Solver) (assumptions ls : List Lit) (n : ℕ) → Stands sat σ has o k rows terms s
      → n ≡ weight σ terms + weight σ units
      → update_assumptions k units assumptions ≡ some ls
      → holds s σ ≡ true
      → All (λ l. lit_true σ l ≡ true) ls
      → (rhs : ℕ) × (o ≡ some rhs) × (n ≤ rhs)
  bound_of has o k rows terms units s assumptions ls n (idle s0) e u h all =
      absurd (ground (arith, u))
  bound_of has o k rows terms units s assumptions ls n
        (counting rhs b rows' terms' s0 same sizes fit says) e u h all =
      let all' = subst (All (λ l. lit_true σ l ≡ true)) (sym (some_injective u)) all in
      let both =
        All-of_append (λ l. lit_true σ l ≡ true) assumptions (neg b ∷ negated units) all' in
      let off : lit_true σ b ≡ false = ground (arith, both.1.0) in
      let le = (says h).1 off in (rhs, refl, omega (arith, e, le, AllTrue-negated units both.1.1))

  -- After any sequence of the incremental calls on a new SWC, with other clauses added in between, where
  -- `encode` is called without an encoding and for positive coefficients, under an assignment that satisfies the clauses and
  -- the assumptions of `updateAssumptions`, the coefficients of the true literals among all terms that
  -- the calls were given sum up to at most the current right-hand side.
  pub Reaches-bound :
      (s : Solver) (w : Swc) (given : List Term) (assumptions ls : List Lit)
      → Reaches sat s w given
      → update_assumptions w.lit_blocking w.unit_terms assumptions ≡ some ls
      → holds s σ ≡ true
      → All (λ l. lit_true σ l ≡ true) ls
      → (rhs : ℕ) × (w.current_pb_rhs ≡ some rhs) × (weight σ given ≤ rhs)
  Reaches-bound s w given assumptions ls r u h all =
      let v = Reaches-IsValid s w given r in
      bound_of _ _ _ _ w.terms w.unit_terms s assumptions ls _ v.stands v.whole u h all
