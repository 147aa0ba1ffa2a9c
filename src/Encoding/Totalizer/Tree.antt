-- ===== src/Encoding/Totalizer/Tree.antt =====
-- The clauses of `Totalizer::toCNF` under an assignment.
use dmeic.Prelude.{
  some_injective, ℕ, zero, suc, ◌+◌, ◌-◌, ◌/◌, ◌≤◌, ◌≡◌, refl, sym, ap, ◌∙◌, subst, inl, inr, true,
  false, List, [], ◌++◌, Option, some, ◌==◌, ltb, length, arith, ==_iff, Bool-cases, ltb→lt, lt→ltb,
  length-append, append_assoc,
}
use dmeic.Encoding.Solver.{Lit, Assignment, Sat, count_true}
use dmeic.Encoding.Clauses.{blocked_true}
use dmeic.Encoding.Totalizer.{past, State, Config, adder, pick, to_cnf}
use dmeic.Encoding.Totalizer.Adder.{CountsTo, adder-CountsTo, adder_clauses_sound}
use dmeic.Encoding.Totalizer.Inputs.{
  bind-some, count_true-append, count_true_le, single-CountsTo, Picked, pick-Picked,
}

module _ (sat : Sat) where
  open sat use {holds, new_var, n_vars, holds-new_var}

  -- What a call of `toCNF` does: it takes `used` from the inputs, and `lits` counts them.
  pub record Sound (σ : Assignment) (rhs : ℕ) (st : State sat) (lits : List Lit) (st' : State sat)
      (used : List Lit) : Type 0 where
    pub inputs : st.inlits ≡ used ++ st'.inlits
    pub size : length used ≡ length lits
    pub before : holds st.solver σ ≡ true
    pub counts : CountsTo rhs σ lits (count_true σ used)

  -- A branch that is a leaf is done; another one is built by the recursive call.
  abbrev descend : ℕ → Config sat → State sat → List Lit → Option (State sat)
  descend fuel c st ls = elim (ltb 1 (length ls)) [
    | true ↦ to_cnf sat fuel c st ls
    | false ↦ some st
  ]

  record Grown (σ : Assignment) (rhs : ℕ) (st : State sat) (ls : List Lit) (st' : State sat)
      (p q : List Lit) : Type 0 where
    inputs : st.inlits ≡ q ++ st'.inlits
    size : length p + length q ≡ length ls
    before : holds st.solver σ ≡ true
    counts : CountsTo rhs σ ls (count_true σ p + count_true σ q)

  abbrev IsSoundAt : Assignment → Config sat → ℕ → Type 0
  IsSoundAt σ c fuel =
      (st : State sat) (lits : List Lit) (st' : State sat)
      → to_cnf sat fuel c st lits ≡ some st'
      → holds st'.solver σ ≡ true
      → (used : List Lit) × Sound σ c.rhs st lits st' used

  Picked-leaf :
      (σ : Assignment) (rhs n : ℕ) (st st' : State sat) (ls p : List Lit)
      → Picked sat σ n st ls st' p
      → length ls ≤ 1
      → (length p ≡ length ls) × CountsTo rhs σ ls (count_true σ p)
  unfolding count_true
  Picked-leaf σ rhs n st st' ls p picked short = elim (Bool-cases (n == 1)) [
    | inl e ↦
        let (same, one) = picked.leaf ((==_iff n 1).0 e) in
        (
          ap length (sym same),
          subst (λ u. CountsTo rhs σ ls (count_true σ u)) same
              (single-CountsTo rhs σ ls (ap length same ∙ one)),
        )
    | inr e ↦
        let none_used : p ≡ [] =
          picked.inner (λ one. absurd (ground (arith, (==_iff n 1).1 one))) in
        let empty : n ≡ 0 = ground (arith, picked.size, ==_iff n 1) in
        (rw none_used (omega (arith, picked.size)), rw none_used (λ m h k. absurd (omega arith)))
  ]

  descend-Grown :
      (σ : Assignment) (c : Config sat) (fuel n : ℕ) (s0 s1 st st' : State sat) (ls p : List Lit)
      → IsSoundAt σ c fuel
      → Picked sat σ n s0 ls s1 p
      → descend fuel c st ls ≡ some st'
      → holds st'.solver σ ≡ true
      → (q : List Lit) × Grown σ c.rhs st ls st' p q
  unfolding count_true
  descend-Grown σ c fuel n s0 s1 st st' ls p ih picked h ok =
      elim (Bool-cases (ltb 1 (length ls))) [
        | inl e ↦
            let (q, s) = ih st ls st' (rw (descend, e) at h) ok in
            let many = ltb→lt _ _ e in
            let none_used : p ≡ [] = picked.inner (λ one. omega (arith, picked.size, one)) in
            (
              q,
              record {
                inputs = s.inputs;
                size = omega (arith, ap length none_used, s.size);
                before = s.before;
                counts =
                    subst (CountsTo c.rhs σ ls) (omega (arith, ap (count_true σ) none_used))
                      s.counts;
              },
            )
        | inr e ↦
            let same : st ≡ st' = some_injective (rw (descend, e) at h) in
            let (size, counts) =
              Picked-leaf σ c.rhs n s0 s1 ls p picked (ground (arith, lt→ltb 1 (length ls))) in
            (
              [],
              record {
                inputs = ap (λ s. s.inlits) same;
                size = omega arith;
                before = rw same ok;
                counts = subst (CountsTo c.rhs σ ls) (omega arith) counts;
              },
            )
      ]

  append_four : (a b c d e : List Lit) → a ++ (b ++ (c ++ (d ++ e))) ≡ (a ++ (b ++ (c ++ d))) ++ e
  append_four a b c d e = rw (append_assoc, append_assoc, append_assoc) refl

  -- The two branches and the clauses of `adder` together.
  join-Sound :
      (σ : Assignment) (c : Config sat) (n : ℕ) (st s1 s2 s3 s4 : State sat)
      → (lits left right p q u v : List Lit) → blocked_true σ c.blocking ≡ false
      → n ≤ length lits
      → Picked sat σ n st left s1 p
      → Picked sat σ (length lits - n) s1 right s2 q
      → Grown σ c.rhs s2 left s3 p u
      → Grown σ c.rhs s3 right s4 q v
      → holds (adder sat c s4 left right lits).solver σ ≡ true
      → Sound σ c.rhs st lits (adder sat c s4 left right lits) (p ++ (q ++ (u ++ v)))
  unfolding adder
  join-Sound σ c n st s1 s2 s3 s4 lits left right p q u v free le pl pr gl gr ok =
      let counted =
        adder-CountsTo sat c.rhs lits c.blocking σ free s4.solver left right
          (count_true σ p + count_true σ u) (count_true σ q + count_true σ v) ok gl.counts gr.counts
          (omega (
            arith,
            count_true_le σ p,
            count_true_le σ q,
            count_true_le σ u,
            count_true_le σ v,
            pl.size,
            pr.size,
            gl.size,
            gr.size,
          )) in
      record {
        inputs = rw (pl.inputs, pr.inputs, gl.inputs, gr.inputs) (append_four p q u v s4.inlits);
        size = omega (
          arith,
          length-append p (q ++ (u ++ v)),
          length-append q (u ++ v),
          length-append u v,
          pl.size,
          pr.size,
          gl.size,
          gr.size,
        );
        before = sym pl.same ∙ (sym pr.same ∙ gl.before);
        counts =
            subst (CountsTo c.rhs σ lits)
              (omega (
                arith,
                count_true-append σ p (q ++ (u ++ v)),
                count_true-append σ q (u ++ v),
                count_true-append σ u v,
              ))
              counted;
      }

  node-Sound :
      (σ : Assignment) (c : Config sat) (fuel : ℕ) (st st' : State sat)
      → (l r : List Lit × State sat) (s3 s4 : State sat) (lits : List Lit)
      → blocked_true σ c.blocking ≡ false
      → IsSoundAt σ c fuel
      → pick sat (length lits / 2) st ≡ some l
      → pick sat (length lits - length lits / 2) l.1 ≡ some r
      → descend fuel c r.1 l.0 ≡ some s3
      → descend fuel c s3 r.0 ≡ some s4
      → adder sat c s4 l.0 r.0 lits ≡ st'
      → holds st'.solver σ ≡ true
      → (used : List Lit) × Sound σ c.rhs st lits st' used
  unfolding adder
  node-Sound σ c fuel st st' (left, s1) (right, s2) s3 s4 lits free ih el er e3 e4 end ok =
      let half = length lits / 2 in
      let (p, pl) = pick-Picked sat σ half st left s1 el in
      let (q, pr) = pick-Picked sat σ (length lits - half) s1 right s2 er in
      let ok' = subst (λ s. holds s.solver σ ≡ true) (sym end) ok in
      let ok4 =
        (adder_clauses_sound sat (past c.rhs) lits c.blocking σ free s4.solver left right ok').0 in
      let (v, gr) = descend-Grown σ c fuel (length lits - half) s1 s2 s3 s4 right q ih pr e4 ok4 in
      let (u, gl) = descend-Grown σ c fuel half st s1 s2 s3 left p ih pl e3 gr.before in
      let joined =
        join-Sound σ c half st s1 s2 s3 s4 lits left right p q u v free (omega arith) pl pr gl gr
          ok' in
      let used = p ++ (q ++ (u ++ v)) in
      (used, subst (λ s. Sound σ c.rhs st lits s used) end joined)

  -- What satisfies the clauses after a `toCNF` that returns, and does not make `blocking` true,
  -- satisfied the clauses before; and `toCNF` takes as many inputs as `lits` has literals, and if `n`
  -- of them are true, so are the first `n` of `lits`, up to the place `rhs`.
  pub to_cnf-Sound :
      (σ : Assignment) (c : Config sat)
      → blocked_true σ c.blocking ≡ false
      → (fuel : ℕ) (st : State sat) (lits : List Lit) (st' : State sat)
      → to_cnf sat fuel c st lits ≡ some st'
      → holds st'.solver σ ≡ true
      → (used : List Lit) × Sound σ c.rhs st lits st' used
  unfolding to_cnf
  to_cnf-Sound σ c free zero st lits st' h ok = absurd (ground arith)
  to_cnf-Sound σ c free (suc fuel) st lits st' h ok = elim (Bool-cases (ltb 1 (length lits))) [
    | inr e ↦ absurd (ground (arith, rw (to_cnf, e) at h))
    | inl e ↦
        let ih : IsSoundAt σ c fuel = to_cnf-Sound σ c free fuel in
        let (l, el, hl) = bind-some _ _ st' (rw (to_cnf, e) at h) in
        let (r, er, hr) = bind-some _ _ st' hl in
        let (s3, e3, h3) = bind-some _ _ st' hr in
        let (s4, e4, h4) = bind-some _ _ st' h3 in
        node-Sound σ c fuel st st' l r s3 s4 lits free ih el er e3 e4 (some_injective h4) ok
  ]
