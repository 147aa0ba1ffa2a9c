-- ===== src/Search/PMinimal/Result.antt =====
-- What the solution is when the search of algorithms/Alg_PMinimalMO.cc ends.
use dmeic.Prelude.{
  ◌≡◌, ◌↔◌, inl, inr, refl, sym, ap, ◌∙◌, subst, Bool, true, false, List, [], ◌∷◌, arith, All,
  All-In, All-of_In, In, Any-mono, Any-witness, any_of, any_of-true, any_of-false, Bool-cases,
  length, ◌==◌, if◌then◌else◌,
}
use dmeic.Prelude.Int.{pos}
use dmeic.Point.{YPoint, dominates}
use dmeic.Point.Order.{dominates_trans, dominates_antisymm}
use dmeic.Encoding.Solver.{Sat, Assignment, clause_true}
use dmeic.Formula.Objective.{Objective}
use dmeic.Search.Solution.Size.{eval_model-length}
use dmeic.Search.Solution.{Entry, push_safe}
use dmeic.Search.Solution.Front.{IsFront, Covers, Apart, push_safe-fresh}
use dmeic.Search.RootLits.{RootLits, block_lits}
use dmeic.Search.RootLits.Regions.{block_lits_complete}
use dmeic.Search.PMinimal.{State, Phase, done, Feasible, HasPoint, Reach, verdict, model_of}
use dmeic.Search.PMinimal.Known.{IsEncoded, IsKnown}
use dmeic.Search.PMinimal.Invariant.{Reach-Invariant, model-new, elements-new}

-- In a front an element dominates only itself.
front-same :
    (es : List Entry) (a b : Entry)
    → IsFront es
    → In a es
    → In b es
    → dominates a.point b.point ≡ true
    → a.point ≡ b.point
front-same [] a b f i j d = elim i [ ]
front-same (e ∷ es) a b f (inl i) (inl j) d = ap (λ x. x.point) i ∙ sym (ap (λ x. x.point) j)
front-same (e ∷ es) a b f (inl i) (inr j) d =
    let (out, _) = All-In (Apart e) es f.0 b j in
    let d' = subst (λ x. dominates x.point b.point ≡ true) i d in
    let bad : true ≡ false = sym d' ∙ out in absurd (cc bad)
front-same (e ∷ es) a b f (inr i) (inl j) d =
    let (_, out) = All-In (Apart e) es f.0 a i in
    let d' = subst (λ x. dominates a.point x.point ≡ true) j d in
    let bad : true ≡ false = sym d' ∙ out in absurd (cc bad)
front-same (e ∷ es) a b f (inr i) (inr j) d = front-same es a b f.1 i j d

module _ (sat : Sat) (roots : List RootLits) (objs : List Objective) (s0 : sat.Solver) where
  -- A point of the problem that no other one dominates.
  abbrev pub IsEfficient : YPoint → Type 0
  IsEfficient p =
      Feasible sat roots objs s0 p
      × ((q : YPoint) → Feasible sat roots objs s0 q → dominates q p ≡ true → q ≡ p)

  abbrev IsDone : State sat → Type 0
  IsDone s = (σ : Assignment) → ¬ (sat.holds s.solver σ ≡ true)

  same_size :
      (p q : YPoint)
      → Feasible sat roots objs s0 p
      → Feasible sat roots objs s0 q
      → length p ≡ length q
  same_size p q (σ, _, e) (τ, _, f) =
      eval_model-length objs (model_of (sat.n_vars s0) σ) p e
      ∙ sym (eval_model-length objs (model_of (sat.n_vars s0) τ) q f)

  unblocked :
      IsEncoded sat roots objs s0
      → (s : State sat) (qs : List YPoint) (p : YPoint)
      → IsKnown sat roots objs s0 s.solver s.sol qs
      → Feasible sat roots objs s0 p
      → All (λ q. dominates q p ≡ false) qs
      → (σ : Assignment) × (sat.holds s.solver σ ≡ true)
  unblocked enc s qs p k fp free =
      let (σ, o, _, x) = enc.exact p fp in
      (
        σ,
        (k.clauses σ).1 (
          o,
          All-of_In (λ q. clause_true σ (block_lits roots q) ≡ true) qs
              (λ q i.
                let fq = All-In (Feasible sat roots objs s0) qs k.feasible q i in
                block_lits_complete σ p q roots x enc.ascending (enc.separates p q fp fq)
                  (same_size p q fp fq) (All-In (λ r. dominates r p ≡ false) qs free q i)),
        ),
      )

  -- Each point of the problem is covered when no assignment is left.
  Covers-all :
      IsEncoded sat roots objs s0
      → (s : State sat) (qs : List YPoint) (p : YPoint)
      → IsKnown sat roots objs s0 s.solver s.sol qs
      → IsDone s
      → Feasible sat roots objs s0 p
      → Covers s.sol.mods p
  Covers-all enc s qs p k end fp = elim (Bool-cases (any_of (λ q. dominates q p) qs)) [
    | inl e ↦
        let (q, i, d) = Any-witness (λ r. dominates r p ≡ true) qs (any_of-true _ qs e) in
        Any-mono _ _ s.sol.mods (λ a c. dominates_trans a.point q p c d)
          (All-In (Covers s.sol.mods) qs k.covered q i)
    | inr e ↦ let (σ, h) = unblocked enc s qs p k fp (any_of-false _ qs e) in absurd (end σ h)
  ]

  element-Feasible :
      (s : State sat) (qs : List YPoint) (e : Entry)
      → IsKnown sat roots objs s0 s.solver s.sol qs
      → In e s.sol.mods
      → Feasible sat roots objs s0 e.point
  element-Feasible s qs e k i =
      All-In (Feasible sat roots objs s0) qs k.feasible e.point
        (All-In (λ a. In a.point qs) s.sol.mods k.known e i)

  -- Where the variables of the objective functions mean what `IsEncoded` says: when the search ends,
  -- the points of the solution are exactly the efficient points of the problem:
  -- those that an assignment has and that no other point dominates. No solution that is received in
  -- between changes that.
  pub search-front :
      IsEncoded sat roots objs s0
      → (b : Bool) (s : State sat) → Reach sat roots objs s0 (done b) s
      → (p : YPoint) → ((e : Entry) × In e s.sol.mods × (e.point ≡ p)) ↔ IsEfficient p
  search-front enc b s r p =
      let (qs, k, (_, end)) = Reach-Invariant sat roots objs s0 enc r in
      let witness = λ (q : YPoint) (fq : Feasible sat roots objs s0 q).
        Any-witness (λ a. dominates a.point q ≡ true) s.sol.mods (Covers-all enc s qs q k end fq) in
      (
        λ (e, i, eq).
            let fe = element-Feasible s qs e k i in
            subst IsEfficient eq (
              fe,
              λ q fq d.
                  let (a, j, c) = witness q fq in
                  let same =
                    front-same s.sol.mods a e k.front j i (dominates_trans a.point q e.point c d) in
                  dominates_antisymm q e.point d (subst (λ t. dominates t q ≡ true) same c),
            ),
        λ (fp, least).
            let (a, j, c) = witness p fp in (a, j, least a.point (element-Feasible s qs a k j) c),
      )

  -- Where the variables mean what `IsEncoded` says: a search that ends returns true exactly when the
  -- problem has a point, whatever it received.
  pub search-verdict :
      IsEncoded sat roots objs s0
      → (b : Bool) (s : State sat) → Reach sat roots objs s0 (done b) s
      → (b ≡ true) ↔ ((p : YPoint) × Feasible sat roots objs s0 p)
  unfolding verdict
  search-verdict enc b s r =
      let (qs, k, (eq, end)) = Reach-Invariant sat roots objs s0 enc r in
      (
        λ t. some_point s.sol.mods (sym eq ∙ t) (λ e i. element-Feasible s qs e k i),
        λ (p, fp). eq ∙ not_empty s.sol.mods p (Covers-all enc s qs p k end fp),
      )
    where
      some_point :
          (es : List Entry)
          → (if length es == 0 then false else true) ≡ true
          → ((e : Entry) → In e es → Feasible sat roots objs s0 e.point)
          → (p : YPoint) × Feasible sat roots objs s0 p
      some_point [] h f = absurd (cc h)
      some_point (e ∷ es) h f = (e.point, f e (inl refl))

      not_empty :
          (es : List Entry) (p : YPoint)
          → Covers es p
          → (if length es == 0 then false else true) ≡ true
      not_empty [] p c = elim c [ ]
      not_empty (e ∷ es) p c = ground arith

  -- Where the variables mean what `IsEncoded` says: whatever was found or received so far, a model that the solver gives gets into the solution:
  -- `pushSafe` never turns it away.
  pub model-inserted :
      IsEncoded sat roots objs s0
      → {ph : Phase} (s : State sat) (σ : Assignment) (p : YPoint) → Reach sat roots objs s0 ph s
      → sat.holds s.solver σ ≡ true
      → HasPoint sat roots objs s0 s.solver σ p
      → (push_safe s.sol (model_of (sat.n_vars s.solver) σ) p (pos 0) true true).0 ≡ true
  model-inserted enc s σ p r h e =
      let (qs, k, _) = Reach-Invariant sat roots objs s0 enc r in
      let (_, new) = model-new sat roots objs s0 enc s.solver s.sol qs σ p k h e in
      (push_safe-fresh s.sol (model_of (sat.n_vars s.solver) σ) p (pos 0)
        (elements-new sat roots objs s0 s.sol qs p k.known new)).0
