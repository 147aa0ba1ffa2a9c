-- ===== src/Search/PMinimal/Known.antt =====
-- What is known of the solver and the solution in the search of algorithms/Alg_PMinimalMO.cc: the
-- clauses block exactly the regions of the points found so far, and the solution covers these.
use dmeic.Prelude.{
  ◌≡◌, ◌↔◌, inl, inr, refl, sym, ap, ◌∙◌, Bool, true, false, ◌&&◌, List, ◌∷◌, All, All-In, All-mono,
  All-of_In, In,
}
use dmeic.Prelude.Int.{pos}
use dmeic.Point.{YPoint}
use dmeic.Encoding.Solver.{Sat, Assignment, clause_true}
use dmeic.Formula.Objective.{Objective, Model}
use dmeic.Search.Solution.{Solution, push_safe}
use dmeic.Search.Solution.Front.{IsFront, Covers, push_safe-IsFront}
use dmeic.Search.RootLits.{RootLits, body, block_lits, block_dominated_region}
use dmeic.Search.RootLits.Regions.{Each, IsSound, IsExact, IsAscending, SeparatesAll}
use dmeic.Search.PMinimal.{Feasible, HasPoint}

-- What the encodings of the objective functions promise of the variables: one that is true says that
-- its function is below its key; each point has an assignment under which they mean just that; and
-- the keys ascend and separate the points of the problem.
pub record IsEncoded (sat : Sat) (roots : List RootLits) (objs : List Objective) (s0 : sat.Solver)
    : Type 0 where
  pub sound :
      (σ : Assignment) (p : YPoint)
      → sat.holds s0 σ ≡ true
      → HasPoint sat roots objs s0 s0 σ p
      → Each (IsSound σ) p roots
  pub exact :
      (p : YPoint)
      → Feasible sat roots objs s0 p
      → (σ : Assignment) × (sat.holds s0 σ ≡ true)
        × HasPoint sat roots objs s0 s0 σ p
        × Each (IsExact σ) p roots
  pub ascending : All (λ root. IsAscending (body root)) roots
  pub separates :
      (p q : YPoint)
      → Feasible sat roots objs s0 p
      → Feasible sat roots objs s0 q
      → SeparatesAll roots p q

module _ (sat : Sat) (roots : List RootLits) (objs : List Objective) (s0 : sat.Solver) where
  abbrev pub Blocks : Assignment → List YPoint → Type 0
  Blocks σ qs = All (λ q. clause_true σ (block_lits roots q) ≡ true) qs

  -- The state of the solver and of the solution, with the points whose regions are blocked.
  pub record IsKnown (solver : sat.Solver) (sol : Solution) (blocked : List YPoint) : Type 0 where
    pub n_vars : sat.n_vars solver ≡ sat.n_vars s0
    pub clauses :
        (σ : Assignment)
        → (sat.holds solver σ ≡ true) ↔ ((sat.holds s0 σ ≡ true) × Blocks σ blocked)
    pub covered : All (Covers sol.mods) blocked
    pub known : All (λ e. In e.point blocked) sol.mods
    pub feasible : All (Feasible sat roots objs s0) blocked
    pub front : IsFront sol.mods

  block-clauses :
      (s : sat.Solver) (p : YPoint) (qs : List YPoint)
      → ((σ : Assignment) → (sat.holds s σ ≡ true) ↔ ((sat.holds s0 σ ≡ true) × Blocks σ qs))
      → (σ : Assignment)
      → (sat.holds (block_dominated_region sat s roots p) σ ≡ true)
        ↔ ((sat.holds s0 σ ≡ true) × Blocks σ (p ∷ qs))
  unfolding block_dominated_region
  block-clauses s p qs h σ =
      let e = sat.holds-add_clause s (block_lits roots p) σ in
      let (f, g) = h σ in
      (
        λ k.
            let (c, k2) = both (clause_true σ (block_lits roots p)) (sat.holds s σ) (sym e ∙ k) in
            let (o, b) = f k2 in (o, (c, b)),
        λ (o, (c, b)). e ∙ joined (clause_true σ (block_lits roots p)) (sat.holds s σ) c (g (o, b)),
      )
    where
      both : (a b : Bool) → a && b ≡ true → (a ≡ true) × (b ≡ true)
      both true b h = (refl, h)
      both false b h = cc

      joined : (a b : Bool) → a ≡ true → b ≡ true → a && b ≡ true
      joined a b h k = cc

  block-n_vars :
      (s : sat.Solver) (p : YPoint)
      → sat.n_vars (block_dominated_region sat s roots p) ≡ sat.n_vars s
  unfolding block_dominated_region
  block-n_vars s p = sat.n_vars-add_clause s (block_lits roots p)

  -- A point of the problem comes in, by `found` or by `receive`.
  pub insert-IsKnown :
      (s : sat.Solver) (sol : Solution) (qs : List YPoint) (m : Model) (p : YPoint)
      → IsKnown s sol qs
      → Feasible sat roots objs s0 p
      → IsKnown
          (block_dominated_region sat s roots p)
          (push_safe sol m p (pos 0) true true).1
          (p ∷ qs)
  insert-IsKnown s sol qs m p k fp =
      let (front, at_p, kept, old) = push_safe-IsFront sol m p (pos 0) k.front in
      record {
        n_vars = block-n_vars s p ∙ k.n_vars;
        clauses = block-clauses s p qs k.clauses;
        covered = (at_p, All-mono _ _ qs kept k.covered);
        known = All-of_In _ _ (λ e i. elim (old e i) [
          | inl j ↦ inr (All-In _ sol.mods k.known e j)
          | inr eq ↦ inl (ap (λ x. x.point) eq)
        ]);
        feasible = (fp, k.feasible);
        front = front;
      }

  -- The region of a point that is blocked is blocked once more, by `optimum`.
  pub again-IsKnown :
      (s : sat.Solver) (sol : Solution) (qs : List YPoint) (p : YPoint)
      → IsKnown s sol qs
      → In p qs
      → IsKnown (block_dominated_region sat s roots p) sol (p ∷ qs)
  again-IsKnown s sol qs p k i = record {
    n_vars = block-n_vars s p ∙ k.n_vars;
    clauses = block-clauses s p qs k.clauses;
    covered = (All-In _ qs k.covered p i, k.covered);
    known = All-mono _ _ sol.mods (λ e j. inr j) k.known;
    feasible = (All-In _ qs k.feasible p i, k.feasible);
    front = k.front;
  }
