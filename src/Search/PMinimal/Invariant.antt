-- ===== src/Search/PMinimal/Invariant.antt =====
-- What the search of algorithms/Alg_PMinimalMO.cc keeps in each of its phases.
use dmeic.Prelude.{
  ◌≡◌, inl, inr, refl, sym, subst, true, false, List, [], ◌∷◌, some, All, All-In, All-mono, In,
}
use dmeic.Prelude.Int.{pos}
use dmeic.Point.{YPoint, dominates}
use dmeic.Encoding.Solver.{Sat, Assignment, lit_true}
use dmeic.Formula.Objective.{Objective, Model}
use dmeic.Search.Solution.{Solution, push_safe, last, new_solution, eval_model}
use dmeic.Search.Solution.Front.{push_safe-fresh}
use dmeic.Search.RootLits.{RootLits, block_dominated_region}
use dmeic.Search.RootLits.Regions.{block_lits_sound}
use dmeic.Search.PMinimal.{
  State, Phase, outer, inner, done, stopped, Waits, model_of, found, optimum, receive, last_point,
  Feasible, HasPoint, Step, model, no_better, no_more, answer, received, halt, start, Reach, here,
  next, verdict,
}
use dmeic.Search.PMinimal.Known.{IsEncoded, IsKnown, insert-IsKnown, again-IsKnown}

module _ (sat : Sat) (roots : List RootLits) (objs : List Objective) (s0 : sat.Solver) where
  -- What holds in each phase: the assumptions are empty before a first model, the current point is
  -- blocked after one, and at the end nothing is left.
  abbrev pub InPhase : Phase → State sat → List YPoint → Type 0
  InPhase outer s qs = s.assumptions ≡ []
  InPhase inner s qs = In s.ul qs
  InPhase (done b) s qs =
      (b ≡ verdict s.sol.mods) × ((σ : Assignment) → ¬ (sat.holds s.solver σ ≡ true))
  InPhase stopped s qs = Unit

  abbrev pub Invariant : Phase → State sat → Type 0
  Invariant ph s =
      (qs : List YPoint) × IsKnown sat roots objs s0 s.solver s.sol qs × InPhase ph s qs

  -- An assignment of the solver stands for a point of the problem, which no blocked point dominates.
  pub model-new :
      IsEncoded sat roots objs s0
      → (s : sat.Solver) (sol : Solution) (qs : List YPoint) (σ : Assignment) (p : YPoint)
      → IsKnown sat roots objs s0 s sol qs
      → sat.holds s σ ≡ true
      → HasPoint sat roots objs s0 s σ p
      → Feasible sat roots objs s0 p × All (λ q. dominates q p ≡ false) qs
  model-new enc s sol qs σ p k h e =
      let (o, b) = (k.clauses σ).0 h in
      let e0 = subst (λ n. eval_model objs (model_of n σ) ≡ some p) k.n_vars e in
      ((σ, o, e0), All-mono _ _ qs (λ q c. block_lits_sound σ p q roots (enc.sound σ p o e0) c) b)

  pub elements-new :
      (sol : Solution) (qs : List YPoint) (p : YPoint)
      → All (λ e. In e.point qs) sol.mods
      → All (λ q. dominates q p ≡ false) qs
      → All (λ e. dominates e.point p ≡ false) sol.mods
  elements-new sol qs p known h =
      All-mono _ _ sol.mods (λ e i. All-In (λ q. dominates q p ≡ false) qs h e.point i) known

  -- The point that the search goes on from is the one that was found.
  found-ul :
      (ul : YPoint) (sol : Solution) (m : Model) (p : YPoint)
      → All (λ e. dominates e.point p ≡ false) sol.mods
      → last_point ul (last (push_safe sol m p (pos 0) true true).1.mods) ≡ p
  unfolding last_point
  found-ul ul sol m p h = rw (push_safe-fresh sol m p (pos 0) h).1 refl

  pub found-IsKnown :
      (s : State sat) (qs : List YPoint) (m : Model) (p : YPoint)
      → IsKnown sat roots objs s0 s.solver s.sol qs
      → Feasible sat roots objs s0 p
      → All (λ q. dominates q p ≡ false) qs
      → let t = found sat roots s m p in
        IsKnown sat roots objs s0 t.solver t.sol (p ∷ qs) × In t.ul (p ∷ qs)
  unfolding found
  found-IsKnown s qs m p k fp new =
      let e = found-ul s.ul s.sol m p (elements-new s.sol qs p k.known new) in
      subst
        (λ ul.
          IsKnown sat roots objs s0 (block_dominated_region sat s.solver roots ul)
            (push_safe s.sol m p (pos 0) true true).1 (p ∷ qs)
          × In ul (p ∷ qs))
        (sym e) (insert-IsKnown sat roots objs s0 s.solver s.sol qs m p k fp, inl refl)

  pub start-Invariant : Invariant outer (start sat roots objs s0)
  unfolding start new_solution
  start-Invariant = (
    [],
    record {
      n_vars = refl;
      clauses = λ σ. ((λ h. (h, tt)), (λ h. h.0));
      covered = tt;
      known = tt;
      feasible = tt;
      front = tt;
    },
    refl,
  )

  -- An answer of the solver keeps the invariant.
  pub Step-Invariant :
      IsEncoded sat roots objs s0
      → {ph : Phase} {s : State sat} {ph' : Phase} {t : State sat}
      → Step sat roots objs s0 ph s ph' t
      → Invariant ph s
      → Invariant ph' t
  unfolding optimum
  Step-Invariant enc (model ph s σ p w h a e) (qs, k, _) =
      let (fp, new) = model-new enc s.solver s.sol qs σ p k h e in
      let (known, at_ul) = found-IsKnown s qs (model_of (sat.n_vars s.solver) σ) p k fp new in
      (p ∷ qs, known, at_ul)
  Step-Invariant enc (no_better s u) (qs, k, i) =
      (s.ul ∷ qs, again-IsKnown sat roots objs s0 s.solver s.sol qs s.ul k i, refl)
  Step-Invariant enc (no_more s u) (qs, k, e) =
      (qs, k, (refl, λ σ h. u σ h (subst (All (λ l. lit_true σ l ≡ true)) (sym e) tt)))

  pub receive-Invariant :
      (ph : Phase) (s : State sat) (m : Model) (p : YPoint)
      → Waits ph
      → Feasible sat roots objs s0 p
      → Invariant ph s
      → Invariant ph (receive sat roots s m p)
  unfolding receive
  receive-Invariant outer s m p w fp (qs, k, i) =
      (p ∷ qs, insert-IsKnown sat roots objs s0 s.solver s.sol qs m p k fp, i)
  receive-Invariant inner s m p w fp (qs, k, i) =
      (p ∷ qs, insert-IsKnown sat roots objs s0 s.solver s.sol qs m p k fp, inr i)
  receive-Invariant (done b) s m p w fp v = elim w [ ]
  receive-Invariant stopped s m p w fp v = elim w [ ]

  pub Reach-Invariant :
      IsEncoded sat roots objs s0
      → {ph : Phase} {s : State sat} → Reach sat roots objs s0 ph s
      → Invariant ph s
  Reach-Invariant enc here = start-Invariant
  Reach-Invariant enc (next r (answer st)) = Step-Invariant enc st (Reach-Invariant enc r)
  Reach-Invariant enc (next r (received ph s m p w fp)) =
      receive-Invariant ph s m p w fp (Reach-Invariant enc r)
  Reach-Invariant enc (next r (halt ph s w)) = let (qs, k, _) = Reach-Invariant enc r in (qs, k, tt)
