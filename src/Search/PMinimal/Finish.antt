-- ===== src/Search/PMinimal/Finish.antt =====
-- That the search of algorithms/Alg_PMinimalMO.cc ends, from wherever it is.
use dmeic.Prelude.{
  ℕ, zero, suc, ◌≡◌, ◌⊎◌, inl, inr, sym, subst, Bool, true, List, some, arith, All, In,
}
use dmeic.Point.{YPoint}
use dmeic.Encoding.Solver.{Sat, Assignment, lit_true}
use dmeic.Formula.Objective.{Objective}
use dmeic.Search.Solution.{eval_model}
use dmeic.Search.RootLits.{RootLits}
use dmeic.Search.PMinimal.{
  State, Phase, outer, inner, done, stopped, Waits, Feasible, HasPoint, Unsatisfiable, Step, model,
  no_better, no_more, Reach, found, optimum, model_of, verdict,
}
use dmeic.Search.PMinimal.Known.{IsEncoded, IsKnown}
use dmeic.Search.PMinimal.Invariant.{Reach-Invariant}
use dmeic.Search.PMinimal.Progress.{Bounded, Step-Bounded, some_left, potential, count_free}

module _ (sat : Sat) (roots : List RootLits) (objs : List Objective) (s0 : sat.Solver) where
  -- Answers of the solver that lead from one state to another.
  pub data Leads : Phase → State sat → Phase → State sat → Type 0 where
    at_once : (ph : Phase) (s : State sat) → Leads ph s ph s
    after :
        {ph : Phase} {s : State sat} {ph1 : Phase} {t : State sat} {ph2 : Phase} {u : State sat}
        → Step sat roots objs s0 ph s ph1 t
        → Leads ph1 t ph2 u
        → Leads ph s ph2 u

  abbrev pub Ends : Phase → State sat → Type 0
  Ends ph s = (b : Bool) × (t : State sat) × Leads ph s (done b) t

  after_step :
      (ph : Phase) (s : State sat) (ph1 : Phase) (t : State sat)
      → Step sat roots objs s0 ph s ph1 t
      → Ends ph1 t
      → Ends ph s
  after_step ph s ph1 t st (b, u, l) = (b, u, after st l)

  module _ (enc : IsEncoded sat roots objs s0) (ps : List YPoint)
      (box : (p : YPoint) → Feasible sat roots objs s0 p → In p ps)
      (answers : (s : State sat)
        → ((σ : Assignment) × (sat.holds s.solver σ ≡ true)
            × All (λ l. lit_true σ l ≡ true) s.assumptions)
          ⊎ Unsatisfiable sat roots objs s0 s)
      (evaluates : (σ : Assignment)
        → sat.holds s0 σ ≡ true
        → (p : YPoint) × HasPoint sat roots objs s0 s0 σ p) where
    has_point :
        (s : State sat) (qs : List YPoint) (σ : Assignment)
        → IsKnown sat roots objs s0 s.solver s.sol qs
        → sat.holds s.solver σ ≡ true
        → (p : YPoint) × HasPoint sat roots objs s0 s.solver σ p
    has_point s qs σ k h =
        let (p, e) = evaluates σ ((k.clauses σ).0 h).0 in
        (p, subst (λ n. eval_model objs (model_of n σ) ≡ some p) (sym k.n_vars) e)

    finish :
        (n : ℕ) (ph : Phase) (s : State sat)
        → Waits ph
        → Bounded sat roots objs s0 ps ph s n
        → Ends ph s
    finish zero ph s w b = absurd (some_left sat roots objs s0 ps ph s w b)
    finish (suc n) outer s w (qs, k, i, b) = elim (answers s) [
      | inl (σ, h, a) ↦
          let (p, e) = has_point s qs σ k h in
          let t = found sat roots s (model_of (sat.n_vars s.solver) σ) p in
          let st = model outer s σ p tt h a e in
          after_step outer s inner t st
            (finish n inner t tt (Step-Bounded sat roots objs s0 enc ps box n st (qs, k, i, b)))
      | inr u ↦ (verdict s.sol.mods, s, after (no_more s u) (at_once (done (verdict s.sol.mods)) s))
    ]
    finish (suc n) inner s w (qs, k, i, b) = elim (answers s) [
      | inl (σ, h, a) ↦
          let (p, e) = has_point s qs σ k h in
          let t = found sat roots s (model_of (sat.n_vars s.solver) σ) p in
          let st = model inner s σ p tt h a e in
          after_step inner s inner t st
            (finish n inner t tt (Step-Bounded sat roots objs s0 enc ps box n st (qs, k, i, b)))
      | inr u ↦
          let t = optimum sat roots s in
          let st = no_better s u in
          after_step inner s outer t st
            (finish n outer t tt (Step-Bounded sat roots objs s0 enc ps box n st (qs, k, i, b)))
    ]
    finish (suc n) (done r) s w b = elim w [ ]
    finish (suc n) stopped s w b = elim w [ ]

    -- From each state in which the search waits for an answer, the answers of the solver lead to the
    -- end: where the variables mean what `IsEncoded` says, the solver answers each call, the points
    -- of the problem are among `ps`, and each assignment of the problem has a point.
    pub search-ends :
        (ph : Phase) (s : State sat) → Reach sat roots objs s0 ph s → Waits ph → Ends ph s
    search-ends ph s r w =
        let (qs, k, i) = Reach-Invariant sat roots objs s0 enc r in
        finish (potential ph (count_free qs ps)) ph s w (qs, k, i, omega arith)
