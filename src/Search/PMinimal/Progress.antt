-- ===== src/Search/PMinimal/Progress.antt =====
-- How often the search of algorithms/Alg_PMinimalMO.cc calls the solver, and that it ends.
use dmeic.Prelude.{
  ℕ, zero, suc, ◌+◌, ◌*◌, ◌≤◌, ◌<◌, ◌≡◌, inl, inr, refl, sym, subst, true, false, List, [], ◌∷◌,
  arith, All, In, length, any_of, if◌then◌else◌,
}
use dmeic.Point.{YPoint, dominates}
use dmeic.Point.Order.{dominates_refl}
use dmeic.Encoding.Solver.{Sat, lit_true}
use dmeic.Formula.Objective.{Objective, Model}
use dmeic.Search.RootLits.{RootLits}
use dmeic.Search.PMinimal.{
  State, Phase, outer, inner, done, stopped, Waits, Feasible, Step, model, no_better, no_more,
  start, model_of, optimum, receive,
}
use dmeic.Search.PMinimal.Known.{IsEncoded, IsKnown, again-IsKnown, insert-IsKnown}
use dmeic.Search.PMinimal.Invariant.{InPhase, model-new, found-IsKnown, start-Invariant}

-- How many of the points no blocked point dominates.
unfoldable pub count_free : List YPoint → List YPoint → ℕ
count_free qs [] = 0
count_free qs (p ∷ ps) =
    let rest = count_free qs ps in if any_of (λ q. dominates q p) qs then rest else suc rest

count_free-le : (q : YPoint) (qs ps : List YPoint) → count_free (q ∷ qs) ps ≤ count_free qs ps
unfolding count_free
count_free-le q qs [] = omega arith
count_free-le q qs (p ∷ ps) = ground (arith, count_free-le q qs ps)

count_free-lt :
    (q : YPoint) (qs ps : List YPoint)
    → In q ps
    → any_of (λ r. dominates r q) qs ≡ false
    → count_free (q ∷ qs) ps < count_free qs ps
unfolding count_free
count_free-lt q qs [] i f = elim i [ ]
count_free-lt q qs (p ∷ ps) (inl e) f =
    let at_p = subst (λ t. any_of (λ r. dominates r t) qs ≡ false) e f in
    let d = subst (λ t. dominates q t ≡ true) e (dominates_refl q) in
    let le = count_free-le q qs ps in rw (at_p, d) (omega (arith, le))
count_free-lt q qs (p ∷ ps) (inr i) f = let lt = count_free-lt q qs ps i f in ground (arith, lt)

count_free-length : (qs ps : List YPoint) → count_free qs ps ≤ length ps
unfolding count_free
count_free-length qs [] = omega arith
count_free-length qs (p ∷ ps) = ground (arith, count_free-length qs ps)

none_dominates :
    (p : YPoint) (qs : List YPoint)
    → All (λ q. dominates q p ≡ false) qs
    → any_of (λ q. dominates q p) qs ≡ false
none_dominates p [] h = refl
none_dominates p (q ∷ qs) h = rw h.0 (none_dominates p qs h.1)

-- A bound on the answers that are still to come.
unfoldable pub potential : Phase → ℕ → ℕ
potential outer n = 2 * n + 1
potential inner n = 2 * n + 2
potential (done b) n = 0
potential stopped n = 0

potential-le : (ph : Phase) (m n : ℕ) → m ≤ n → potential ph m ≤ potential ph n
unfolding potential
potential-le outer m n h = omega (arith, h)
potential-le inner m n h = omega (arith, h)
potential-le (done b) m n h = omega arith
potential-le stopped m n h = omega arith

module _ (sat : Sat) (roots : List RootLits) (objs : List Objective) (s0 : sat.Solver) where
  -- `Answers n ph s`: the search comes to `ph` and `s` with `n` answers of the solver, budgets that
  -- run out and solutions that are received not counted.
  pub data Answers : ℕ → Phase → State sat → Type 0 where
    none_yet : Answers 0 outer (start sat roots objs s0)
    one_more :
        {n : ℕ} {ph : Phase} {s : State sat} {ph' : Phase} {t : State sat}
        → Answers n ph s
        → Step sat roots objs s0 ph s ph' t
        → Answers (suc n) ph' t
    meanwhile :
        {n : ℕ} {ph : Phase} {s : State sat}
        → Answers n ph s
        → (m : Model) (p : YPoint) → Waits ph
        → Feasible sat roots objs s0 p
        → Answers n ph (receive sat roots s m p)

  -- The invariant with a bound on the answers to come.
  abbrev pub Bounded : List YPoint → Phase → State sat → ℕ → Type 0
  Bounded ps ph s n =
      (qs : List YPoint) × IsKnown sat roots objs s0 s.solver s.sol qs
      × InPhase sat roots objs s0 ph s qs
      × (potential ph (count_free qs ps) ≤ n)

  model-lower :
      (ph : Phase) (m n k : ℕ) → Waits ph → m < n → potential ph n ≤ suc k → potential inner m ≤ k
  unfolding potential
  model-lower outer m n k w h b = omega (arith, h, b)
  model-lower inner m n k w h b = omega (arith, h, b)
  model-lower (done b') m n k w h b = elim w [ ]
  model-lower stopped m n k w h b = elim w [ ]

  -- An answer uses up one of the answers to come.
  pub Step-Bounded :
      IsEncoded sat roots objs s0
      → (ps : List YPoint) → ((p : YPoint) → Feasible sat roots objs s0 p → In p ps)
      → {ph : Phase} {s : State sat} {ph' : Phase} {t : State sat} (n : ℕ)
      → Step sat roots objs s0 ph s ph' t
      → Bounded ps ph s (suc n)
      → Bounded ps ph' t n
  unfolding optimum potential
  Step-Bounded enc ps box n (model ph s σ p w h a e) (qs, k, _, b) =
      let (fp, new) = model-new sat roots objs s0 enc s.solver s.sol qs σ p k h e in
      let (known, at_ul) =
        found-IsKnown sat roots objs s0 s qs (model_of (sat.n_vars s.solver) σ) p k fp new in
      (
        p ∷ qs,
        known,
        at_ul,
        model-lower ph (count_free (p ∷ qs) ps) (count_free qs ps) n w
            (count_free-lt p qs ps (box p fp) (none_dominates p qs new)) b,
      )
  Step-Bounded enc ps box n (no_better s u) (qs, k, i, b) =
      let le = count_free-le s.ul qs ps in
      (
        s.ul ∷ qs,
        again-IsKnown sat roots objs s0 s.solver s.sol qs s.ul k i,
        refl,
        omega (arith, le, b),
      )
  Step-Bounded enc ps box n (no_more s u) (qs, k, e, b) =
      (qs, k, (refl, λ σ h. u σ h (subst (All (λ l. lit_true σ l ≡ true)) (sym e) tt)), omega arith)

  receive-Bounded :
      (ps : List YPoint) (n : ℕ) (ph : Phase) (s : State sat) (m : Model) (p : YPoint)
      → Waits ph
      → Feasible sat roots objs s0 p
      → Bounded ps ph s n
      → Bounded ps ph (receive sat roots s m p) n
  unfolding receive potential
  receive-Bounded ps n outer s m p w fp (qs, k, i, b) =
      let le = count_free-le p qs ps in
      (p ∷ qs, insert-IsKnown sat roots objs s0 s.solver s.sol qs m p k fp, i, omega (arith, le, b))
  receive-Bounded ps n inner s m p w fp (qs, k, i, b) =
      let le = count_free-le p qs ps in
      (
        p ∷ qs,
        insert-IsKnown sat roots objs s0 s.solver s.sol qs m p k fp,
        inr i,
        omega (arith, le, b),
      )
  receive-Bounded ps n (done b) s m p w fp v = elim w [ ]
  receive-Bounded ps n stopped s m p w fp v = elim w [ ]

  Step-Waits :
      {ph : Phase} {s : State sat} {ph' : Phase} {t : State sat}
      → Step sat roots objs s0 ph s ph' t
      → Waits ph
  Step-Waits (model ph s σ p w h a e) = w
  Step-Waits (no_better s u) = tt
  Step-Waits (no_more s u) = tt

  -- A search that waits for an answer has one to come.
  pub some_left : (ps : List YPoint) (ph : Phase) (s : State sat) → Waits ph → ¬ Bounded ps ph s 0
  unfolding potential
  some_left ps outer s w (qs, k, i, b) = omega (arith, b)
  some_left ps inner s w (qs, k, i, b) = omega (arith, b)
  some_left ps (done r) s w v = elim w [ ]
  some_left ps stopped s w v = elim w [ ]

  start-Bounded :
      (ps : List YPoint) → Bounded ps outer (start sat roots objs s0) (2 * length ps + 1)
  unfolding potential
  start-Bounded ps =
      let (qs, k, i) = start-Invariant sat roots objs s0 in
      let le = count_free-length qs ps in (qs, k, i, omega (arith, le))

  module _ (enc : IsEncoded sat roots objs s0) (ps : List YPoint)
      (box : (p : YPoint) → Feasible sat roots objs s0 p → In p ps) where
    Answers-Bounded :
        {n : ℕ} {ph : Phase} {s : State sat}
        → Answers n ph s
        → (k : ℕ) × (n + k ≡ 2 * length ps + 1) × Bounded ps ph s k
    Answers-Bounded none_yet = (2 * length ps + 1, omega arith, start-Bounded ps)
    Answers-Bounded (one_more {n} {ph} {s} {ph'} {t} r st) =
        let (k, e, b) = Answers-Bounded r in used n k e st b
      where
        used :
            (n k : ℕ)
            → n + k ≡ 2 * length ps + 1
            → Step sat roots objs s0 ph s ph' t
            → Bounded ps ph s k
            → (j : ℕ) × (suc n + j ≡ 2 * length ps + 1) × Bounded ps ph' t j
        used n zero e st b = absurd (some_left ps ph s (Step-Waits st) b)
        used n (suc k) e st b = (k, omega (arith, e), Step-Bounded enc ps box k st b)
    Answers-Bounded (meanwhile {ph} {s} r m p w fp) =
        let (k, e, b) = Answers-Bounded r in (k, e, receive-Bounded ps k ph s m p w fp b)

    -- Where the variables mean what `IsEncoded` says and the points of the problem are among `ps`, the
    -- solver gives at most two answers for each of `ps` and one more, whatever is received in between.
    pub search-Answers :
        (n : ℕ) (ph : Phase) (s : State sat) → Answers n ph s → n ≤ 2 * length ps + 1
    search-Answers n ph s r = let (k, e, _) = Answers-Bounded r in omega (arith, e)
