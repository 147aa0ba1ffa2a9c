-- ===== src/Sharing/Vector/Coverage.antt =====
-- What the loops of `pushSolutions` do to the entries of `sharedSolutions`, mark by mark.
use dmeic.Prelude.{
  ℕ, ◌≡◌, refl, subst, ◌∙◌, inl, inr, true, false, ◌||◌, List, [], ◌∷◌, ◌++◌, map, arith, In, All,
  Any, Bool-cases, In-append_left, append_assoc, All-mono, All-intro, Any-mono, Any-append_left,
  Any-append_right, Any_of_sub, In-append_mono,
}
use dmeic.Point.{YPoint, dominates, equal}
use dmeic.Point.Order.{dominates_refl, equal_iff}
use dmeic.Point.Weight.{Strict, Strict-trans}
use dmeic.Sharing.Vector.{Tagged, Marked, inspect, examine}

module _ {Sol : Type 0} (y_point : Sol → YPoint) where
  abbrev pub at : Tagged Sol → YPoint
  at t = y_point t.sol

  abbrev pub entries : List (Marked Sol) → List (Tagged Sol)
  entries = map {A = Marked Sol} (λ m. m.0)

  -- The test by which a candidate is refused is weak dominance.
  equal_or_dominates : (p q : YPoint) → (equal p q || dominates p q) ≡ dominates p q
  equal_or_dominates p q = ground (arith, equal_iff p q, dominates_refl p)

  inspect-entries :
      (c : YPoint) (ms : List (Marked Sol)) → entries (inspect y_point c ms).0 ≡ entries ms
  unfolding inspect
  inspect-entries c [] = refl
  inspect-entries c ((t, flag) ∷ ms) = ground (arith, inspect-entries c ms)

  inspect-skip :
      (c : YPoint) (ms : List (Marked Sol))
      → (inspect y_point c ms).1 ≡ true
      → Any (λ t. dominates (at t) c ≡ true) (entries ms)
  unfolding inspect
  inspect-skip c [] h = cc
  inspect-skip c ((t, flag) ∷ ms) h = ground (arith, inspect-skip c ms, equal_or_dominates (at t) c)

  inspect-end :
      (c : YPoint) (ms : List (Marked Sol))
      → (inspect y_point c ms).1 ≡ false
      → All (λ t. dominates (at t) c ≡ false) (entries ms)
  unfolding inspect
  inspect-end c [] h = tt
  inspect-end c ((t, flag) ∷ ms) h = ground (arith, inspect-end c ms, equal_or_dominates (at t) c)

  -- A mark that the loop sets is on an entry that the candidate strictly dominates.
  inspect-marks :
      (P : Tagged Sol → Type 0) (c : YPoint) (ms : List (Marked Sol))
      → All (λ m. m.1 ≡ true → P m.0) ms
      → All (λ t. Strict c (at t) → P t) (entries ms)
      → All (λ m. m.1 ≡ true → P m.0) (inspect y_point c ms).0
  unfolding inspect
  inspect-marks P c [] h k = tt
  inspect-marks P c ((t, flag) ∷ ms) h k = elim (Bool-cases (dominates (at t) c)) [
    | inl e ↦ rw (equal_or_dominates (at t) c, e) h
    | inr e ↦
        rw (equal_or_dominates (at t) c, e)
          (
            elim (Bool-cases (dominates c (at t))) [
              | inl d ↦ rw d (λ _. k.0 (d, e))
              | inr d ↦ rw d h.0
            ],
            inspect-marks P c ms h.1 k.1,
          )
  ]

  -- A marked entry is strictly dominated by another entry or by an accepted candidate.
  abbrev pub Justified : List (Tagged Sol) → Tagged Sol → Type 0
  Justified known t = Any (λ b. Strict (at b) (at t)) known

  abbrev pub AllJustified : List (Tagged Sol) → List (Marked Sol) → Type 0
  AllJustified known ms = All (λ m. m.1 ≡ true → Justified known m.0) ms

  justified_more :
      (known extra : List (Tagged Sol)) (ms : List (Marked Sol))
      → AllJustified known ms
      → AllJustified (known ++ extra) ms
  justified_more known extra ms h =
      All-mono (λ m. m.1 ≡ true → Justified known m.0)
        (λ m. m.1 ≡ true → Justified (known ++ extra) m.0) ms
        (λ m f e. Any-append_left _ known extra (f e)) h

  -- A point that strictly dominates an entry may be replaced by one that dominates it.
  Justified-by :
      (known : List (Tagged Sol)) (c : YPoint) (es : List (Tagged Sol))
      → Any (λ b. dominates (at b) c ≡ true) known
      → All (λ t. Strict c (at t) → Justified known t) es
  Justified-by known c es h =
      All-intro _
        (λ t s.
          Any-mono (λ b. dominates (at b) c ≡ true) (λ b. Strict (at b) (at t)) known
            (λ b d. Strict-trans (at b) c (at t) d s) h)
        es

  abbrev tagged_as : ℕ → Sol → Tagged Sol
  tagged_as thread c = record { sol = c; ts = 0; added_by_thread = thread }

  -- The state of the loop over the candidates, before and after it runs over `cs`.
  pub record Examined (thread : ℕ) (cs : List Sol) (es add : List (Tagged Sol))
      (r : List (Marked Sol) × List (Tagged Sol)) : Type 0 where
    pub same : entries r.0 ≡ es
    pub grows : (t : Tagged Sol) → In t add → In t r.1
    pub justified : AllJustified (es ++ r.1) r.0
    pub covered : (c : Sol) → In c cs → Any (λ b. dominates (at b) (y_point c) ≡ true) (es ++ r.1)

  -- One candidate: the marks stay justified, and the candidate is covered.
  record Inspected (c : YPoint) (ms : List (Marked Sol)) (known : List (Tagged Sol)) : Type 0 where
    marks : AllJustified known (inspect y_point c ms).0
    reach : Any (λ b. dominates (at b) c ≡ true) known

  Inspected-skip :
      (c : YPoint) (ms : List (Marked Sol)) (add : List (Tagged Sol))
      → AllJustified (entries ms ++ add) ms
      → (inspect y_point c ms).1 ≡ true
      → Inspected c ms (entries ms ++ add)
  Inspected-skip c ms add h e =
      let reach = Any-append_left _ (entries ms) add (inspect-skip c ms e) in
      record {
        marks =
            inspect-marks (Justified (entries ms ++ add)) c ms h
              (Justified-by (entries ms ++ add) c (entries ms) reach);
        reach = reach;
      }

  Inspected-new :
      (thread : ℕ) (c : Sol) (ms : List (Marked Sol)) (add : List (Tagged Sol))
      → AllJustified (entries ms ++ add) ms
      → Inspected (y_point c) ms (entries ms ++ (add ++ tagged_as thread c ∷ []))
  Inspected-new thread c ms add h =
      let new = tagged_as thread c ∷ [] in
      let known = entries ms ++ (add ++ new) in
      let reach : Any (λ b. dominates (at b) (y_point c) ≡ true) known =
        Any-append_right _ (entries ms) (add ++ new)
          (Any-append_right _ add new (inl (dominates_refl (y_point c)))) in
      record {
        marks =
            inspect-marks (Justified known) (y_point c) ms
              (subst (λ k. AllJustified k ms) (append_assoc (entries ms) add new)
                (justified_more (entries ms ++ add) new ms h))
              (Justified-by known (y_point c) (entries ms) reach);
        reach = reach;
      }

  -- The loop goes on after one candidate, with the marks `ms'`.
  Examined-step :
      (thread : ℕ) (c : Sol) (cs : List Sol) (es es' add add' : List (Tagged Sol))
      → (r : List (Marked Sol) × List (Tagged Sol)) → es' ≡ es
      → ((t : Tagged Sol) → In t add → In t add')
      → Any (λ b. dominates (at b) (y_point c) ≡ true) (es ++ add')
      → Examined thread cs es' add' r
      → Examined thread (c ∷ cs) es add r
  Examined-step thread c cs es es' add add' r e more reach x =
      let after : Any (λ b. dominates (at b) (y_point c) ≡ true) (es ++ r.1) =
        Any_of_sub _ (es ++ add') (es ++ r.1) (In-append_mono es add' r.1 x.grows) reach in
      record {
        same = x.same ∙ e;
        grows = λ t m. x.grows t (more t m);
        justified = subst (λ k. AllJustified (k ++ r.1) r.0) e x.justified;
        covered = λ d m. elim m [
          | inl q ↦ rw q after
          | inr n ↦
              subst (λ k. Any (λ b. dominates (at b) (y_point d) ≡ true) (k ++ r.1)) e
                (x.covered d n)
        ];
      }

  pub examine-Examined :
      (thread : ℕ) (cs : List Sol) (ms : List (Marked Sol)) (add : List (Tagged Sol))
      → AllJustified (entries ms ++ add) ms
      → Examined thread cs (entries ms) add (examine y_point thread cs ms add)
  unfolding examine
  examine-Examined thread [] ms add h = record {
    same = refl;
    grows = λ t m. m;
    justified = h;
    covered = λ c m. elim m [ ];
  }
  examine-Examined thread (c ∷ cs) ms add h =
      let next = inspect y_point (y_point c) ms in
      let same = inspect-entries (y_point c) ms in
      elim (Bool-cases next.1) [
        | inl e ↦
            let i = Inspected-skip (y_point c) ms add h e in
            rw e (
              Examined-step thread c cs (entries ms) _ add add _ same (λ t m. m) i.reach
                (examine-Examined thread cs next.0 add (rw same i.marks)))
        | inr e ↦
            let i = Inspected-new thread c ms add h in
            let add' = add ++ tagged_as thread c ∷ [] in
            rw e (
              Examined-step thread c cs (entries ms) _ add add' _ same
                (In-append_left add (tagged_as thread c ∷ [])) i.reach
                (examine-Examined thread cs next.0 add' (rw same i.marks)))
      ]
