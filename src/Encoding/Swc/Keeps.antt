-- ===== src/Encoding/Swc/Keeps.antt =====
-- What each incremental call of `SWC` keeps: the rows, and the terms that it was given.
use dmeic.Prelude.{
  some_injective, ℕ, ◌+◌, ◌≤◌, ◌≡◌, refl, sym, subst, ap, Bool, false, ◌||◌, List, [], ◌∷◌, ◌++◌,
  Option, none, some, arith, leb, ltb, Bool-cases, inl, inr, All-append, length,
}
use dmeic.Encoding.Solver.{Lit, Assignment, Sat}
use dmeic.Encoding.Swc.{Term, Swc, int32_max, split, overflows}
use dmeic.Encoding.Swc.Increment.{
  unfit, start_rows, encode_kept, encode_inc, update_rows, grow, update_inc, last_two, last_term,
  join_rows, join_kept, join_at,
}
use dmeic.Encoding.Swc.Counting.{weight, FitIn}
use dmeic.Encoding.Swc.Weights.{weight-append, split-FitIn, split_both}
use dmeic.Encoding.Swc.States.{
  Stands, idle, counting, start_rows-Stands, grow-StandsAt, joined_rows,
}

module _ (sat : Sat) where
  open sat use {Solver, holds}

  pub record IsValid (σ : Assignment) (s : Solver) (w : Swc) (given : List Term) : Type 0 where
    pub stands : Stands sat σ w.has_encoding w.current_pb_rhs w.lit_blocking w.rows w.terms s
    pub whole : weight σ given ≡ weight σ w.terms + weight σ w.unit_terms

module _ (sat : Sat) (σ : Assignment) where
  open sat use {Solver, holds}

  idle_weight :
      (has : Bool) (o : Option ℕ) (b : Option Lit) (rows : List (List Lit)) (terms : List Term)
      → (s : Solver) → has ≡ false
      → Stands sat σ has o b rows terms s
      → weight σ terms ≡ 0
  unfolding weight
  idle_weight has o b rows terms s e (idle s') = refl
  idle_weight has o b rows terms s e (counting rhs b' rows' terms' s' same sizes fit says) = cc

  abbrev After : List Term → Solver × Swc × List Lit → Type 0
  After given p = IsValid sat σ p.0 p.1 given

  encode_kept-IsValid :
      (size rhs : ℕ) (w : Swc) (kept units : List Term) (ls : List Lit) (s : Solver)
      → (given : List Term) (p : Solver × Swc × List Lit) → w.has_encoding ≡ false
      → weight σ given ≡ weight σ w.terms + (weight σ kept + weight σ units)
      → FitIn σ rhs kept
      → Stands sat σ w.has_encoding w.current_pb_rhs w.lit_blocking w.rows w.terms s
      → encode_kept sat size rhs w kept units ls s ≡ some p
      → After given p
  unfolding encode_kept weight start_rows
  encode_kept-IsValid size rhs w [] units ls s given p has e fit st h =
      let st' =
        subst (λ k. Stands sat σ k w.current_pb_rhs w.lit_blocking w.rows w.terms s) has st in
      subst (After given) (some_injective h) (record { stands = st'; whole = omega (arith, e) })
  encode_kept-IsValid size rhs w (t ∷ []) units ls s given p has e fit st h =
      let st' =
        subst (λ k. Stands sat σ k w.current_pb_rhs w.lit_blocking w.rows w.terms s) has st in
      subst (After given) (some_injective h)
        (record { stands = st'; whole = omega (arith, e, weight-append σ units (t ∷ [])) })
  encode_kept-IsValid size rhs w (t ∷ u ∷ ts) units ls s given p has e fit st h =
      elim (Bool-cases (ltb size (length (t ∷ u ∷ ts)))) [
        | inl l ↦ absurd (ground (arith, rw l at h))
        | inr l ↦ subst (After given) (some_injective (rw l at h)) (record {
          stands =
              start_rows-Stands sat σ rhs (record w { capacity = size }) (t ∷ u ∷ ts) units ls s
                fit;
          whole = omega (arith, e, idle_weight _ _ _ _ w.terms s has st);
        })
      ]

  pub encode_inc-IsValid :
      (s : Solver) (w : Swc) (given terms : List Term) (rhs : ℕ) (ls : List Lit) (size : ℕ)
      → (p : Solver × Swc × List Lit) → w.has_encoding ≡ false
      → encode_inc sat s w terms rhs ls size ≡ some p
      → IsValid sat σ s w given
      → After (given ++ terms) p
  unfolding encode_inc
  encode_inc-IsValid s w given terms rhs ls size p has e v =
      let us = split rhs w.unit_terms in
      let ts = split rhs terms in
      elim (Bool-cases (leb int32_max rhs || overflows w.unit_terms)) [
        | inl l ↦ absurd (ground (arith, rw l at e))
        | inr l ↦
            encode_kept-IsValid size rhs w (us.0 ++ ts.0) (us.1 ++ ts.1) ls s (given ++ terms) p has
              (omega
                (arith, v.whole, weight-append σ given terms, split_both σ rhs w.unit_terms terms))
              (All-append (λ t. t.coeff ≤ rhs) us.0 ts.0 (split-FitIn σ rhs w.unit_terms)
                (split-FitIn σ rhs terms))
              v.stands (rw l at e)
      ]

  grow_keeps :
      (rhs : ℕ) (w : Swc) (s : Solver) (o : Option ℕ) (p : Solver × Swc)
      → grow sat rhs w s o ≡ some p
      → (p.1.terms ≡ w.terms) × (p.1.unit_terms ≡ w.unit_terms)
  unfolding grow update_rows
  grow_keeps rhs w s none p e = absurd (ground (arith, e))
  grow_keeps rhs w s (some current) p e = elim (Bool-cases (ltb current rhs)) [
    | inr l ↦ absurd (ground (arith, rw l at e))
    | inl l ↦
        subst (λ q. (q.1.terms ≡ w.terms) × (q.1.unit_terms ≡ w.unit_terms))
          (some_injective (rw l at e)) (refl, refl)
  ]

  pub update_inc-IsValid :
      (s : Solver) (w : Swc) (given : List Term) (rhs : ℕ) (p : Solver × Swc)
      → update_inc sat s w rhs ≡ some p
      → IsValid sat σ s w given
      → IsValid sat σ p.0 p.1 given
  unfolding update_inc
  update_inc-IsValid s w given rhs p e v =
      elim (Bool-cases (leb int32_max rhs || unfit rhs w.terms)) [
        | inl l ↦ absurd (ground (arith, rw l at e))
        | inr l ↦
            let h : grow sat rhs w s w.current_pb_rhs ≡ some p = rw l at e in
            record {
              stands = grow-StandsAt sat σ rhs w s w.current_pb_rhs p v.stands h;
              whole =
                  (let (a, b) = grow_keeps rhs w s w.current_pb_rhs p h in
                    omega (arith, v.whole, ap (weight σ) a, ap (weight σ) b));
            }
      ]

  abbrev AfterJoin : List Term → Solver × Swc → Type 0
  AfterJoin given p = IsValid sat σ p.0 p.1 given

  set_fields :
      (has : Bool) (o o' : Option ℕ) (k k' : Option Lit) (rows : List (List Lit))
      → (terms : List Term) (s : Solver) → o ≡ o'
      → k ≡ k'
      → Stands sat σ has o k rows terms s
      → Stands sat σ has o' k' rows terms s
  set_fields has o o' k k' rows terms s e f st =
      subst (λ x. Stands sat σ has x k' rows terms s) e
        (subst (λ x. Stands sat σ has o x rows terms s) f st)

  join_rows-IsValid :
      (rhs : ℕ) (b : Lit) (w : Swc) (added given : List Term) (s : Solver)
      → (pair : Option (List Lit × List Lit)) (last : Option Term) (p : Solver × Swc)
      → last_two w.rows ≡ pair
      → some rhs ≡ w.current_pb_rhs
      → some b ≡ w.lit_blocking
      → FitIn σ rhs added
      → Stands sat σ w.has_encoding (some rhs) (some b) w.rows w.terms s
      → weight σ given ≡ weight σ w.terms + (weight σ added + weight σ w.unit_terms)
      → join_rows sat rhs b w added pair last s ≡ some p
      → AfterJoin given p
  unfolding join_rows
  join_rows-IsValid rhs b w added given s none last p two er eb fit st e h =
      absurd (ground (arith, h))
  join_rows-IsValid rhs b w added given s (some (prev, row)) none p two er eb fit st e h =
      absurd (ground (arith, h))
  join_rows-IsValid rhs b w added given s (some (prev, row)) (some t) p two er eb fit st e h =
      elim (Bool-cases (unfit rhs (t ∷ added))) [
        | inl l ↦ absurd (ground (arith, rw l at h))
        | inr l ↦
            let st' =
              joined_rows sat σ rhs b w.has_encoding w.rows w.terms added prev row t s two fit st in
            subst (AfterJoin given) (some_injective (rw l at h)) (record {
              stands = set_fields _ _ _ _ _ _ _ _ er eb st';
              whole = omega (arith, e, weight-append σ w.terms added);
            })
      ]

  join_kept-IsValid :
      (rhs : ℕ) (b : Lit) (w : Swc) (kept given : List Term) (s : Solver) (p : Solver × Swc)
      → some rhs ≡ w.current_pb_rhs
      → some b ≡ w.lit_blocking
      → FitIn σ rhs kept
      → Stands sat σ w.has_encoding w.current_pb_rhs w.lit_blocking w.rows w.terms s
      → weight σ given ≡ weight σ w.terms + (weight σ kept + weight σ w.unit_terms)
      → join_kept sat rhs b w kept s ≡ some p
      → AfterJoin given p
  unfolding join_kept weight
  join_kept-IsValid rhs b w [] given s p er eb fit st e h =
      subst (AfterJoin given) (some_injective h) (record { stands = st; whole = omega (arith, e) })
  join_kept-IsValid rhs b w (t ∷ ts) given s p er eb fit st e h =
      elim (Bool-cases (ltb w.capacity (length (w.terms ++ t ∷ ts)))) [
        | inl l ↦ absurd (ground (arith, rw l at h))
        | inr l ↦
            join_rows-IsValid rhs b w (t ∷ ts) given s (last_two w.rows) (last_term w.terms) p refl
              er eb fit (set_fields _ _ _ _ _ _ _ _ (sym er) (sym eb) st) e (rw l at h)
      ]

  pub join_at-IsValid :
      (o : Option ℕ) (k : Option Lit) (w : Swc) (given terms : List Term) (s : Solver)
      → (p : Solver × Swc) → o ≡ w.current_pb_rhs
      → k ≡ w.lit_blocking
      → IsValid sat σ s w given
      → join_at sat o k w terms s ≡ some p
      → AfterJoin (given ++ terms) p
  unfolding join_at
  join_at-IsValid none k w given terms s p er eb v h = absurd (ground (arith, h))
  join_at-IsValid (some rhs) none w given terms s p er eb v h = absurd (ground (arith, h))
  join_at-IsValid (some rhs) (some b) w given terms s p er eb v h =
      let us = split rhs w.unit_terms in
      let ts = split rhs terms in
      elim (Bool-cases (leb int32_max rhs)) [
        | inl l ↦ absurd (ground (arith, rw l at h))
        | inr l ↦
            join_kept-IsValid rhs b (record w { unit_terms = us.1 ++ ts.1 }) (us.0 ++ ts.0)
              (given ++ terms) s p er eb
              (All-append (λ t. t.coeff ≤ rhs) us.0 ts.0 (split-FitIn σ rhs w.unit_terms)
                (split-FitIn σ rhs terms))
              v.stands
              (omega
                (arith, v.whole, weight-append σ given terms, split_both σ rhs w.unit_terms terms))
              (rw l at h)
      ]
