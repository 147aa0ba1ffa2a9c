-- ===== src/Encoding/Totalizer/Build/AtMost.antt =====
-- The clauses of `Totalizer::build` and `update` under an assignment.
use dmeic.Prelude.{
  ℕ, zero, suc, ◌+◌, ◌<◌, ◌≤◌, ◌≡◌, refl, sym, ap, ◌∙◌, subst, inl, inr, true, false, not, List, [],
  ◌∷◌, ◌++◌, Option, none, some, ◌==◌, ltb, length, drop, arith, Bool-cases, ltb→lt, lt→ltb, ==_iff,
  All, append-nil,
}
use dmeic.Encoding.Solver.{Lit, Assignment, Sat, lit_true, neg, count_true}
use dmeic.Encoding.Clauses.{add_unit, unit-holds, blocked_true}
use dmeic.Encoding.Totalizer.{State, Config, plain, to_cnf, fresh}
use dmeic.Encoding.Totalizer.Adder.{bit, CountsTo}
use dmeic.Encoding.Totalizer.Inputs.{fresh-Picked}
use dmeic.Encoding.Totalizer.Tree.{to_cnf-Sound}
use dmeic.Encoding.Totalizer.Total.{to_cnf_total}
use dmeic.Encoding.Totalizer.Build.{
  from_last, forbid, Totalizer, encode_outputs, prepare, build, update_plain,
}

count_true-from_last :
    (σ : Assignment) (ls acc : List Lit)
    → count_true σ (from_last ls acc) ≡ count_true σ ls + count_true σ acc
unfolding from_last count_true
count_true-from_last σ [] acc = omega arith
count_true-from_last σ (l ∷ ls) acc = ground (arith, count_true-from_last σ ls (l ∷ acc))

length-from_last : (ls acc : List Lit) → length (from_last ls acc) ≡ length ls + length acc
unfolding from_last
length-from_last [] acc = omega arith
length-from_last (l ∷ ls) acc = omega (arith, length-from_last ls (l ∷ acc))

length-nil : (ls : List Lit) → length ls ≡ 0 → ls ≡ []
length-nil [] h = refl
length-nil (l ∷ ls) h = absurd (omega arith)

bit-drop :
    (σ : Assignment) (ls : List Lit) (k : ℕ)
    → bit σ ls k ≡ true
    → ¬ All (λ l. lit_true σ l ≡ false) (drop k ls)
unfolding bit
bit-drop σ [] k h all = cc
bit-drop σ (l ∷ ls) zero h all = ground (arith, all.0)
bit-drop σ (l ∷ ls) (suc k) h all = bit-drop σ ls k h all

module _ (sat : Sat) where
  open sat use {Solver, holds}

  forbid-holds :
      (σ : Assignment) (s : Solver) (ls : List Lit)
      → holds (forbid sat s ls) σ ≡ true
      → (holds s σ ≡ true) × All (λ l. lit_true σ l ≡ false) ls
  unfolding forbid
  forbid-holds σ s [] h = (h, tt)
  forbid-holds σ s (l ∷ ls) h =
      let (now, rest) = forbid-holds σ (add_unit sat s (neg l) none) ls h in
      let unit = unit-holds sat s (neg l) none σ in
      let flip : lit_true σ (neg l) ≡ not (lit_true σ l) = ground arith in
      (ground (arith, unit, now), (ground (arith, unit, now, flip), rest))

  -- What `encode_outputs` returns.
  record Outputs (p t : Totalizer sat) : Type 0 where
    ready : t.has_encoding ≡ true
    same : t.outlits ≡ p.outlits
    counts :
        (σ : Assignment)
        → blocked_true σ p.blocking ≡ false
        → holds t.solver σ ≡ true
        → (holds p.solver σ ≡ true) × CountsTo p.current_rhs σ p.outlits (count_true σ p.inlits)

  abbrev settings : Totalizer sat → Config sat
  settings p = record { rhs = p.current_rhs; blocking = p.blocking; incremental = p.incremental }

  abbrev start : Totalizer sat → State sat
  start p = record { solver = p.solver; inlits = p.inlits; nodes = p.nodes }

  abbrev done : Totalizer sat → List Lit → State sat → Totalizer sat
  done p lits st = record p {
    solver = st.solver;
    nodes = st.nodes;
    inlits = [];
    join_mode = true;
    has_encoding = true;
    ilits = lits;
  }

  encode_outputs_returns :
      (p : Totalizer sat) (lits : List Lit) (st : State sat)
      → to_cnf sat (length p.outlits) (settings p) (start p) p.outlits ≡ some st
      → st.inlits ≡ []
      → encode_outputs sat p lits ≡ some (done p lits st)
  unfolding encode_outputs
  encode_outputs_returns p lits st e empty = rw e (finish st.inlits empty)
    where
      finish :
          (ls : List Lit)
          → ls ≡ []
          → (elim ls as (λ x. Option (Totalizer sat)) [
            | [] ↦ some (done p lits st)
            | l ∷ rest ↦ none
          ])
            ≡ some (done p lits st)
      finish [] h = refl
      finish (l ∷ rest) h = absurd (ground arith)

  encode_outputs-Outputs :
      (p : Totalizer sat) (lits : List Lit)
      → 1 < length p.outlits
      → length p.inlits ≡ length p.outlits
      → (t : Totalizer sat) × (encode_outputs sat p lits ≡ some t) × Outputs p t
  unfolding encode_outputs
  encode_outputs-Outputs p lits two size =
      let (st, e, left) =
        to_cnf_total sat (settings p) (length p.outlits) (start p) p.outlits two (omega arith)
          (omega arith) in
      let empty = length-nil st.inlits (omega arith) in
      (
        done p lits st,
        encode_outputs_returns p lits st e empty,
        record {
          ready = refl;
          same = refl;
          counts = λ σ free ok.
              let (used, s) =
                to_cnf-Sound sat σ (settings p) free (length p.outlits) (start p) p.outlits st e
                  ok in
              let all : p.inlits ≡ used =
                s.inputs ∙ (ap (λ r. used ++ r) empty ∙ append-nil used) in
              (s.before, rw all s.counts);
        },
      )

  -- What `build` hands to `toCNF`.
  record Prepared (t p : Totalizer sat) (lits : List Lit) (rhs : ℕ) : Type 0 where
    outputs : length p.outlits ≡ length lits
    inputs : p.inlits ≡ from_last lits []
    blocker : p.blocking ≡ t.blocking
    limit : p.current_rhs ≡ rhs
    solver : (σ : Assignment) → holds p.solver σ ≡ holds t.solver σ

  prepare-Prepared :
      (t : Totalizer sat) (lits : List Lit) (rhs : ℕ)
      → t.incremental ≡ plain
      → Prepared t (prepare sat t lits rhs) lits rhs
  unfolding prepare
  prepare-Prepared t lits rhs plain_t =
      let begin : State sat = record { solver = t.solver; inlits = t.inlits; nodes = t.nodes } in
      let made : (σ : Assignment)
          → holds (fresh sat (length lits) begin).1.solver σ ≡ holds t.solver σ =
        λ σ. (fresh-Picked sat σ (length lits) begin).2 in
      rw plain_t (record {
        outputs = (fresh-Picked sat (λ v. true) (length lits) begin).0;
        inputs = refl;
        blocker = refl;
        limit = refl;
        solver = made;
      })

  build_prepared :
      (t : Totalizer sat) (lits : List Lit) (rhs : ℕ)
      → 0 < rhs
      → rhs < length lits
      → build sat t lits rhs ≡ encode_outputs sat (prepare sat t lits rhs) lits
  unfolding build
  build_prepared t lits rhs pos small =
      let b1 : (rhs == 0) ≡ false = ground (arith, ==_iff rhs 0) in
      let b2 : ltb (length lits) rhs ≡ false = ground (arith, ltb→lt (length lits) rhs) in
      let b3 : (rhs == length lits) ≡ false = ground (arith, ==_iff rhs (length lits)) in
      rw (b1, b2, b3) refl

  update_plain_ready :
      (t : Totalizer sat) (rhs : ℕ)
      → t.has_encoding ≡ true
      → update_plain sat t rhs
        ≡ some (record t { solver = forbid sat t.solver (drop rhs t.outlits) })
  unfolding update_plain
  update_plain_ready t rhs h = rw h refl

  counted :
      (t p t1 : Totalizer sat) (lits : List Lit) (rhs : ℕ) (σ : Assignment)
      → Prepared t p lits rhs
      → Outputs p t1
      → blocked_true σ t.blocking ≡ false
      → holds (forbid sat t1.solver (drop rhs t1.outlits)) σ ≡ true
      → (holds t.solver σ ≡ true) × (count_true σ lits ≤ rhs)
  unfolding count_true
  counted t p t1 lits rhs σ made o free ok =
      let (ok1, out) = forbid-holds σ t1.solver (drop rhs t1.outlits) ok in
      let free' = subst (λ b. blocked_true σ b ≡ false) (sym made.blocker) free in
      let (before, counts) = o.counts σ free' ok1 in
      let total = ap (count_true σ) made.inputs ∙ count_true-from_last σ lits [] in
      (
        sym (made.solver σ) ∙ before,
        elim (Bool-cases (ltb rhs (count_true σ lits))) [
          | inr e ↦ ground (arith, lt→ltb rhs (count_true σ lits))
          | inl e ↦
              let over = ltb→lt _ _ e in
              let set = counts rhs (omega arith) (omega (arith, made.limit)) in
              absurd (bit-drop σ p.outlits rhs set (rw o.same at out))
        ],
      )

  -- Without incremental strategies, `build` and then `update` with the same right-hand side return,
  -- for a right-hand side from 1 to below the number of literals. What satisfies the clauses after
  -- them, and does not make the blocking literal true, satisfied the clauses before and makes at most
  -- `rhs` of the literals true.
  pub build-at_most :
      (t : Totalizer sat) (lits : List Lit) (rhs : ℕ)
      → t.incremental ≡ plain
      → 0 < rhs
      → rhs < length lits
      → (t1 t2 : Totalizer sat) × (build sat t lits rhs ≡ some t1)
        × (update_plain sat t1 rhs ≡ some t2)
        × ((σ : Assignment)
            → blocked_true σ t.blocking ≡ false
            → holds t2.solver σ ≡ true
            → (holds t.solver σ ≡ true) × (count_true σ lits ≤ rhs))
  build-at_most t lits rhs plain_t pos small =
      let p = prepare sat t lits rhs in
      let made = prepare-Prepared t lits rhs plain_t in
      let (t1, e, o) =
        encode_outputs-Outputs p lits (omega (arith, made.outputs))
          (omega (arith, made.outputs, ap length made.inputs, length-from_last lits [])) in
      (
        t1,
        record t1 { solver = forbid sat t1.solver (drop rhs t1.outlits) },
        build_prepared t lits rhs pos small ∙ e,
        update_plain_ready t1 rhs o.ready,
        λ σ free ok. counted t p t1 lits rhs σ made o free ok,
      )
