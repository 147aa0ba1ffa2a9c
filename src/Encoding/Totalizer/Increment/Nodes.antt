-- ===== src/Encoding/Totalizer/Increment/Nodes.antt =====
-- What the nodes of an iterative totalizer count, and how `update` raises their bounds.
use dmeic.Prelude.{
  ℕ, ◌+◌, ◌-◌, ◌<◌, ◌≤◌, ◌≡◌, refl, sym, subst, Bool, true, false, List, [], ◌∷◌, Option, none,
  some, leb, if◌then◌else◌, drop, get_or, arith, Bool-cases, inl, inr, leb→le, All, All-append,
}
use dmeic.Encoding.Solver.{Lit, Assignment, Sat, lit_true}
use dmeic.Encoding.Clauses.{blocked_true}
use dmeic.Encoding.Totalizer.{
  undef, Node, Strategy, iterative, State, Config, past, adder_clauses, adder, record_node, plain,
  blocks, weakening,
}
use dmeic.Encoding.Totalizer.Adder.{reach, adder_clauses_sound}
use dmeic.Encoding.Totalizer.Build.{Totalizer}
use dmeic.Encoding.Totalizer.Increment.{settled, incremental, refused, update_by, update}

when_ready :
    {A : Type 0} (has : Bool) (o p : Option A) → has ≡ true → o ≡ p → (if has then o else none) ≡ p
when_ready true o p h e = e
when_ready false o p h e = absurd (ground (arith, h))

module _ (sat : Sat) (σ : Assignment) where
  open sat use {Solver, holds}

  -- The output of a node counts the literals on both sides, for sums up to its bound.
  abbrev pub IsCounting : Node sat → Type 0
  IsCounting n =
      (i j : ℕ)
      → reach σ n.left i ≡ true
      → reach σ n.right j ≡ true
      → i + j ≤ n.bound + 1
      → 0 < i + j
      → lit_true σ (get_or n.output (i + j - 1) undef) ≡ true

  record_node-IsCounting :
      (k : Strategy sat) (n : Node sat) (ns : List (Node sat))
      → IsCounting n
      → All IsCounting ns
      → All IsCounting (record_node sat k n ns)
  record_node-IsCounting iterative n ns h all = All-append IsCounting ns (n ∷ []) all (h, tt)
  record_node-IsCounting plain n ns h all = all
  record_node-IsCounting blocks n ns h all = all
  record_node-IsCounting weakening n ns h all = all

  -- A node that `adder` records counts.
  pub adder-IsCounting :
      (c : Config sat) (st : State sat) (left right out : List Lit)
      → blocked_true σ c.blocking ≡ false
      → holds (adder sat c st left right out).solver σ ≡ true
      → All IsCounting st.nodes
      → (holds st.solver σ ≡ true) × All IsCounting (adder sat c st left right out).nodes
  unfolding adder
  adder-IsCounting c st left right out free h all =
      let (h0, counts) =
        adder_clauses_sound sat (past c.rhs) out c.blocking σ free st.solver left right h in
      let new : Node sat = record { left = left; right = right; output = out; bound = c.rhs } in
      let here : IsCounting new = λ i j p q u v. counts i j p q (ground arith) v in
      (h0, record_node-IsCounting c.incremental new st.nodes here all)

  incremental-IsCounting :
      (rhs : ℕ) (blocking : Option Lit) (s : Solver) (ns : List (Node sat))
      → blocked_true σ blocking ≡ false
      → holds (incremental sat rhs blocking s ns).0 σ ≡ true
      → All IsCounting ns
      → (holds s σ ≡ true) × All IsCounting (incremental sat rhs blocking s ns).1
  unfolding incremental
  incremental-IsCounting rhs blocking s [] free h all = (h, tt)
  incremental-IsCounting rhs blocking s (n ∷ ns) free h all =
      let (h1, later) =
        incremental-IsCounting rhs blocking
          (adder_clauses sat (settled rhs n.bound) n.output blocking s n.left n.right) ns free h
          all.1 in
      let (h0, counts) =
        adder_clauses_sound sat (settled rhs n.bound) n.output blocking σ free s n.left n.right
          h1 in
      (
        h0,
        (
          (λ i j p q u v. elim (Bool-cases (leb (i + j) (n.bound + 1))) [
            | inl old ↦ all.0 i j p q (leb→le _ _ old) v
            | inr new ↦ counts i j p q (ground (arith, u, new)) v
          ]),
          later,
        ),
      )

  bounds-incremental :
      (rhs : ℕ) (blocking : Option Lit) (s : Solver) (ns : List (Node sat))
      → All (λ n. n.bound ≡ rhs) (incremental sat rhs blocking s ns).1
  unfolding incremental
  bounds-incremental rhs blocking s [] = tt
  bounds-incremental rhs blocking s (n ∷ ns) = (
    refl,
    bounds-incremental rhs blocking
        (adder_clauses sat (settled rhs n.bound) n.output blocking s n.left n.right) ns,
  )

  refused-false :
      (ls : List Lit)
      → All (λ l. lit_true σ l ≡ true) (refused sat ls)
      → All (λ l. lit_true σ l ≡ false) ls
  refused-false [] h = tt
  refused-false (l ∷ ls) h = (ground (arith, h.0), refused-false ls h.1)

  -- On an iterative totalizer that has an encoding and whose nodes count, `update` succeeds and gives
  -- each node the right-hand side as its bound. Under an assignment that satisfies the clauses and
  -- does not make `blocking` true, all nodes count up to that bound; and the assumptions make the
  -- outputs from the right-hand side on false.
  pub update-IsCounting :
      (t : Totalizer sat) (rhs : ℕ) (lits assumptions : List Lit)
      → t.has_encoding ≡ true
      → t.incremental ≡ iterative
      → blocked_true σ t.blocking ≡ false
      → All IsCounting t.nodes
      → (t' : Totalizer sat) × (ls : List Lit) × (update sat t rhs lits assumptions ≡ some (t', ls))
        × All (λ n. n.bound ≡ rhs) t'.nodes
        × (holds t'.solver σ ≡ true → (holds t.solver σ ≡ true) × All IsCounting t'.nodes)
        × (All (λ l. lit_true σ l ≡ true) ls → All (λ l. lit_true σ l ≡ false) (drop rhs t.outlits))
  unfolding update update_by
  update-IsCounting t rhs lits assumptions ready strategy free all =
      let r = incremental sat rhs t.blocking t.solver t.nodes in
      (
        record t { solver = r.0; nodes = r.1 },
        refused sat (drop rhs t.outlits),
        when_ready t.has_encoding _ _ ready (
            subst
              (λ k.
                update_by sat k t rhs lits assumptions
                ≡ some (record t { solver = r.0; nodes = r.1 }, refused sat (drop rhs t.outlits)))
              (sym strategy) iterated),
        bounds-incremental rhs t.blocking t.solver t.nodes,
        (λ h. incremental-IsCounting rhs t.blocking t.solver t.nodes free h all),
        refused-false (drop rhs t.outlits),
      )
    where
      iterated :
          update_by sat iterative t rhs lits assumptions
          ≡ some (
            record t {
              solver = (incremental sat rhs t.blocking t.solver t.nodes).0;
              nodes = (incremental sat rhs t.blocking t.solver t.nodes).1;
            },
            refused sat (drop rhs t.outlits),
          )
      iterated = refl
