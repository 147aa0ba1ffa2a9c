-- ===== src/Encoding/Ladder/Correct.antt =====
-- The clauses of `Ladder::encode` under an assignment.
use dmeic.Encoding.Variables.{AreBelow}
use dmeic.Prelude.{
  ℕ, zero, suc, ◌+◌, ◌-◌, ◌<◌, ◌≤◌, ◌≡◌, refl, subst, Bool, true, false, not, ◌&&◌, ◌||◌, List, [],
  ◌∷◌, arith, ltb, if◌then◌else◌, length, take, lt→ltb, any_of, Bool-cases, inl, inr,
}
use dmeic.Encoding.Solver.{count_true, Lit, Assignment, Sat, lit_true}
use dmeic.Encoding.Clauses.{new_vars, binary-holds, ternary-holds, holds-new_vars}
use dmeic.Encoding.Ladder.{is_last, ladder_step, ladder_loop, encode}

-- What the clauses of one round say of the literal and of the two auxiliary variables.
step_ok : Assignment → ℕ → ℕ → Bool → Bool → Bool
step_ok σ base zero v last = not v || σ base
step_ok σ base (suc i) v last =
    let aux = σ (base + suc i) in
    let prev = σ (base + i) in
    if last
    then (not v || not prev) && (v || prev)
    else (not v || not prev) && (not v || aux) && (v || not aux || prev) && (not prev || aux)

loop_ok : Assignment → ℕ → ℕ → List Lit → Bool
unfolding step_ok
loop_ok σ base i [] = true
loop_ok σ base i (l ∷ ls) =
    step_ok σ base i (lit_true σ l) (is_last ls) && loop_ok σ base (suc i) ls

module _ (sat : Sat) where
  open sat use {Solver, n_vars, holds}

  step-holds :
      (σ : Assignment) (base : ℕ) (s : Solver) (i : ℕ) (l : Lit) (last : Bool)
      → holds (ladder_step sat base s i l last) σ
        ≡ step_ok σ base i (lit_true σ l) last && holds s σ
  unfolding ladder_step step_ok
  step-holds σ base s zero l last = rw (binary-holds sat) (ground arith)
  step-holds σ base s (suc i) l true = simp (binary-holds sat) (ground arith)
  step-holds σ base s (suc i) l false = simp (binary-holds sat, ternary-holds sat) (ground arith)

  loop-holds :
      (σ : Assignment) (base : ℕ) (s : Solver) (i : ℕ) (ls : List Lit)
      → holds (ladder_loop sat base s i ls) σ ≡ loop_ok σ base i ls && holds s σ
  unfolding ladder_loop loop_ok
  loop-holds σ base s i [] = refl
  loop-holds σ base s i (l ∷ ls) =
      let step = ladder_step sat base s i l (is_last ls) in
      rw (loop-holds σ base step (suc i) ls, step-holds σ base s i l (is_last ls)) (ground arith)

-- Past the first literal: at most one is true, and none when the variable before says that one
-- was.
loop_ok_sound :
    (σ : Assignment) (base i : ℕ) (l : Lit) (ls : List Lit)
    → loop_ok σ base (suc i) (l ∷ ls) ≡ true
    → (count_true σ (l ∷ ls) ≤ 1) × (σ (base + i) ≡ true → count_true σ (l ∷ ls) ≡ 0)
unfolding loop_ok count_true
loop_ok_sound σ base i l [] h = ground arith
loop_ok_sound σ base i l (k ∷ ls) h = ground (arith, loop_ok_sound σ base (suc i) k ls)

loop_ok-first :
    (σ : Assignment) (base : ℕ) (l k : Lit) (ls : List Lit)
    → loop_ok σ base 0 (l ∷ k ∷ ls) ≡ true
    → count_true σ (l ∷ k ∷ ls) ≤ 1
unfolding loop_ok count_true
loop_ok-first σ base l k ls h =
    let h' : loop_ok σ base 1 (k ∷ ls) ≡ true = ground arith in
    let c = count_true σ (k ∷ ls) in
    let (few, none_left) = loop_ok_sound σ base 0 k ls h' in
    let e : base + 0 ≡ base = omega arith in
    let none_left' : σ base ≡ true → c ≡ 0 = rw e at none_left in
    elim (Bool-cases (lit_true σ l)) [
      | inl t ↦ rw t (omega (arith, none_left' (ground arith)))
      | inr f ↦ rw f few
    ]

-- Whether one of the first `n` literals is true.
abbrev some_of : Assignment → ℕ → List Lit → Bool
some_of τ n ls = any_of (lit_true τ) (take n ls)

loop_ok_complete :
    (τ : Assignment) (base i : ℕ) (l : Lit) (ls : List Lit)
    → ((j : ℕ) → τ (base + (suc i + j)) ≡ (τ (base + i) || some_of τ (suc j) (l ∷ ls)))
    → count_true τ (l ∷ ls) ≡ (if τ (base + i) then 0 else 1)
    → loop_ok τ base (suc i) (l ∷ ls) ≡ true
unfolding loop_ok count_true
loop_ok_complete τ base i l [] h c = ground arith
loop_ok_complete τ base i l (k ∷ ls) h c =
    let e : base + (suc i + 0) ≡ base + suc i = omega arith in
    let aux : τ (base + suc i) ≡ (τ (base + i) || (lit_true τ l || false)) =
      subst (λ n. τ n ≡ (τ (base + i) || (lit_true τ l || false))) e (h 0) in
    ground (
      arith,
      aux,
      loop_ok_complete τ base (suc i) k ls (λ j.
          let f : base + (suc i + suc j) ≡ base + (suc (suc i) + j) = omega arith in
          let next =
            subst (λ n. τ n ≡ (τ (base + i) || some_of τ (suc (suc j)) (l ∷ k ∷ ls))) f
              (h (suc j)) in
          ground (arith, next, aux)),
    )

-- The auxiliary variables past `base` say that one of the literals so far is true, or that none is.
extend : Assignment → ℕ → List Lit → Assignment
extend σ base ls v =
    if ltb v base
    then σ v
    else if any_of (lit_true σ) ls
    then some_of σ (suc (v - base)) ls
    else true

extend-var :
    (σ : Assignment) (base : ℕ) (ls : List Lit) (v : ℕ) → v < base → extend σ base ls v ≡ σ v
unfolding extend
extend-var σ base ls v h = rw (lt→ltb v base h)

module _ (σ : Assignment) (base : ℕ) (all : List Lit) where
  abbrev τ : Assignment
  τ = extend σ base all

  lit-extend : (l : Lit) → l.var < base → lit_true τ l ≡ lit_true σ l
  lit-extend l h = rw (extend-var σ base all l.var h)

  count-extend : (ls : List Lit) → AreBelow base ls → count_true τ ls ≡ count_true σ ls
  unfolding count_true
  count-extend [] h = refl
  count-extend (l ∷ ls) h = rw (lit-extend l h.0, count-extend ls h.1)

  some_of-extend : (n : ℕ) (ls : List Lit) → AreBelow base ls → some_of τ n ls ≡ some_of σ n ls
  some_of-extend zero ls h = refl
  some_of-extend (suc n) [] h = refl
  some_of-extend (suc n) (l ∷ ls) h = rw (lit-extend l h.0, some_of-extend n ls h.1)

  extend-aux :
      (j : ℕ) → τ (base + j) ≡ (if any_of (lit_true σ) all then some_of σ (suc j) all else true)
  unfolding extend
  extend-aux j =
      let e : base + j - base ≡ j = omega arith in
      let f : ltb (base + j) base ≡ false = ground arith in rw (f, e)

-- Counting and searching agree.
any_of-count :
    (σ : Assignment) (ls : List Lit)
    → (any_of (lit_true σ) ls ≡ false → count_true σ ls ≡ 0)
      × (any_of (lit_true σ) ls ≡ true → 0 < count_true σ ls)
unfolding count_true
any_of-count σ [] = ground arith
any_of-count σ (l ∷ ls) = ground (arith, any_of-count σ ls)

-- The first auxiliary variable, and the others, as `loop_ok_complete` wants them.
extend_rest :
    (σ : Assignment) (base : ℕ) (l k : Lit) (ls : List Lit)
    → AreBelow base (l ∷ k ∷ ls)
    → let t = extend σ base (l ∷ k ∷ ls) in
      (j : ℕ) → t (base + (1 + j)) ≡ (t (base + 0) || some_of t (suc j) (k ∷ ls))
extend_rest σ base l k ls below j =
    let all = l ∷ k ∷ ls in
    let e : base + suc j ≡ base + (1 + j) = omega arith in
    rw
      (
        ← e,
        extend-aux σ base all (suc j),
        extend-aux σ base all 0,
        some_of-extend σ base all (suc j) (k ∷ ls) below.1,
      )
      (ground arith)

first_or_rest :
    (σ : Assignment) (l : Lit) (ls : List Lit)
    → count_true σ (l ∷ ls) ≤ 1
    → count_true σ ls ≡ (
        if (if lit_true σ l || any_of (lit_true σ) ls then (lit_true σ l || false) else true)
        then 0
        else 1)
unfolding count_true
first_or_rest σ l ls h = ground (arith, any_of-count σ ls)

extend_count :
    (σ : Assignment) (base : ℕ) (l k : Lit) (ls : List Lit)
    → AreBelow base (l ∷ k ∷ ls)
    → count_true σ (l ∷ k ∷ ls) ≤ 1
    → let t = extend σ base (l ∷ k ∷ ls) in count_true t (k ∷ ls) ≡ (if t (base + 0) then 0 else 1)
extend_count σ base l k ls below few =
    rw (count-extend σ base (l ∷ k ∷ ls) (k ∷ ls) below.1, extend-aux σ base (l ∷ k ∷ ls) 0)
      (first_or_rest σ l (k ∷ ls) few)

extend-loop_ok :
    (σ : Assignment) (base : ℕ) (l k : Lit) (ls : List Lit)
    → AreBelow base (l ∷ k ∷ ls)
    → count_true σ (l ∷ k ∷ ls) ≤ 1
    → loop_ok (extend σ base (l ∷ k ∷ ls)) base 0 (l ∷ k ∷ ls) ≡ true
unfolding loop_ok
extend-loop_ok σ base l k ls below few =
    let all = l ∷ k ∷ ls in
    let t = extend σ base all in
    let v : lit_true t l ≡ lit_true σ l = lit-extend σ base all l below.0 in
    let e : base + 0 ≡ base = omega arith in
    let a0 : t base ≡ (if any_of (lit_true σ) all then (lit_true σ l || false) else true) =
      subst (λ n. t n ≡ (if any_of (lit_true σ) all then (lit_true σ l || false) else true)) e
        (extend-aux σ base all 0) in
    let rest =
      loop_ok_complete t base 0 k ls (extend_rest σ base l k ls below)
        (extend_count σ base l k ls below few) in
    ground (arith, v, a0, rest)

-- What `Ladder::encode` adds to a solver whose clauses speak of its own variables only.
module _ (sat : Sat) (s : sat.Solver) (l k : Lit) (ls : List Lit)
    (closed : (σ τ : Assignment)
      → ((v : ℕ) → v < sat.n_vars s → σ v ≡ τ v)
      → sat.holds s σ ≡ sat.holds s τ)
    (below : AreBelow (sat.n_vars s) (l ∷ k ∷ ls)) where
  abbrev pub encoded : sat.Solver
  encoded = encode sat s (l ∷ k ∷ ls)

  encode-holds :
      (σ : Assignment)
      → sat.holds encoded σ ≡ loop_ok σ (sat.n_vars s) 0 (l ∷ k ∷ ls) && sat.holds s σ
  unfolding encode
  encode-holds σ =
      rw (loop-holds sat σ (sat.n_vars s) (new_vars sat (suc (length ls)) s) 0 (l ∷ k ∷ ls))
        (rw (holds-new_vars sat (suc (length ls)) s σ))

  -- For two literals or more, over variables the solver has, and a solver whose clauses depend on
  -- its own variables only: what satisfies the solver after `encode` satisfied it before and makes at
  -- most one literal true; and an assignment that does both satisfies it after a change to the new
  -- variables only.
  pub encode-at_most_one :
      ((σ : Assignment)
        → sat.holds encoded σ ≡ true
        → (sat.holds s σ ≡ true) × (count_true σ (l ∷ k ∷ ls) ≤ 1))
      × ((σ : Assignment)
          → sat.holds s σ ≡ true
          → count_true σ (l ∷ k ∷ ls) ≤ 1
          → (τ : Assignment) × ((v : ℕ) → v < sat.n_vars s → τ v ≡ σ v)
            × (sat.holds encoded τ ≡ true))
  encode-at_most_one = (
    λ σ h.
        let ok = encode-holds σ in
        (ground arith, loop_ok-first σ (sat.n_vars s) l k ls (ground arith)),
    λ σ h few.
        let t = extend σ (sat.n_vars s) (l ∷ k ∷ ls) in
        let ok = extend-loop_ok σ (sat.n_vars s) l k ls below few in
        (
          t,
          extend-var σ (sat.n_vars s) (l ∷ k ∷ ls),
          rw (encode-holds t, ok, closed t σ (extend-var σ (sat.n_vars s) (l ∷ k ∷ ls))) h,
        ),
  )
