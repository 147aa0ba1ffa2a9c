-- ===== src/Search/Budget.antt =====
-- The calls of the SAT solver with a budget of conflicts: `PBtoCNF::solve` and
-- `toggleConflictBudget` of algorithms/Alg_PBtoCNF.cc, in the build without simplification.
use dmeic.Prelude.{
  ℕ, zero, suc, ◌+◌, ◌≤◌, ◌==◌, ◌≡◌, refl, Bool, true, false, ◌&&◌, List, [], ◌∷◌, arith, length,
  All, if◌then◌else◌, Bool-cases, inl, inr, sym, subst, if_cases,
}
use dmeic.Prelude.Int.{ℤ, pos, negsuc, pos_part, neg_part, ◌+ℤ◌, ◌-ℤ◌, int_laws}

-- `lbool` as an answer of the solver.
pub data Answer : Type 0 where
  sat : Answer
  unsat : Answer
  undef : Answer

-- What `solveLimited` gives, and how many conflicts it meets.
pub record Outcome : Type 0 where
  pub answer : Answer
  pub spent : ℕ

-- `conflicts` is the counter of the solver.
pub record Budget : Type 0 where
  pub conflict_limit : ℤ
  pub old_conflict_limit : ℤ
  pub n_conflicts : ℤ
  pub conflicts : ℕ
  pub nb_sat_calls : ℕ
  pub nb_satisfiable : ℕ

abbrev is_negative : ℤ → Bool
is_negative (pos n) = false
is_negative (negsuc n) = true

-- `==` of two integers
abbrev same : ℤ → ℤ → Bool
same a b = pos_part a == pos_part b && neg_part a == neg_part b

abbrev counted : Answer → ℕ → ℕ
counted sat n = suc n
counted unsat n = n
counted undef n = n

-- `begin_sat_call`
unfoldable pub call : Budget → Outcome → Budget
call b o = record b {
  nb_sat_calls = suc b.nb_sat_calls;
  nb_satisfiable = counted o.answer b.nb_satisfiable;
  conflicts = b.conflicts + o.spent;
}

-- `nConflicts` after a call that leaves `rest` of `old`: at least one less when there is no model,
-- and the whole budget when it ran out.
unfoldable pub settle : Answer → (limit old rest : ℤ) → ℤ
settle sat limit old rest = rest
settle unsat limit old rest = if same old rest then rest -ℤ pos 1 else rest
settle undef limit old rest = limit

unfoldable pub left_over : Budget → Outcome → ℤ
unfolding settle
left_over b o =
    settle o.answer b.conflict_limit b.n_conflicts
      (b.n_conflicts +ℤ pos b.conflicts -ℤ pos (b.conflicts + o.spent))

-- `solve()`, where `o` is what the solver gives if it is called.
unfoldable pub solve : Budget → Outcome → Answer × Budget
unfolding call left_over
solve b o =
    if is_negative b.conflict_limit
    then (o.answer, call b o)
    else if is_negative b.n_conflicts
    then (undef, record b { n_conflicts = b.conflict_limit })
    else (o.answer, record (call b o) { n_conflicts = left_over b o })

-- `toggleConflictBudget(limit)`
unfoldable pub toggle_conflict_budget : Budget → ℤ → Budget
toggle_conflict_budget b (pos zero) = record b {
  conflict_limit = b.old_conflict_limit;
  n_conflicts = b.old_conflict_limit;
}
toggle_conflict_budget b (pos (suc n)) = record b {
  old_conflict_limit = b.conflict_limit;
  conflict_limit = pos (suc n);
  n_conflicts = pos (suc n);
}
toggle_conflict_budget b (negsuc n) = record b {
  old_conflict_limit = b.conflict_limit;
  conflict_limit = negsuc 0;
  n_conflicts = negsuc 0;
}

-- The answers of a sequence of calls.
unfoldable pub answers : Budget → List Outcome → List Answer
unfolding solve
answers b [] = []
answers b (o ∷ os) = let r = solve b o in r.0 ∷ answers r.1 os

-- How many calls in a row may still say that there is no model.
unfoldable pub room : ℤ → ℕ
room (pos n) = suc n
room (negsuc n) = 0

room-le : (n : ℕ) (r : ℤ) → pos_part r + 1 ≤ n + neg_part r → room r ≤ n
unfolding room
room-le n (pos m) h = omega (arith, h)
room-le n (negsuc m) h = omega arith

settle_less :
    (n : ℕ) (limit rest : ℤ)
    → pos_part rest ≤ n + neg_part rest
    → room (settle unsat limit (pos n) rest) ≤ n
unfolding settle
settle_less n limit (pos m) h = elim (Bool-cases (n == m)) [
  | inl e ↦ rw e (room-le n (pos m -ℤ pos 1) (omega (int_laws, h)))
  | inr e ↦ rw e (room-le n (pos m) (ground (arith, e, h)))
]
settle_less n limit (negsuc m) h =
    if_cases (λ r. room r ≤ n) (same (pos n) (negsuc m)) (negsuc m -ℤ pos 1) (negsuc m)
      (λ _. room-le n (negsuc m -ℤ pos 1) (omega int_laws))
      (λ _. room-le n (negsuc m) (omega arith))

-- A call that says there is no model uses up some of the budget.
left_over-less :
    (b : Budget) (o : Outcome) (n : ℕ)
    → o.answer ≡ unsat
    → b.n_conflicts ≡ pos n
    → room (left_over b o) ≤ n
unfolding left_over
left_over-less b o n e f =
    subst (λ x. room (settle o.answer b.conflict_limit x (rest x)) ≤ n) (sym f)
      (subst (λ a. room (settle a b.conflict_limit (pos n) (rest (pos n))) ≤ n) (sym e)
        (settle_less n b.conflict_limit (rest (pos n)) (omega int_laws)))
  where
    rest : ℤ → ℤ
    rest x = x +ℤ pos b.conflicts -ℤ pos (b.conflicts + o.spent)

spent_none : (x : ℤ) → is_negative x ≡ true → room x ≡ 0
unfolding room
spent_none (pos n) h = cc
spent_none (negsuc n) h = refl

some_room : (x : ℤ) → is_negative x ≡ false → (n : ℕ) × (x ≡ pos n) × (room x ≡ suc n)
unfolding room
some_room (pos n) h = (n, refl, refl)
some_room (negsuc n) h = cc

-- With a limit that is not negative, calls in a row that all say that there is no model are at most
-- one more than the budget that is left, and none when that is negative: even when the solver meets
-- no conflict, the budget runs out.
pub answers-unsat :
    (b : Budget) (os : List Outcome)
    → is_negative b.conflict_limit ≡ false
    → All (λ a. a ≡ unsat) (answers b os)
    → length os ≤ room b.n_conflicts
unfolding answers solve call
answers-unsat b [] l h = omega arith
answers-unsat b (o ∷ os) l h = elim (Bool-cases (is_negative b.n_conflicts)) [
  | inl e ↦ let k : undef ≡ unsat = (simp (l, e) at h).0 in absurd (cc k)
  | inr e ↦
      let (n, f, r) = some_room b.n_conflicts e in
      let (a, rest) = simp (l, e) at h in
      let less = left_over-less b o n a f in
      let more = answers-unsat (record (call b o) { n_conflicts = left_over b o }) os l rest in
      omega (arith, r, less, more)
]
