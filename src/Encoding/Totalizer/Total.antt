-- ===== src/Encoding/Totalizer/Total.antt =====
-- The results of `Totalizer::toCNF`, and its fuel.
use dmeic.Prelude.{
  ℕ, zero, suc, ◌+◌, ◌-◌, ◌/◌, ◌<◌, ◌≤◌, ◌≡◌, refl, sym, ap, inl, inr, true, false, List, [], ◌∷◌,
  Option, some, ◌==◌, ltb, if◌then◌else◌, length, arith, Bool-cases, ltb→lt, lt→ltb, ==_iff,
}
use dmeic.Encoding.Solver.{Lit, Sat}
use dmeic.Encoding.Totalizer.{State, Config, adder, fresh, pick, to_cnf}

-- The inputs that a branch of `n` literals takes in the loop, and in the recursive call.
now : ℕ → ℕ
now n = if n == 1 then 1 else 0

later : ℕ → ℕ
later n = if ltb 1 n then n else 0

now-later : (n : ℕ) → now n + later n ≡ n
unfolding now later
now-later n = ground (arith, ==_iff n 1, ltb→lt 1 n, lt→ltb 1 n)

module _ (sat : Sat) where
  open sat use {new_var}

  fresh_total :
      (n : ℕ) (st : State sat)
      → (length (fresh sat n st).0 ≡ n) × ((fresh sat n st).1.inlits ≡ st.inlits)
  unfolding fresh
  fresh_total zero st = (refl, refl)
  fresh_total (suc n) st =
      let (a, b) = fresh_total n (record st { solver = new_var st.solver }) in (ap suc a, b)

  pick_total :
      (n : ℕ) (st : State sat)
      → now n ≤ length st.inlits
      → (ls : List Lit) × (st' : State sat) × (pick sat n st ≡ some (ls, st'))
        × (length ls ≡ n)
        × (length st'.inlits + now n ≡ length st.inlits)
  unfolding pick now
  pick_total n st h = elim (Bool-cases (n == 1)) [
    | inl e ↦ taken e st.inlits refl
    | inr e ↦
        let (a, b) = fresh_total n st in
        ((fresh sat n st).0, (fresh sat n st).1, rw e refl, a, rw e (omega (arith, ap length b)))
  ]
    where
      taken :
          (n == 1) ≡ true
          → (ins : List Lit) → st.inlits ≡ ins
          → (ls : List Lit) × (st' : State sat) × (pick sat n st ≡ some (ls, st'))
            × (length ls ≡ n)
            × (length st'.inlits + now n ≡ length st.inlits)
      taken e [] q = absurd (omega (arith, rw e at h, ap length q))
      taken e (l ∷ rest) q =
          let one = (==_iff n 1).0 e in
          (
            l ∷ [],
            record st { inlits = rest },
            rw (e, q) refl,
            sym one,
            rw e (omega (arith, ap length q)),
          )

  abbrev descend : ℕ → Config sat → State sat → List Lit → Option (State sat)
  descend fuel c st ls = elim (ltb 1 (length ls)) [
    | true ↦ to_cnf sat fuel c st ls
    | false ↦ some st
  ]

  abbrev ReturnsAt : Config sat → ℕ → Type 0
  ReturnsAt c fuel =
      (st : State sat) (lits : List Lit)
      → 1 < length lits
      → length lits ≤ fuel
      → length lits ≤ length st.inlits
      → (st' : State sat) × (to_cnf sat fuel c st lits ≡ some st')
        × (length st'.inlits + length lits ≡ length st.inlits)

  descend_total :
      (c : Config sat) (fuel : ℕ) (st : State sat) (ls : List Lit)
      → ReturnsAt c fuel
      → length ls ≤ fuel
      → later (length ls) ≤ length st.inlits
      → (st' : State sat) × (descend fuel c st ls ≡ some st')
        × (length st'.inlits + later (length ls) ≡ length st.inlits)
  unfolding later
  descend_total c fuel st ls ih short h = elim (Bool-cases (ltb 1 (length ls))) [
    | inl e ↦
        let (st', r, n) = ih st ls (ltb→lt _ _ e) short (rw e at h) in
        (st', rw (descend, e) r, rw e n)
    | inr e ↦ (st, rw (descend, e) refl, rw e (omega arith))
  ]

  node_returns :
      (c : Config sat) (fuel : ℕ) (st s1 s2 s3 s4 : State sat) (lits left right : List Lit)
      → 1 < length lits
      → pick sat (length lits / 2) st ≡ some (left, s1)
      → pick sat (length lits - length lits / 2) s1 ≡ some (right, s2)
      → descend fuel c s2 left ≡ some s3
      → descend fuel c s3 right ≡ some s4
      → to_cnf sat (suc fuel) c st lits ≡ some (adder sat c s4 left right lits)
  unfolding to_cnf
  node_returns c fuel st s1 s2 s3 s4 lits left right two e1 e2 e3 e4 =
      rw (to_cnf, lt→ltb 1 (length lits) two, e1, e2, e3, e4) refl

  -- `toCNF` returns on a list of two literals or more when there are as many inputs, and takes that
  -- many; as many units of fuel as the list has literals are enough.
  pub to_cnf_total :
      (c : Config sat) (fuel : ℕ) (st : State sat) (lits : List Lit)
      → 1 < length lits
      → length lits ≤ fuel
      → length lits ≤ length st.inlits
      → (st' : State sat) × (to_cnf sat fuel c st lits ≡ some st')
        × (length st'.inlits + length lits ≡ length st.inlits)
  unfolding to_cnf adder
  to_cnf_total c zero st lits two short h = absurd (omega arith)
  to_cnf_total c (suc fuel) st lits two short h =
      let half = length lits / 2 in
      let rest = length lits - half in
      let sum1 = now-later half in
      let sum2 = now-later rest in
      let (left, s1, e1, n1, k1) = pick_total half st (omega arith) in
      let (right, s2, e2, n2, k2) = pick_total rest s1 (omega arith) in
      let (s3, e3, k3) =
        descend_total c fuel s2 left (to_cnf_total c fuel) (omega arith)
          (omega (arith, ap later n1)) in
      let (s4, e4, k4) =
        descend_total c fuel s3 right (to_cnf_total c fuel) (omega arith)
          (omega (arith, ap later n1, ap later n2)) in
      (
        adder sat c s4 left right lits,
        node_returns c fuel st s1 s2 s3 s4 lits left right two e1 e2 e3 e4,
        omega (arith, ap later n1, ap later n2),
      )
