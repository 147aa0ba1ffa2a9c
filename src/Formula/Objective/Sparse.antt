-- ===== src/Formula/Objective/Sparse.antt =====
-- What `PBObjFunction::compute_sparse` (FormulaPB.cc) says of the sums of the coefficients.
use dmeic.Prelude.{
  ℕ, ◌+◌, ◌-◌, ◌≤◌, ◌==◌, ◌≡◌, ◌⊎◌, refl, subst, true, false, List, [], ◌∷◌, arith, Any, Bool-cases,
  inl, inr, if◌then◌else◌, leb, leb→le, leb→gt, length,
}
use dmeic.Formula.Objective.{
  Objective, coeffs, compute_sparse, insert_sorted, sort, leaves_gap, has_gap,
}

-- `v` is the sum of some of the numbers.
abbrev pub Attains : List ℕ → ℕ → Type 0
Attains [] v = v ≡ 0
Attains (c ∷ cs) v = Attains cs v ⊎ ((w : ℕ) × (v ≡ c + w) × Attains cs w)

unfoldable pub sum_of : List ℕ → ℕ
sum_of [] = 0
sum_of (c ∷ cs) = c + sum_of cs

insert_sorted-Attains : (a v : ℕ) (s : List ℕ) → Attains (insert_sorted a s) v → Attains (a ∷ s) v
unfolding insert_sorted
insert_sorted-Attains a v [] h = h
insert_sorted-Attains a v (b ∷ s) h = elim (Bool-cases (leb a b)) [
  | inl e ↦ rw e at h
  | inr e ↦ later (λ w. insert_sorted-Attains a w s) (rw e at h)
]
  where
    later :
        ((w : ℕ) → Attains (insert_sorted a s) w → Attains (a ∷ s) w)
        → Attains (b ∷ insert_sorted a s) v
        → Attains (a ∷ b ∷ s) v
    later rest (inl k) = elim (rest v k) [ inl i ↦ inl (inl i) | inr (w, e, i) ↦ inr (w, e, inl i) ]
    later rest (inr (w, e, k)) = elim (rest w k) [
      | inl i ↦ inl (inr (w, e, i))
      | inr (u, f, i) ↦ inr (b + u, omega (arith, e, f), inr (u, refl, i))
    ]

sort-Attains : (cs : List ℕ) (v : ℕ) → Attains (sort cs) v → Attains cs v
unfolding sort
sort-Attains [] v h = h
sort-Attains (c ∷ cs) v h = elim (insert_sorted-Attains c v (sort cs) h) [
  | inl i ↦ inl (sort-Attains cs v i)
  | inr (w, e, i) ↦ inr (w, e, sort-Attains cs w i)
]

insert_sorted-sum : (a : ℕ) (s : List ℕ) → sum_of (insert_sorted a s) ≡ a + sum_of s
unfolding insert_sorted sum_of
insert_sorted-sum a [] = refl
insert_sorted-sum a (b ∷ s) = ground (arith, insert_sorted-sum a s)

sort-sum : (cs : List ℕ) → sum_of (sort cs) ≡ sum_of cs
unfolding sort sum_of
sort-sum [] = refl
sort-sum (c ∷ cs) = omega (arith, insert_sorted-sum c (sort cs), sort-sum cs)

abbrev StartsLow : List ℕ → Type 0
StartsLow [] = ⊥
StartsLow (a ∷ s) = a ≤ 1

insert_sorted-StartsLow :
    (a : ℕ) (s : List ℕ) → (a ≤ 1) ⊎ StartsLow s → StartsLow (insert_sorted a s)
unfolding insert_sorted
insert_sorted-StartsLow a [] (inl h) = h
insert_sorted-StartsLow a [] (inr h) = elim h [ ]
insert_sorted-StartsLow a (b ∷ s) h = elim (Bool-cases (leb a b)) [
  | inl e ↦ let le = leb→le a b e in rw e (ground (arith, le, h))
  | inr e ↦ let gt = leb→gt a b e in rw e (ground (arith, gt, h))
]

sort-StartsLow : (cs : List ℕ) → Any (λ c. c ≤ 1) cs → StartsLow (sort cs)
unfolding sort
sort-StartsLow [] h = h
sort-StartsLow (c ∷ cs) (inl h) = insert_sorted-StartsLow c (sort cs) (inl h)
sort-StartsLow (c ∷ cs) (inr h) = insert_sorted-StartsLow c (sort cs) (inr (sort-StartsLow cs h))

-- Where no gap is met, a number is made of a part up to `upper` and a sum of the rest.
split_value :
    (upper : ℕ) (s : List ℕ) (v : ℕ)
    → leaves_gap upper s ≡ false
    → v ≤ upper + sum_of s
    → (w u : ℕ) × (w ≤ upper) × (v ≡ w + u) × Attains s u
unfolding leaves_gap sum_of
split_value upper [] v h le = (v, 0, omega (arith, le), omega arith, refl)
split_value upper (a ∷ s) v h le = elim (Bool-cases (leb a (upper + 1))) [
  | inr e ↦ absurd (cc (the_rest e h))
  | inl e ↦
      let low = leb→le a (upper + 1) e in
      let (w, u, wl, eq, at) = split_value (upper + a) s v (rw e at h) (omega (arith, le)) in
      elim (Bool-cases (leb w upper)) [
        | inl f ↦ (w, u, leb→le w upper f, eq, inl at)
        | inr f ↦
            let gt = leb→gt w upper f in
            (w - a, a + u, omega (arith, wl), omega (arith, eq, gt, low), inr (u, refl, at))
      ]
]
  where
    the_rest :
        leb a (upper + 1) ≡ false
        → (if leb a (upper + 1) then leaves_gap (upper + a) s else true) ≡ false
        → true ≡ false
    the_rest e k = rw e at k

has_gap-Attains :
    (s : List ℕ) (v : ℕ) → StartsLow s → has_gap s ≡ false → v ≤ sum_of s → Attains s v
unfolding has_gap sum_of
has_gap-Attains [] v low h le = elim low [ ]
has_gap-Attains (a ∷ s) v low h le =
    let (w, u, wl, eq, at) = split_value a s v h le in
    elim (Bool-cases (w == 0)) [
      | inl e ↦ let z : u ≡ v = ground (arith, e, eq) in inl (subst (Attains s) z at)
      | inr e ↦ inr (u, ground (arith, e, eq, wl, low), at)
    ]

-- When `compute_sparse` finds a function not sparse, and one of its coefficients is at most 1, each
-- number up to the sum of the coefficients is the sum of some of them.
pub compute_sparse-Attains :
    (o : Objective) (v : ℕ)
    → Any (λ c. c ≤ 1) (coeffs o.terms)
    → (compute_sparse o).0 ≡ false
    → v ≤ sum_of (coeffs o.terms)
    → Attains (coeffs o.terms) v
unfolding compute_sparse
compute_sparse-Attains o v small h le = elim (Bool-cases (length o.terms == 0)) [
  | inl e ↦ let k : true ≡ false = rw e at h in absurd (cc k)
  | inr e ↦ sort-Attains (coeffs o.terms) v (
      has_gap-Attains (sort (coeffs o.terms)) v (sort-StartsLow (coeffs o.terms) small) (rw e at h)
        (rw (sort-sum (coeffs o.terms)) le))
]
