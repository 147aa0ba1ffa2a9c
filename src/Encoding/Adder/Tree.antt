-- ===== src/Encoding/Adder/Tree.antt =====
-- What `adderTree` computes: the literals of the result are the binary digits of the sum of the
-- buckets, each literal with the weight of its bucket.
use dmeic.Prelude.{
  ℕ, zero, suc, ◌+◌, ◌*◌, ◌<◌, ◌≤◌, ◌≡◌, refl, true, List, [], ◌∷◌, ◌++◌, Option, none, some, arith,
  leb, length, length-append, Bool-cases, inl, inr, leb→le, leb→gt,
}
use dmeic.Encoding.Solver.{Lit, Assignment, Sat, lit_true, count_true}
use dmeic.Encoding.Adder.{
  fa_sum, fa_carry, fa_extra, ha_sum, ha_carry, add_bucket, tree_from, size, adder_tree,
}
use dmeic.Encoding.Adder.Gates.{one, full_adder, half_adder}

abbrev pub digit : Assignment → Option Lit → ℕ
digit σ none = 0
digit σ (some l) = one (lit_true σ l)

-- The number that the literals stand for, the lowest place first.
unfoldable pub value : Assignment → List (Option Lit) → ℕ
value σ [] = 0
value σ (x ∷ xs) = digit σ x + 2 * value σ xs

-- The sum of the buckets.
unfoldable pub weigh : Assignment → List (List Lit) → ℕ
weigh σ [] = 0
weigh σ (b ∷ bs) = count_true σ b + 2 * weigh σ bs

count_true-end :
    (σ : Assignment) (ls : List Lit) (l : Lit)
    → count_true σ (ls ++ l ∷ []) ≡ count_true σ ls + one (lit_true σ l)
unfolding count_true
count_true-end σ [] l = ground arith
count_true-end σ (k ∷ ls) l = ground (arith, count_true-end σ ls l)

count_true-nil : (σ : Assignment) → count_true σ [] ≡ 0
unfolding count_true
count_true-nil σ = refl

pub count_true-le : (σ : Assignment) (ls : List Lit) → count_true σ ls ≤ length ls
unfolding count_true
count_true-le σ [] = omega arith
count_true-le σ (l ∷ ls) = ground (arith, count_true-le σ ls)

module _ (sat : Sat) (σ : Assignment) where
  open sat use {Solver, holds}

  -- The result of a bucket, and the next bucket, keep the sum.
  abbrev IsSum : Solver → List Lit → List Lit → Solver × Option Lit × List Lit → Type 0
  IsSum s q next (s', r, next') =
      (holds s σ ≡ true)
      × (digit σ r + 2 * count_true σ next' ≡ count_true σ q + 2 * count_true σ next)

  add_bucket-IsSum :
      (fuel : ℕ) (s : Solver) (q next : List Lit)
      → length q ≤ fuel
      → holds (add_bucket sat fuel s q next).0 σ ≡ true
      → IsSum s q next (add_bucket sat fuel s q next)
  unfolding add_bucket count_true
  add_bucket-IsSum fuel s [] next enough h = (h, omega arith)
  add_bucket-IsSum fuel s (x ∷ []) next enough h = (h, ground arith)
  add_bucket-IsSum fuel s (x ∷ y ∷ []) next enough h =
      let (h0, e) = half_adder sat σ s x y h in
      (h0, ground (arith, e, count_true-end σ next (ha_carry sat (ha_sum sat s x y).0 x y).1))
  add_bucket-IsSum zero s (x ∷ y ∷ z ∷ q) next enough h = absurd (omega arith)
  add_bucket-IsSum (suc fuel) s (x ∷ y ∷ z ∷ q) next enough h =
      let (s1, xs) = fa_sum sat s x y z in
      let (s2, xc) = fa_carry sat s1 x y z in
      let (h', e') =
        add_bucket-IsSum fuel (fa_extra sat s2 xc xs x y z) (q ++ xs ∷ []) (next ++ xc ∷ [])
          (omega (arith, enough, length-append q (xs ∷ []))) h in
      let (h0, e) = full_adder sat σ s x y z h' in
      (h0, ground (arith, e, e', count_true-end σ next xc, count_true-end σ q xs))

  pub add_bucket-length :
      (fuel : ℕ) (s : Solver) (q next : List Lit)
      → length q ≤ fuel
      → 2 * length (add_bucket sat fuel s q next).2 ≤ length q + 2 * length next
  unfolding add_bucket
  add_bucket-length fuel s [] next enough = omega arith
  add_bucket-length fuel s (x ∷ []) next enough = omega arith
  add_bucket-length fuel s (x ∷ y ∷ []) next enough =
      omega (arith, length-append next ((ha_carry sat (ha_sum sat s x y).0 x y).1 ∷ []))
  add_bucket-length zero s (x ∷ y ∷ z ∷ q) next enough = absurd (omega arith)
  add_bucket-length (suc fuel) s (x ∷ y ∷ z ∷ q) next enough =
      let (s1, xs) = fa_sum sat s x y z in
      let (s2, xc) = fa_carry sat s1 x y z in
      omega (
        arith,
        add_bucket-length fuel (fa_extra sat s2 xc xs x y z) (q ++ xs ∷ []) (next ++ xc ∷ [])
            (omega (arith, enough, length-append q (xs ∷ []))),
        length-append q (xs ∷ []),
        length-append next (xc ∷ []),
      )

  tree_from-sum :
      (fuel : ℕ) (s : Solver) (q : List Lit) (rest : List (List Lit))
      → size (q ∷ rest) ≤ fuel
      → holds (tree_from sat fuel s q rest).0 σ ≡ true
      → (holds s σ ≡ true) × (value σ (tree_from sat fuel s q rest).1 ≡ weigh σ (q ∷ rest))
  unfolding tree_from value weigh
  tree_from-sum zero s q rest enough h = absurd (omega (arith, enough))
  tree_from-sum (suc fuel) s q (next ∷ rest) enough h =
      let (s1, r, next') = add_bucket sat (length q) s q next in
      let small = add_bucket-length (length q) s q next (omega arith) in
      let (h1, e1) = tree_from-sum fuel s1 next' rest (omega (arith, enough, small)) h in
      let (h0, e0) = add_bucket-IsSum (length q) s q next (omega arith) h1 in
      (h0, omega (arith, e1, e0))
  tree_from-sum (suc fuel) s q [] enough h = elim (Bool-cases (leb 2 (length q))) [
    | inl many ↦
        let (s1, r, next') = add_bucket sat (length q) s q [] in
        let small = add_bucket-length (length q) s q [] (omega arith) in
        let h' = rw many at h in
        let (h1, e1) =
          tree_from-sum fuel s1 next' [] (omega (arith, enough, small, leb→le _ _ many)) h' in
        let (h0, e0) = add_bucket-IsSum (length q) s q [] (omega arith) h1 in
        rw many (h0, omega (arith, e1, e0, count_true-nil σ))
    | inr few ↦
        let (s1, r, next') = add_bucket sat (length q) s q [] in
        let small = add_bucket-length (length q) s q [] (omega arith) in
        let one_left : length q < 2 = leb→gt 2 (length q) few in
        let (h0, e0) = add_bucket-IsSum (length q) s q [] (omega arith) (rw few at h) in
        rw few (h0, omega (arith, e0, small, one_left, count_true-le σ next', count_true-nil σ))
  ]

  -- The digits that `adderTree` leaves stand for the sum of the buckets.
  pub adder_tree-sum :
      (s : Solver) (bs : List (List Lit))
      → holds (adder_tree sat s bs).0 σ ≡ true
      → (holds s σ ≡ true) × (value σ (adder_tree sat s bs).1 ≡ weigh σ bs)
  unfolding adder_tree value weigh
  adder_tree-sum s [] h = (h, refl)
  adder_tree-sum s (b ∷ bs) h = tree_from-sum (size (b ∷ bs)) s b bs (omega arith) h

module _ (sat : Sat) where
  tree_from-length :
      (fuel : ℕ) (s : sat.Solver) (q : List Lit) (rest : List (List Lit))
      → length rest < fuel
      → length (q ∷ rest) ≤ length (tree_from sat fuel s q rest).1
  unfolding tree_from
  tree_from-length zero s q rest enough = absurd (omega (arith, enough))
  tree_from-length (suc fuel) s q (next ∷ rest) enough =
      let (s1, r, next') = add_bucket sat (length q) s q next in
      omega (arith, tree_from-length fuel s1 next' rest (omega (arith, enough)))
  tree_from-length (suc fuel) s q [] enough = ground arith

  size-length : (bs : List (List Lit)) → length bs < size bs
  size-length [] = omega arith
  size-length (b ∷ bs) = omega (arith, size-length bs)

  -- There is a digit for each bucket.
  pub adder_tree-length :
      (s : sat.Solver) (bs : List (List Lit)) → length bs ≤ length (adder_tree sat s bs).1
  unfolding adder_tree
  adder_tree-length s [] = omega arith
  adder_tree-length s (b ∷ bs) =
      tree_from-length (size (b ∷ bs)) s b bs (omega (arith, size-length bs))
