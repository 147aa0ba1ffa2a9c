-- ===== src/Search/RootLits/Sums.antt =====
-- What `allSums` (encodings/RootLits.cc) collects.
use dmeic.Prelude.{ℕ, ◌+◌, ◌≡◌, ◌⊎◌, ◌↔◌, inl, inr, refl, sym, subst, List, [], ◌∷◌, arith, In}
use dmeic.StdSet.{insert}
use dmeic.StdSet.Laws.{In-insert_self, In-insert_old, In-insert_cases}
use dmeic.StdSet.Numbers.{number_ordered}
use dmeic.Formula.Objective.Sparse.{Attains}
use dmeic.Search.RootLits.{insert_all, all_sums}

insert_all-old : (c : ℕ) (els r : List ℕ) (v : ℕ) → In v r → In v (insert_all c els r)
unfolding insert_all
insert_all-old c [] r v h = h
insert_all-old c (e ∷ els) r v h =
    insert_all-old c els (insert (c + e) r).0 v (In-insert_old (c + e) r v h)

insert_all-new : (c : ℕ) (els r : List ℕ) (e : ℕ) → In e els → In (c + e) (insert_all c els r)
unfolding insert_all
insert_all-new c [] r e h = elim h [ ]
insert_all-new c (d ∷ els) r e (inl q) =
    insert_all-old c els (insert (c + d) r).0 (c + e)
      (subst (λ t. In (c + t) (insert (c + d) r).0) (sym q) (In-insert_self (c + d) r))
insert_all-new c (d ∷ els) r e (inr h) = insert_all-new c els (insert (c + d) r).0 e h

insert_all-cases :
    (c : ℕ) (els r : List ℕ) (v : ℕ)
    → In v (insert_all c els r)
    → In v r ⊎ ((e : ℕ) × In e els × (v ≡ c + e))
unfolding insert_all
insert_all-cases c [] r v h = inl h
insert_all-cases c (d ∷ els) r v h = elim (insert_all-cases c els (insert (c + d) r).0 v h) [
  | inr (e, i, q) ↦ inr (e, inr i, q)
  | inl i ↦ elim (In-insert_cases (c + d) r v i) [ inl q ↦ inr (d, inl refl, q) | inr k ↦ inl k ]
]

Attains-zero : (cs : List ℕ) → Attains cs 0
Attains-zero [] = refl
Attains-zero (c ∷ cs) = inl (Attains-zero cs)

abbrev pub Sums : List ℕ → List ℕ → ℕ → Type 0
Sums cs r v = (u w : ℕ) × In u r × Attains cs w × (v ≡ u + w)

-- One number more, where `rest` has the sums of the others.
one_more :
    (c : ℕ) (cs r rest : List ℕ)
    → In 0 r
    → ((v : ℕ) → In v rest ↔ Sums cs r v)
    → (v : ℕ) → In v (insert_all c rest (insert c rest).0) ↔ Sums (c ∷ cs) r v
one_more c cs r rest z known v = (there, back)
  where
    there : In v (insert_all c rest (insert c rest).0) → Sums (c ∷ cs) r v
    there h = elim (insert_all-cases c rest (insert c rest).0 v h) [
      | inr (e, i, q) ↦
          let (u, w, k, a, f) = (known e).0 i in
          (u, c + w, k, inr (w, refl, a), omega (arith, q, f))
      | inl i ↦ elim (In-insert_cases c rest v i) [
        | inl q ↦ (0, c, z, inr (0, omega arith, Attains-zero cs), omega (arith, q))
        | inr k ↦ let (u, w, l, a, f) = (known v).0 k in (u, w, l, inl a, f)
      ]
    ]

    back : Sums (c ∷ cs) r v → In v (insert_all c rest (insert c rest).0)
    back (u, w, i, inl a, e) =
        insert_all-old c rest (insert c rest).0 v
          (In-insert_old c rest v ((known v).1 (u, w, i, a, e)))
    back (u, w, i, inr (t, f, a), e) =
        let same : c + (u + t) ≡ v = omega (arith, e, f) in
        subst (λ x. In x (insert_all c rest (insert c rest).0)) same
          (insert_all-new c rest (insert c rest).0 (u + t) ((known (u + t)).1 (u, t, i, a, refl)))

-- `allSums`, on a set that holds 0, leaves exactly the sums of an element of the set and some of the
-- numbers.
pub all_sums-Sums : (cs r : List ℕ) (v : ℕ) → In 0 r → In v (all_sums cs r) ↔ Sums cs r v
unfolding all_sums
all_sums-Sums [] r v z = (
  λ h. (v, 0, h, refl, omega arith),
  λ (u, w, i, a, e). let same : u ≡ v = omega (arith, a, e) in subst (λ t. In t r) same i,
)
all_sums-Sums (c ∷ cs) r v z = one_more c cs r (all_sums cs r) z (λ t. all_sums-Sums cs r t z) v
