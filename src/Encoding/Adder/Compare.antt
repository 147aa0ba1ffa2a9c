-- ===== src/Encoding/Adder/Compare.antt =====
-- What the clauses of `lessThanOrEqual` and `lessThanOrEqualInc` say.
use mathlib.Core.Option
use dmeic.Prelude.{
  pow_suc, All-of_append, ℕ, ◌^◌, ◌<◌, ◌≤◌, ◌≡◌, ◌≢◌, ◌↔◌, sym, ◌∙◌, Bool, true, false, ◌||◌, List,
  [], ◌∷◌, ◌++◌, Option, none, some, arith, if◌then◌else◌, ◌==◌, length, All, Bool-cases, inl, inr,
  any_of,
}
use dmeic.Encoding.Solver.{Lit, Assignment, Sat, neg, mk_lit, lit_true, clause_true}
use dmeic.Encoding.Adder.{
  clause_above, place_clause, add_place, bound_from, assume_place, assume_from,
}
use dmeic.Encoding.Adder.Gates.{one}
use dmeic.Encoding.Adder.Tree.{digit, value}
use dmeic.Encoding.Adder.Digits.{number, AreBits}

||-false : (a b : Bool) → a || b ≡ false → (a ≡ false) × (b ≡ false)
||-false a b h = ground arith

any_of-end :
    (p : Lit → Bool) (ls : List Lit) (l : Lit) → any_of p (ls ++ l ∷ []) ≡ any_of p ls || p l
any_of-end p [] l = ground arith
any_of-end p (k ∷ ls) l = ground (arith, any_of-end p ls l)

module _ (σ : Assignment) where
  -- The literals of the inner loop are all false just when the digits are those of `ys`; where the
  -- loop gives up they are not.
  abbrev Distinguishes : List (Option Lit) → List ℕ → Option (List Lit) → Type 0
  Distinguishes xs ys none = value σ xs ≢ number ys
  Distinguishes xs ys (some c) = (clause_true σ c ≡ false) ↔ (value σ xs ≡ number ys)

  Distinguishes-none :
      (xs : List (Option Lit)) (y : ℕ) (ys : List ℕ) (o : Option (List Lit))
      → y ≡ 0
      → Distinguishes xs ys o
      → Distinguishes (none ∷ xs) (y ∷ ys) o
  unfolding value number
  Distinguishes-none xs y ys none e d = λ h. d (omega (arith, e, h))
  Distinguishes-none xs y ys (some c) e d =
      ((λ f. omega (arith, e, d.0 f)), λ h. d.1 (omega (arith, e, h)))

  Distinguishes-some :
      (l : Lit) (xs : List (Option Lit)) (y : ℕ) (ys : List ℕ) (o : Option (List Lit))
      → y ≤ 1
      → Distinguishes xs ys o
      → Distinguishes (some l ∷ xs) (y ∷ ys) (Option.map (◌∷◌ (if y == 1 then neg l else l)) o)
  unfolding value number
  Distinguishes-some l xs y ys none b d = λ h. d (ground (arith, h, b))
  Distinguishes-some l xs y ys (some c) b d =
      let same : (lit_true σ (if y == 1 then neg l else l) ≡ false) ↔ (one (lit_true σ l) ≡ y) =
        ground (arith, b) in
      (
        (λ f.
            let (head, rest) = ||-false _ _ f in
            let top = same.0 head in let low = d.0 rest in omega (arith, top, low)),
        λ h.
            let head : one (lit_true σ l) ≡ y = ground (arith, h, b) in
            let rest : value σ xs ≡ number ys = omega (arith, h, head) in
            rw (same.1 head) (d.1 rest),
      )

  clause_above-Distinguishes :
      (xs : List (Option Lit)) (ys : List ℕ)
      → length xs ≡ length ys
      → AreBits ys
      → Distinguishes xs ys (clause_above xs ys)
  unfolding clause_above value number
  clause_above-Distinguishes [] [] e b = ground arith
  clause_above-Distinguishes [] (y ∷ ys) e b = absurd (omega (arith, e))
  clause_above-Distinguishes (x ∷ xs) [] e b = absurd (omega (arith, e))
  clause_above-Distinguishes (none ∷ xs) (y ∷ ys) e b =
      let ih = clause_above-Distinguishes xs ys (omega (arith, e)) b.1 in
      elim (Bool-cases (y == 1)) [
        | inl h ↦ rw h (ground (arith, h))
        | inr h ↦ rw h (Distinguishes-none xs y ys (clause_above xs ys) (ground (arith, h, b.0)) ih)
      ]
  clause_above-Distinguishes (some l ∷ xs) (y ∷ ys) e b =
      let ih = clause_above-Distinguishes xs ys (omega (arith, e)) b.1 in
      Distinguishes-some l xs y ys (clause_above xs ys) b.0 ih

  -- What a place asks for: where the digits above are equal, its digit is at most that of `ys`.
  abbrev AtPlace : Option Lit → ℕ → List (Option Lit) → List ℕ → Type 0
  AtPlace x y xs ys = value σ xs ≡ number ys → digit σ x ≤ y

  abbrev Says : Type 0 → Option (List Lit) → Type 0
  Says P none = P
  Says P (some c) = (clause_true σ c ≡ true) ↔ P

  Says-place :
      (l : Lit) (y : ℕ) (xs : List (Option Lit)) (ys : List ℕ) (o : Option (List Lit))
      → y ≡ 0
      → Distinguishes xs ys o
      → Says (AtPlace (some l) y xs ys) (Option.map (λ c. c ++ neg l ∷ []) o)
  Says-place l y xs ys none e d = λ h. absurd (d h)
  Says-place l y xs ys (some c) e d =
      let whole = any_of-end (lit_true σ) c (neg l) in
      let off : (lit_true σ (neg l) ≡ true) ↔ (one (lit_true σ l) ≡ 0) = ground arith in
      elim (Bool-cases (clause_true σ c)) [
        | inl t ↦ ((λ h k. absurd (cc (t, d.1 k))), λ h. ground (arith, whole, t))
        | inr f ↦
            let equal = d.0 f in
            (
              (λ h k.
                  let only : lit_true σ (neg l) ≡ true = ground (arith, whole, f, h) in
                  omega (arith, off.0 only)),
              λ h.
                  let only : lit_true σ (neg l) ≡ true = off.1 (omega (arith, h equal, e)) in
                  ground (arith, whole, only),
            )
      ]

  digit_le : (x : Option Lit) → digit σ x ≤ 1
  digit_le none = omega arith
  digit_le (some l) = ground arith

  place_clause-Says :
      (x : Option Lit) (y : ℕ) (xs : List (Option Lit)) (ys : List ℕ)
      → length xs ≡ length ys
      → AreBits (y ∷ ys)
      → Says (AtPlace x y xs ys) (place_clause x y xs ys)
  unfolding place_clause
  place_clause-Says none y xs ys e b = λ h. omega arith
  place_clause-Says (some l) y xs ys e b = elim (Bool-cases (y == 1)) [
    | inl h ↦ rw h (λ k. ground (arith, h, digit_le (some l)))
    | inr h ↦ rw h (
        Says-place l y xs ys (clause_above xs ys) (ground (arith, h, b.0))
          (clause_above-Distinguishes xs ys e b.1))
  ]

  -- Bit by bit comparison.
  value_le :
      (x : Option Lit) (y : ℕ) (xs : List (Option Lit)) (ys : List ℕ)
      → y ≤ 1
      → (value σ (x ∷ xs) ≤ number (y ∷ ys)) ↔ ((value σ xs ≤ number ys) × AtPlace x y xs ys)
  unfolding value number
  value_le x y xs ys b =
      let d = digit_le x in
      (
        (λ h. (omega (arith, h, d, b), λ k. omega (arith, h, k))),
        λ h. elim (Bool-cases (value σ xs == number ys)) [
          | inl e ↦ let e' : value σ xs ≡ number ys = ground (arith, e) in omega (arith, h.1 e', e')
          | inr e ↦ let l : value σ xs < number ys = ground (arith, e, h.0) in omega (arith, l, d)
        ],
      )

pub value-lt : (σ : Assignment) (xs : List (Option Lit)) → value σ xs < 2 ^ length xs
unfolding value
value-lt σ [] = omega arith
value-lt σ (x ∷ xs) = omega (arith, value-lt σ xs, digit_le σ x, pow_suc (length xs))

module _ (sat : Sat) (σ : Assignment) where
  open sat use {Solver, holds, n_vars, new_var, add_clause, holds-add_clause, holds-new_var}

  add_place-holds :
      (s : Solver) (P : Type 0) (o : Option (List Lit))
      → Says σ P o
      → (holds (add_place sat s o) σ ≡ true) ↔ ((holds s σ ≡ true) × P)
  add_place-holds s P none k = ((λ h. (h, k)), λ h. h.0)
  add_place-holds s P (some c) k =
      let e = holds-add_clause s c σ in
      (
        (λ h. (ground (arith, e, h), k.0 (ground (arith, e, h)))),
        λ h. let t = k.1 h.1 in let u = h.0 in ground (arith, e, t, u),
      )

  -- The clauses of `lessThanOrEqual` hold just where the digits stand for at most the number.
  pub bound_from_iff :
      (s : Solver) (xs : List (Option Lit)) (ys : List ℕ)
      → length xs ≡ length ys
      → AreBits ys
      → (holds (bound_from sat s xs ys) σ ≡ true) ↔ ((holds s σ ≡ true) × (value σ xs ≤ number ys))
  unfolding bound_from value number
  bound_from_iff s [] [] e b = ((λ h. (h, nothing)), λ h. h.0)
    where
      nothing : value σ [] ≤ number []
      nothing = omega arith
  bound_from_iff s (x ∷ xs) [] e b = absurd (omega (arith, e))
  bound_from_iff s [] (y ∷ ys) e b = absurd (omega (arith, e))
  bound_from_iff s (x ∷ xs) (y ∷ ys) e b =
      let same : length xs ≡ length ys = omega (arith, e) in
      let ih = bound_from_iff (add_place sat s (place_clause x y xs ys)) xs ys same b.1 in
      let here = add_place-holds s (AtPlace σ x y xs ys) _ (place_clause-Says σ x y xs ys same b) in
      let le = value_le σ x y xs ys b.0 in
      (
        (λ h. let (k, l) = ih.0 h in let (k', p) = here.0 k in (k', le.1 (l, p))),
        λ h. let (l, p) = le.0 h.1 in ih.1 (here.1 (h.0, p), l),
      )

  abbrev pub AllTrue : List Lit → Type 0
  AllTrue = All (λ l. lit_true σ l ≡ true)

  assume_place_sound :
      (s : Solver) (P : Type 0) (assumptions : List Lit) (o : Option (List Lit))
      → Says σ P o
      → holds (assume_place sat s assumptions o).0 σ ≡ true
      → AllTrue (assume_place sat s assumptions o).1
      → (holds s σ ≡ true) × P × AllTrue assumptions
  assume_place_sound s P assumptions none k h a = (h, k, a)
  assume_place_sound s P assumptions (some c) k h a =
      let t = mk_lit (n_vars s) false in
      let both = All-of_append (λ l. lit_true σ l ≡ true) assumptions (neg t ∷ []) a in
      let e = holds-add_clause (new_var s) (c ++ t ∷ []) σ in
      let off : lit_true σ (neg t) ≡ true = both.1.0 in
      let whole = any_of-end (lit_true σ) c t in
      let clause : clause_true σ c ≡ true = ground (arith, e, h, off, whole) in
      (sym (holds-new_var s σ) ∙ ground (arith, e, h), k.0 clause, both.0)

  -- Under the assumptions of `lessThanOrEqualInc` its clauses bound the digits by the number.
  pub assume_from_sound :
      (s : Solver) (xs : List (Option Lit)) (ys : List ℕ) (assumptions : List Lit)
      → length xs ≡ length ys
      → AreBits ys
      → holds (assume_from sat s xs ys assumptions).0 σ ≡ true
      → AllTrue (assume_from sat s xs ys assumptions).1
      → (holds s σ ≡ true) × (value σ xs ≤ number ys) × AllTrue assumptions
  unfolding assume_from value number
  assume_from_sound s [] [] assumptions e b h a = (h, omega arith, a)
  assume_from_sound s (x ∷ xs) [] assumptions e b h a = absurd (omega (arith, e))
  assume_from_sound s [] (y ∷ ys) assumptions e b h a = absurd (omega (arith, e))
  assume_from_sound s (x ∷ xs) (y ∷ ys) assumptions e b h a =
      let same : length xs ≡ length ys = omega (arith, e) in
      let (h', l, a') =
        assume_from_sound (assume_place sat s assumptions (place_clause x y xs ys)).0 xs ys
          (assume_place sat s assumptions (place_clause x y xs ys)).1 same b.1 h a in
      let (h0, p, a0) =
        assume_place_sound s (AtPlace σ x y xs ys) assumptions _
          (place_clause-Says σ x y xs ys same b) h' a' in
      (h0, (value_le σ x y xs ys b.0).1 (l, p), a0)
