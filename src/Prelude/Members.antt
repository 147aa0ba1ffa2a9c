-- ===== src/Prelude/Members.antt =====
-- Membership and quantifiers over the elements of a list, by recursion, so that the tactics read
-- them, and the algorithms of the C++ library that take a Boolean test. The elements are of
-- `Type 0`, as all data of the program: `⊥` stands at that level.
use Prim.Native.Nat.{◌≤◌}
use mathlib.Core.Path.{◌≡◌, refl}
use mathlib.Core.Logic.{◌⊎◌, inl, inr}
use mathlib.Core.Bool.{Bool, true, false, ◌||◌}
use mathlib.Core.List.{List, [], ◌∷◌, ◌++◌}
use native.Mathlib.Omega.{arith}
use dmeic.Prelude.Tests.{if◌then◌else◌, Bool-cases}
use dmeic.Prelude.Lists.{length}

module _ {A : Type 0} where
  abbrev pub In : A → List A → Type 0
  In a [] = ⊥
  In a (x ∷ xs) = (a ≡ x) ⊎ In a xs

  abbrev pub All : (A → Type 0) → List A → Type 0
  All P [] = Unit
  All P (x ∷ xs) = P x × All P xs

  abbrev pub Any : (A → Type 0) → List A → Type 0
  Any P [] = ⊥
  Any P (x ∷ xs) = P x ⊎ Any P xs

  -- `R x y` for each `x` that stands before `y`.
  abbrev pub Pairwise : (A → A → Type 0) → List A → Type 0
  Pairwise R [] = Unit
  Pairwise R (x ∷ xs) = All (R x) xs × Pairwise R xs

  -- `std::erase_if`
  abbrev pub erase_if : (A → Bool) → List A → List A
  erase_if p [] = []
  erase_if p (x ∷ xs) = if p x then erase_if p xs else x ∷ erase_if p xs

  -- `std::any_of`
  abbrev pub any_of : (A → Bool) → List A → Bool
  any_of p [] = false
  any_of p (x ∷ xs) = p x || any_of p xs

module _ {A : Type 0} (P : A → Type 0) where
  pub All-In : (xs : List A) → All P xs → (a : A) → In a xs → P a
  All-In (x ∷ xs) h a (inl e) = rw e h.0
  All-In (x ∷ xs) h a (inr m) = All-In xs h.1 a m
  All-In [] h a m = elim m [ ]

  pub All-of_In : (xs : List A) → ((a : A) → In a xs → P a) → All P xs
  All-of_In [] h = tt
  All-of_In (x ∷ xs) h = (h x (inl refl), All-of_In xs (λ a m. h a (inr m)))

  pub All-append : (xs ys : List A) → All P xs → All P ys → All P (xs ++ ys)
  All-append [] ys hx hy = hy
  All-append (x ∷ xs) ys hx hy = (hx.0, All-append xs ys hx.1 hy)

  pub All-of_append : (xs ys : List A) → All P (xs ++ ys) → All P xs × All P ys
  All-of_append [] ys h = (tt, h)
  All-of_append (x ∷ xs) ys h = let (a, b) = All-of_append xs ys h.1 in ((h.0, a), b)

  pub Any-witness : (xs : List A) → Any P xs → (a : A) × In a xs × P a
  Any-witness [] h = elim h [ ]
  Any-witness (x ∷ xs) (inl h) = (x, inl refl, h)
  Any-witness (x ∷ xs) (inr h) = let (a, m, p) = Any-witness xs h in (a, inr m, p)

  pub Any_of_In : (xs : List A) (a : A) → In a xs → P a → Any P xs
  Any_of_In [] a m h = elim m [ ]
  Any_of_In (x ∷ xs) a (inl e) h = inl (rw (← e) h)
  Any_of_In (x ∷ xs) a (inr m) h = inr (Any_of_In xs a m h)

  pub All-erase_if : (p : A → Bool) (xs : List A) → All P xs → All P (erase_if p xs)
  All-erase_if p [] h = tt
  All-erase_if p (x ∷ xs) h = ground (arith, All-erase_if p xs h.1)

module _ {A : Type 0} (R : A → A → Type 0) (p : A → Bool) where
  pub Pairwise-erase_if : (xs : List A) → Pairwise R xs → Pairwise R (erase_if p xs)
  Pairwise-erase_if [] h = tt
  Pairwise-erase_if (x ∷ xs) h =
      ground (arith, Pairwise-erase_if xs h.1, All-erase_if (R x) p xs h.0)

module _ {A : Type 0} where
  pub In-append_left : (xs ys : List A) (a : A) → In a xs → In a (xs ++ ys)
  In-append_left [] ys a m = elim m [ ]
  In-append_left (x ∷ xs) ys a (inl e) = inl e
  In-append_left (x ∷ xs) ys a (inr m) = inr (In-append_left xs ys a m)

  pub In-append_right : (xs ys : List A) (a : A) → In a ys → In a (xs ++ ys)
  In-append_right [] ys a m = m
  In-append_right (x ∷ xs) ys a m = inr (In-append_right xs ys a m)

  pub In-append_cases : (xs ys : List A) (a : A) → In a (xs ++ ys) → In a xs ⊎ In a ys
  In-append_cases [] ys a m = inr m
  In-append_cases (x ∷ xs) ys a (inl e) = inl (inl e)
  In-append_cases (x ∷ xs) ys a (inr m) = elim (In-append_cases xs ys a m) [
    | inl h ↦ inl (inr h)
    | inr h ↦ inr h
  ]

  pub In-erase_if :
      (p : A → Bool) (xs : List A) (a : A) → In a xs → p a ≡ false → In a (erase_if p xs)
  In-erase_if p [] a m h = elim m [ ]
  In-erase_if p (x ∷ xs) a (inl e) h = rw (← e, h) (inl refl)
  In-erase_if p (x ∷ xs) a (inr m) h = ground (arith, In-erase_if p xs a m h)

  pub In-of_erase_if :
      (p : A → Bool) (xs : List A) (a : A) → In a (erase_if p xs) → In a xs × (p a ≡ false)
  In-of_erase_if p [] a m = elim m [ ]
  In-of_erase_if p (x ∷ xs) a m = elim (Bool-cases (p x)) [
    | inl e ↦ let (n, f) = In-of_erase_if p xs a (rw e at m) in (inr n, f)
    | inr e ↦ elim (the_cases e m) [
      | inl h ↦ (inl h, rw h e)
      | inr h ↦ let (n, f) = In-of_erase_if p xs a h in (inr n, f)
    ]
  ]
    where
      the_cases : p x ≡ false → In a (erase_if p (x ∷ xs)) → (a ≡ x) ⊎ In a (erase_if p xs)
      the_cases e h = rw e at h

  pub any_of-true : (p : A → Bool) (xs : List A) → any_of p xs ≡ true → Any (λ a. p a ≡ true) xs
  any_of-true p [] h = cc
  any_of-true p (x ∷ xs) h = ground (arith, any_of-true p xs)

  pub any_of-false : (p : A → Bool) (xs : List A) → any_of p xs ≡ false → All (λ a. p a ≡ false) xs
  any_of-false p [] h = tt
  any_of-false p (x ∷ xs) h = ground (arith, any_of-false p xs)

  pub length-erase_if : (p : A → Bool) (xs : List A) → length (erase_if p xs) ≤ length xs
  length-erase_if p [] = omega arith
  length-erase_if p (x ∷ xs) = ground (arith, length-erase_if p xs)

module _ {A : Type 0} (P Q : A → Type 0) where
  pub Any-mono : (xs : List A) → ((a : A) → P a → Q a) → Any P xs → Any Q xs
  Any-mono [] f h = h
  Any-mono (x ∷ xs) f (inl h) = inl (f x h)
  Any-mono (x ∷ xs) f (inr h) = inr (Any-mono xs f h)

  pub All-mono : (xs : List A) → ((a : A) → P a → Q a) → All P xs → All Q xs
  All-mono [] f h = tt
  All-mono (x ∷ xs) f h = (f x h.0, All-mono xs f h.1)

module _ {A : Type 0} (P : A → Type 0) where
  pub Any-append_left : (xs ys : List A) → Any P xs → Any P (xs ++ ys)
  Any-append_left [] ys h = elim h [ ]
  Any-append_left (x ∷ xs) ys (inl h) = inl h
  Any-append_left (x ∷ xs) ys (inr h) = inr (Any-append_left xs ys h)

  pub Any-append_right : (xs ys : List A) → Any P ys → Any P (xs ++ ys)
  Any-append_right [] ys h = h
  Any-append_right (x ∷ xs) ys h = inr (Any-append_right xs ys h)

  pub All-intro : ((a : A) → P a) → (xs : List A) → All P xs
  All-intro f [] = tt
  All-intro f (x ∷ xs) = (f x, All-intro f xs)

  pub Any_of_sub : (xs ys : List A) → ((a : A) → In a xs → In a ys) → Any P xs → Any P ys
  Any_of_sub xs ys f h = let (a, m, p) = Any-witness P xs h in Any_of_In P ys a (f a m) p

module _ {A : Type 0} where
  pub In-append_mono :
      (xs ys zs : List A)
      → ((a : A) → In a ys → In a zs)
      → (a : A) → In a (xs ++ ys)
      → In a (xs ++ zs)
  In-append_mono xs ys zs f a m = elim (In-append_cases xs ys a m) [
    | inl h ↦ In-append_left xs zs a h
    | inr h ↦ In-append_right xs zs a (f a h)
  ]
