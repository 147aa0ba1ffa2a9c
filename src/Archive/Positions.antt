-- ===== src/Archive/Positions.antt =====
-- The positions that `saveEfficientSol` notes in `effsols`. A comment in MOCO.h says that they lead
-- to the points in `nondom`.
use dmeic.Prelude.{
  ℕ, suc, ◌+◌, ◌<◌, ◌≡◌, inl, inr, Bool, true, false, List, [], ◌∷◌, ◌++◌, arith, length, In,
  length-append, Bool-cases,
}
use dmeic.Point.{YPoint}
use dmeic.Archive.{Saved, filter_saved, save_efficient_sol}

-- The entries from place `n` on note their own places.
abbrev pub IsIndexed : ℕ → List Saved → Type 0
IsIndexed n [] = Unit {0}
IsIndexed n (s ∷ ss) = (s.position ≡ n) × IsIndexed (suc n) ss

IsIndexed-append :
    (n : ℕ) (xs ys : List Saved)
    → IsIndexed n xs
    → IsIndexed (n + length xs) ys
    → IsIndexed n (xs ++ ys)
IsIndexed-append n [] ys h k = let e : n + 0 ≡ n = omega arith in rw e at k
IsIndexed-append n (x ∷ xs) ys h k =
    let e : n + suc (length xs) ≡ suc n + length xs = omega arith in
    (h.0, IsIndexed-append (suc n) xs ys h.1 (rw e at k))

IsIndexed-left : (n : ℕ) (xs ys : List Saved) → IsIndexed n (xs ++ ys) → IsIndexed n xs
IsIndexed-left n [] ys h = tt
IsIndexed-left n (x ∷ xs) ys h = (h.0, IsIndexed-left (suc n) xs ys h.1)

indexed_last :
    (n : ℕ) (xs : List Saved) (s : Saved) → IsIndexed n (xs ++ s ∷ []) → s.position ≡ n + length xs
indexed_last n [] s h = omega (arith, h.0)
indexed_last n (x ∷ xs) s h = omega (arith, indexed_last (suc n) xs s h.1)

indexed_below :
    (n : ℕ) (xs : List Saved) (s : Saved) → IsIndexed n xs → In s xs → s.position < n + length xs
indexed_below n [] s h m = elim m [ ]
indexed_below n (x ∷ xs) s h (inl e) = rw e (omega (arith, h.0))
indexed_below n (x ∷ xs) s h (inr m) = omega (arith, indexed_below (suc n) xs s h.1 m)

-- Without `filter`, `saveEfficientSol` keeps each noted position the place of its entry.
pub save_efficient_sol-IsIndexed :
    (d n_vars : ℕ) (ss : List Saved) (m : List Bool) (p : YPoint)
    → IsIndexed 0 ss
    → IsIndexed 0 (save_efficient_sol d n_vars ss m p false)
unfolding save_efficient_sol
save_efficient_sol-IsIndexed d n_vars ss m p h = IsIndexed-append 0 ss _ h (omega arith, tt)

-- With `filter`, right positions go wrong whenever an entry is dropped and the last entry stays.
pub save_efficient_sol-stale :
    (d n_vars : ℕ) (ss : List Saved) (last : Saved) (m : List Bool) (p : YPoint)
    → IsIndexed 0 (ss ++ last ∷ [])
    → In last (filter_saved d p (ss ++ last ∷ [])).0
    → length (filter_saved d p (ss ++ last ∷ [])).0 < length (ss ++ last ∷ [])
    → ¬ IsIndexed 0 (save_efficient_sol d n_vars (ss ++ last ∷ []) m p true)
unfolding save_efficient_sol
save_efficient_sol-stale d n_vars ss last m p h stays dropped wrong =
    let r = filter_saved d p (ss ++ last ∷ []) in
    let place = indexed_last 0 ss last h in
    let size = length-append ss (last ∷ []) in
    elim (Bool-cases r.1) [
      | inl e ↦ omega (arith, indexed_below 0 r.0 last (rw e at wrong) stays)
      | inr e ↦
          omega (arith, indexed_below 0 r.0 last (IsIndexed-left 0 r.0 _ (rw e at wrong)) stays)
    ]
