-- ===== src/Sharing/Vector/Laws.antt =====
-- The points of `sharedSolutions` after a call of `pushSolutions`.
use dmeic.Prelude.{
  ℕ, zero, suc, ◌<◌, ◌≡◌, refl, ap, subst, ◌⊎◌, inl, inr, true, false, List, [], ◌∷◌, ◌++◌, arith,
  In, All-In, Any, Any-witness, Any_of_In, In-append_left, In-append_cases, Any-mono,
  Any-append_left, Any-append_right,
}
use dmeic.Point.{YPoint, dominates}
use dmeic.Point.Order.{dominates_refl, dominates_trans}
use dmeic.Point.Weight.{weight, weight-lt}
use dmeic.Sharing.Vector.{Tagged, Marked, Shared, examine, unmarked, unmark, stamp, push_solutions}
use dmeic.Sharing.Vector.Coverage.{at, entries, AllJustified, Examined, examine-Examined}

module _ {Sol : Type 0} (y_point : Sol → YPoint) where
  In-unmarked :
      (b : Tagged Sol) (ms : List (Marked Sol))
      → In b (entries y_point ms)
      → In b (unmarked y_point ms) ⊎ In (b, true) ms
  unfolding unmarked
  In-unmarked b [] m = elim m [ ]
  In-unmarked b ((t, true) ∷ ms) (inl e) = inr (inl (rw e))
  In-unmarked b ((t, false) ∷ ms) (inl e) = inl (inl e)
  In-unmarked b ((t, true) ∷ ms) (inr m) = ground (arith, In-unmarked b ms m)
  In-unmarked b ((t, false) ∷ ms) (inr m) = ground (arith, In-unmarked b ms m)

  stamped :
      (P : YPoint → Type 0) (time : ℕ) (b : Tagged Sol) (ts : List (Tagged Sol))
      → In b ts
      → P (at y_point b)
      → Any (λ t. P (at y_point t)) (stamp y_point time ts)
  stamped P time b [] m h = elim m [ ]
  stamped P time b (t ∷ ts) (inl e) h = inl (subst (λ u. P (at y_point u)) e h)
  stamped P time b (t ∷ ts) (inr m) h = inr (stamped P time b ts m h)

  abbrev Reached : List (Tagged Sol) → YPoint → Type 0
  Reached l p = Any (λ t. dominates (at y_point t) p ≡ true) l

  Reached-trans :
      (l : List (Tagged Sol)) (p q : YPoint) → Reached l p → dominates p q ≡ true → Reached l q
  Reached-trans l p q h d = Any-mono _ _ l (λ t k. dominates_trans (at y_point t) p q k d) h

  -- Each known point is reached from what remains, by induction on the weight of the point.
  module _ (ms : List (Marked Sol)) (add : List (Tagged Sol)) (time : ℕ)
      (ok : AllJustified y_point (entries y_point ms ++ add) ms) where
    abbrev result : List (Tagged Sol)
    result = unmarked y_point ms ++ stamp y_point time add

    reached :
        (n : ℕ) (b : Tagged Sol)
        → weight (at y_point b) < n
        → In b (entries y_point ms ++ add)
        → Reached result (at y_point b)
    reached zero b h m = elim h [ ]
    reached (suc n) b h m = elim (In-append_cases (entries y_point ms) add b m) [
      | inr new ↦ Any-append_right _ (unmarked y_point ms) _ (
          stamped (λ p. dominates p (at y_point b) ≡ true) time b add new
            (dominates_refl (at y_point b)))
      | inl old ↦ elim (In-unmarked b ms old) [
        | inl kept ↦
            Any-append_left _ (unmarked y_point ms) _
              (Any_of_In _ (unmarked y_point ms) b kept (dominates_refl (at y_point b)))
        | inr dropped ↦
            let (c, mc, s) = Any-witness _ _ (All-In _ ms ok (b, true) dropped refl) in
            let lower = weight-lt (at y_point c) (at y_point b) s in
            Reached-trans result (at y_point c) (at y_point b) (reached n c (omega arith) mc) s.0
      ]
    ]

  unmark-AllJustified :
      (known es : List (Tagged Sol)) → AllJustified y_point known (unmark y_point es)
  unmark-AllJustified known [] = tt
  unmark-AllJustified known (t ∷ es) = (λ h. cc, unmark-AllJustified known es)

  entries-unmark : (es : List (Tagged Sol)) → entries y_point (unmark y_point es) ≡ es
  entries-unmark [] = refl
  entries-unmark (t ∷ es) = ap (◌∷◌ t) (entries-unmark es)

  -- The final state of the loop over the candidates of a push.
  pub push_loop :
      (s : Shared Sol) (cs : List Sol) (thread : ℕ)
      → Examined y_point thread cs s.shared_solutions []
          (examine y_point thread cs (unmark y_point s.shared_solutions) [])
  push_loop s cs thread =
      subst
        (λ es.
          Examined y_point thread cs es []
            (examine y_point thread cs (unmark y_point s.shared_solutions) []))
        (entries-unmark s.shared_solutions)
        (examine-Examined y_point thread cs (unmark y_point s.shared_solutions) []
          (unmark-AllJustified _ s.shared_solutions))

  push-Reached :
      (s : Shared Sol) (cs : List Sol) (thread : ℕ) (b : Tagged Sol)
      → In b (
          s.shared_solutions
          ++ (examine y_point thread cs (unmark y_point s.shared_solutions) []).1)
      → Reached (push_solutions y_point s cs thread).shared_solutions (at y_point b)
  unfolding push_solutions
  push-Reached s cs thread b m =
      let x = push_loop s cs thread in
      let r = examine y_point thread cs (unmark y_point s.shared_solutions) [] in
      reached r.0 r.1 _ (rw x.same x.justified) (suc (weight (at y_point b))) b (omega arith)
        (rw x.same m)

  -- A push loses nothing: each point that was shared, and each candidate, is weakly dominated by a
  -- point that is shared afterwards.
  pub push_solutions-covers :
      (s : Shared Sol) (cs : List Sol) (thread : ℕ)
      → ((t : Tagged Sol)
          → In t s.shared_solutions
          → Any
              (λ u. dominates (y_point u.sol) (y_point t.sol) ≡ true)
              (push_solutions y_point s cs thread).shared_solutions)
        × ((c : Sol)
            → In c cs
            → Any
                (λ u. dominates (y_point u.sol) (y_point c) ≡ true)
                (push_solutions y_point s cs thread).shared_solutions)
  push_solutions-covers s cs thread = (
    λ t m. push-Reached s cs thread t (In-append_left s.shared_solutions _ t m),
    λ c m.
        let (b, mb, d) = Any-witness _ _ ((push_loop s cs thread).covered c m) in
        Reached-trans _ (at y_point b) (y_point c) (push-Reached s cs thread b mb) d,
  )
