-- ===== src/Tests/Archives.antt =====
-- Concrete runs of the archive of shared solutions.
use dmeic.Prelude.{arith, ◌≡◌, refl, true, false, List, [], ◌∷◌}
use dmeic.Point.{YPoint, dominates}
use dmeic.Sharing.Vector
use dmeic.Sharing.Archive.{Archive, sync_solutions}
use dmeic.Sharing.Archive.View.{view, live}
use dmeic.Sharing.Archive.Refines.{IsSpread, sync_solutions-view}
use dmeic.Sharing.Archive.Reads.{IsValid, sync_solutions-IsValid}

abbrev same : YPoint → YPoint
same p = p

abbrev shared : Archive YPoint
shared = record {
  archive =
      record { sol = 4 ∷ 4 ∷ []; ts = 1; added_by_thread = 0; dominated = true }
      ∷ record { sol = 3 ∷ 3 ∷ []; ts = 2; added_by_thread = 0; dominated = false }
      ∷ [];
  published = 1;
  live_count = 1;
  overflow = true;
  last_update_time = 2;
  solver_timestamps = 2 ∷ 0 ∷ [];
  solutions_pushed = 2 ∷ 0 ∷ [];
  solutions_pulled = 0 ∷ 0 ∷ [];
}

abbrev offered : List YPoint
offered = (1 ∷ 2 ∷ []) ∷ (4 ∷ 1 ∷ []) ∷ []

offered-IsSpread : IsSpread same [] offered
unfolding dominates
offered-IsSpread = (tt, (((λ e. absurd (ground (arith, e))), tt), tt))

shared-IsValid : IsValid 1 shared
unfolding live
shared-IsValid = record { counted = refl; listed = refl; full = refl }

sync_solutions-view_example :
    ((sync_solutions same 1 shared offered 1 true).0
      ≡ (Vector.sync_solutions same (view shared) offered 1 true).0)
    × (view (sync_solutions same 1 shared offered 1 true).1
        ≡ (Vector.sync_solutions same (view shared) offered 1 true).1)
sync_solutions-view_example = sync_solutions-view same 1 shared offered 1 true offered-IsSpread

sync_solutions-IsValid_example : IsValid 1 (sync_solutions same 1 shared offered 1 true).1
sync_solutions-IsValid_example = sync_solutions-IsValid same 1 shared offered 1 true shared-IsValid
