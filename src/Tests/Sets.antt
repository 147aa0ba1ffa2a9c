-- ===== src/Tests/Sets.antt =====
-- Concrete runs of the point sets, the archive and the waiting lists.
use dmeic.Prelude.{
  ◌+◌, ◌<◌, ◌≤◌, ◌≡◌, refl, inl, inr, ◌↔◌, true, false, ◌||◌, List, [], ◌∷◌, ◌++◌, some, arith,
  if◌then◌else◌, length, In, All, Any,
}
use dmeic.Point.{YPoint, dominates, wdominates}
use dmeic.Point.Volume.{box, word, hv_shift, hv_shift-exact}
use dmeic.StdSet
use dmeic.StdSet.{point_ordered}
use dmeic.ThinSet.{Gap, gap_ordered}
use dmeic.ThinSet.History.{thin_inserts, IsMinimal, thin_inserts-frontier}
use dmeic.Archive.{
  Saved, LowerBound, filter_saved, save_efficient_sol, bounds_above, update_lower_bound_set,
}
use dmeic.Archive.Points.{IsFront, save_efficient_sol-IsFront}
use dmeic.Archive.Positions.{IsIndexed, save_efficient_sol-stale}
use dmeic.Archive.Bounds.{IsLayered, update_lower_bound_set-IsLayered}
use dmeic.WaitingList.Priority.{Order, Entry, less}
use dmeic.WaitingList.Queue
use dmeic.WaitingList.Queue.{Queue}
use dmeic.WaitingList.Queue.Report.{report, report-empty}
use dmeic.WaitingList.Stack.{Stack, insert_and_prune, insert_and_prune-IsFence, IsFence, Reaches}
use dmeic.WaitingList.Best
use dmeic.WaitingList.Best.{Best}
use dmeic.WaitingList.PriorityQueue.{PriorityQueue, Pop}
use dmeic.WaitingList.PriorityQueue.Refines.{Matches, pop-Matches}
use dmeic.Point.Dominator.{dominator, dominator-greatest}
use mathlib.Core.List.Perm
use dmeic.WaitingList.Best.Greatest.{IsBest}

abbrev low : YPoint
low = 1 ∷ 2 ∷ []

abbrev side : YPoint
side = 2 ∷ 1 ∷ []

abbrev high : YPoint
high = 3 ∷ 3 ∷ []

thin_inserts-frontier_example :
    In low (thin_inserts false (high ∷ low ∷ side ∷ []))
    ↔ IsMinimal false (high ∷ low ∷ side ∷ []) low
thin_inserts-frontier_example = thin_inserts-frontier false (high ∷ low ∷ side ∷ []) low

low_gap : Gap
low_gap = (high, low)

abbrev gap_key : Gap → YPoint
gap_key g = g.1

hv_shift-exact_example : hv_shift low high ≡ (if dominates low high then box low high else 0)
unfolding box
hv_shift-exact_example = hv_shift-exact low high small
  where
    small : box low high < word
    small = omega arith

abbrev saved_one : List Saved
saved_one =
    record { point = high; model = true ∷ []; position = 0 }
    ∷ record { point = 0 ∷ 9 ∷ []; model = false ∷ []; position = 1 }
    ∷ []

save_efficient_sol-IsFront_example :
    IsFront (
      save_efficient_sol 2 1
        (record { point = high; model = true ∷ []; position = 0 } ∷ [])
        (true ∷ [])
        low
        true)
    × ((s : Saved)
        → In s (record { point = high; model = true ∷ []; position = 0 } ∷ [])
        → Any
            (λ t. dominates t.point s.point ≡ true)
            (save_efficient_sol 2 1
              (record { point = high; model = true ∷ []; position = 0 } ∷ [])
              (true ∷ [])
              low
              true))
    × Any
        (λ t. dominates t.point low ≡ true)
        (save_efficient_sol 2 1
          (record { point = high; model = true ∷ []; position = 0 } ∷ [])
          (true ∷ [])
          low
          true)
save_efficient_sol-IsFront_example =
    save_efficient_sol-IsFront 2 1 (record { point = high; model = true ∷ []; position = 0 } ∷ [])
      (true ∷ []) low refl (refl, tt) single
  where
    single : IsFront (record { point = high; model = true ∷ []; position = 0 } ∷ [])
    single s t (inl es) (inl et) h = rw (es, et)
    single s t (inl es) (inr mt) h = elim mt [ ]
    single s t (inr ms) mt h = elim ms [ ]

abbrev last_saved : Saved
last_saved = record { point = 0 ∷ 9 ∷ []; model = false ∷ []; position = 1 }

abbrev first_saved : List Saved
first_saved = record { point = high; model = true ∷ []; position = 0 } ∷ []

save_efficient_sol-stale_example :
    ¬ IsIndexed 0 (save_efficient_sol 2 1 (first_saved ++ last_saved ∷ []) (true ∷ []) low true)
unfolding filter_saved wdominates
save_efficient_sol-stale_example =
    save_efficient_sol-stale 2 1 first_saved last_saved (true ∷ []) low (refl, (refl, tt)) stays
      dropped
  where
    stays : In last_saved (filter_saved 2 low (first_saved ++ last_saved ∷ [])).0
    stays = inl refl

    dropped :
        length (filter_saved 2 low (first_saved ++ last_saved ∷ [])).0
        < length (first_saved ++ last_saved ∷ [])
    dropped = omega arith

abbrev bounds : List LowerBound
bounds = record { point = high; iteration = 3 } ∷ []

update_lower_bound_set-IsLayered_example :
    (((update_lower_bound_set 2 bounds low true 3).1 ≡ true)
      ↔ All (λ b. bounds_above 2 low 3 b ≡ false) bounds)
    × All (λ b. 3 ≤ b.iteration + 1) (update_lower_bound_set 2 bounds low true 3).0
    × IsLayered 2 (update_lower_bound_set 2 bounds low true 3).0
update_lower_bound_set-IsLayered_example =
    update_lower_bound_set-IsLayered 2 bounds low 3 refl single
  where
    single : IsLayered 2 bounds
    single a b (inl ea) (inl eb) i h = rw (ea, eb)
    single a b (inl ea) (inr mb) i h = elim mb [ ]
    single a b (inr ma) mb i h = elim ma [ ]

abbrev pending : Stack
pending = record {
  stack = low ∷ [];
  set = low ∷ [];
  max_size = 1;
  popped = [];
  prune_insertions = 0;
  engulfed_fences_discarded = 0;
  pending_fences_pruned = 0;
}

insert_and_prune-IsFence_example :
    IsFence (insert_and_prune pending high false).stack
    × ((q : YPoint) → In q pending.stack → Reaches (insert_and_prune pending high false).stack q)
    × (((StdSet.insert high pending.set).1 || false) ≡ true
        → Reaches (insert_and_prune pending high false).stack high)
insert_and_prune-IsFence_example = insert_and_prune-IsFence pending high false single
  where
    single : IsFence pending.stack
    single a b (inl ea) (inl eb) h = rw (ea, eb)
    single a b (inl ea) (inr mb) h = elim mb [ ]
    single a b (inr ma) mb h = elim ma [ ]

abbrev by_least : Order
by_least = record { lower = true; ascend = true; least = 0 ∷ 0 ∷ []; greatest = 9 ∷ 9 ∷ [] }

abbrev low_entry : Entry
low_entry = record { point = low; count = 0 }

abbrev high_entry : Entry
high_entry = record { point = high; count = 2 }

abbrev two_entries : Best
two_entries = record {
  list = low_entry ∷ high_entry ∷ [];
  set = low ∷ high ∷ [];
  max_size = 2;
  popped = [];
  popped_count = 0;
}

two_entries-IsBest : IsBest by_least two_entries.list
unfolding less
two_entries-IsBest = (refl, tt)

abbrev two_queued : PriorityQueue
two_queued = record {
  queue = high_entry ∷ low_entry ∷ [];
  set = low ∷ high ∷ [];
  max_size = 2;
  popped = [];
  popped_count = 0;
}

two_entries-Matches : Matches by_least two_entries two_queued
two_entries-Matches = record {
  best = two_entries-IsBest;
  entries = Perm.swap _ _ [];
  seen = refl;
  last = refl;
  last_count = refl;
}

pop-Matches_example :
    (b' : Best) × (q' : PriorityQueue) × (Best.pop by_least two_entries ≡ some (low, b'))
    × Pop by_least two_queued low q'
    × Matches by_least b' q'
pop-Matches_example =
    pop-Matches by_least two_entries two_queued low_entry (high_entry ∷ []) refl two_entries-Matches

dominator-greatest_example :
    All (λ q. dominates (dominator 2 (low ∷ side ∷ [])) q ≡ true) (low ∷ side ∷ [])
    × ((r : YPoint)
        → All (λ q. dominates r q ≡ true) (low ∷ side ∷ [])
        → dominates r (dominator 2 (low ∷ side ∷ [])) ≡ true)
dominator-greatest_example = dominator-greatest 2 low (side ∷ []) (refl, tt)

abbrev one_queued : Queue
one_queued = record { queue = low ∷ []; set = low ∷ []; max_size = 1; popped = [] }

report-empty_example : (report one_queued).queue ≡ []
report-empty_example = report-empty one_queued valid
  where
    valid : Queue.IsValid one_queued
    valid = record { seen = (inl refl, tt); ascending = (tt, tt); bounded = omega arith }
