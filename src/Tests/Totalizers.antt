-- ===== src/Tests/Totalizers.antt =====
-- A concrete run of the iterative totalizer.
use dmeic.Prelude.{◌+◌, ◌-◌, ◌≡◌, refl, true, false, List, [], ◌∷◌, none, some, arith, All, drop}
use dmeic.Encoding.Solver.{Lit, Assignment, lit_true, mk_lit}
use dmeic.Encoding.Totalizer.{Node, iterative}
use dmeic.Encoding.Totalizer.Build.{Totalizer}
use dmeic.Encoding.Totalizer.Increment.{update}
use dmeic.Encoding.Totalizer.Increment.Nodes.{IsCounting, update-IsCounting}
use dmeic.Tests.Encodings.{list_sat, x0, x1}

abbrev outputs : List Lit
outputs = mk_lit 3 false ∷ mk_lit 4 false ∷ []

abbrev node : Node list_sat
node = record { left = x0 ∷ []; right = x1 ∷ []; output = outputs; bound = 0 }

abbrev totalizer : Totalizer list_sat
totalizer = record {
  solver = (5, []);
  nodes = node ∷ [];
  blocking = none;
  has_encoding = true;
  join_mode = true;
  ilits = x0 ∷ x1 ∷ [];
  inlits = [];
  outlits = outputs;
  incremental = iterative;
  current_rhs = 0;
  disable_lits = [];
}

abbrev all_on : Assignment
all_on v = true

node-IsCounting : IsCounting list_sat all_on node
node-IsCounting i j p q u v = let e : i + j - 1 ≡ 0 = omega arith in rw e refl

update-IsCounting_example :
    (t' : Totalizer list_sat) × (ls : List Lit) × (update list_sat totalizer 1 [] []
      ≡ some (t', ls))
    × All (λ n. n.bound ≡ 1) t'.nodes
    × (list_sat.holds t'.solver all_on ≡ true
        → (list_sat.holds totalizer.solver all_on ≡ true)
          × All (IsCounting list_sat all_on) t'.nodes)
    × (All (λ l. lit_true all_on l ≡ true) ls
        → All (λ l. lit_true all_on l ≡ false) (drop 1 totalizer.outlits))
update-IsCounting_example =
    update-IsCounting list_sat all_on totalizer 1 [] [] refl refl refl (node-IsCounting, tt)
