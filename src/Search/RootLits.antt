-- ===== src/Search/RootLits.antt =====
-- The class `RootLits` of encodings/RootLits.h: for each value that an objective function takes, the
-- variable that says the function is below it. And the functions of algorithms/Alg_PBtoCNF.cc that
-- block and assume a region by these variables.
pub mod Sums
pub mod Regions
pub mod Assumed
use dmeic.Prelude.{
  ℕ, zero, suc, ◌+◌, ◌%◌, ◌^◌, Bool, false, List, [], ◌∷◌, ◌++◌, Option, none, some, ltb, leb,
  length, get_elem?, drop, map, if◌then◌else◌, ◌&&◌,
}
use dmeic.Point.{YPoint}
use dmeic.StdSet.{Ordered, insert}
use dmeic.Encoding.Solver.{Lit, mk_lit, neg, Sat}
use dmeic.StdSet.Numbers.{number_ordered}

-- `value_t`
pub record Root : Type 0 where
  pub key : ℕ
  pub lit : Lit

abbrev pub RootLits : Type 0
RootLits = List Root

abbrev pub sentinel : Root
sentinel = record { key = 0; lit = mk_lit 0 false }

unfoldable pub new_root_lits : RootLits
new_root_lits = sentinel ∷ []

unfoldable pub push : RootLits → Root → RootLits
push r v = r ++ v ∷ []

-- `insert(n, p)`, which puts `p` at the end whatever `n` is.
unfoldable pub insert_at : RootLits → ℕ → Root → RootLits
insert_at r n p = r ++ p ∷ []

unfoldable pub clear : RootLits → RootLits
clear r = sentinel ∷ []

-- `at(i)`; `none` is `std::out_of_range`.
unfoldable pub at_index : RootLits → ℕ → Option Root
at_index r i = get_elem? r i

-- What `begin()` and `end()` delimit.
abbrev pub body : RootLits → List Root
body r = drop 1 r

-- `at_key(val)`: what is left from the first key that is not below `val` on.
unfoldable pub at_key : RootLits → ℕ → List Root
at_key [] val = []
at_key (r ∷ rs) val = let rest = at_key rs val in if ltb r.key val then rest else r ∷ rs

-- The loop of `orderEncoding` from `prev` on.
unfoldable pub order_loop : (sat : Sat) → sat.Solver → Root → List Root → sat.Solver
order_loop sat s prev [] = s
order_loop sat s prev (r ∷ rs) = order_loop sat (sat.add_clause s (neg prev.lit ∷ r.lit ∷ [])) r rs

unfoldable pub order_encoding : (sat : Sat) → sat.Solver → RootLits → sat.Solver
unfolding order_loop
order_encoding sat s [] = s
order_encoding sat s (first ∷ []) = s
order_encoding sat s (first ∷ r ∷ rs) = order_loop sat s r rs

-- `for (auto &el : l_res) result.insert(first + el)`
unfoldable pub insert_all : ℕ → List ℕ → List ℕ → List ℕ
unfolding insert
insert_all first [] result = result
insert_all first (el ∷ els) result = insert_all first els (insert (first + el) result).0

-- `allSums(beg, end, result)`, of the numbers from `beg` to `end`.
unfoldable pub all_sums : List ℕ → List ℕ → List ℕ
unfolding insert_all insert
all_sums [] result = result
all_sums (first ∷ rest) result =
    let l_res = all_sums rest result in insert_all first l_res (insert first l_res).0

-- The loop of `blockDominatedRegion(yp)`: how many keys, from the first one on, are at most `y`.
unfoldable pub count_keys : ℕ → List Root → ℕ
count_keys y [] = 0
count_keys y (r ∷ rs) = let rest = count_keys y rs in if leb r.key y then suc rest else 0

-- One round of the loop of `blockDominatedRegion(objix, nObj)`: the literal at an index above 0.
unfoldable pub lit_at : RootLits → ℕ → List Lit
lit_at root zero = []
lit_at root (suc j) = elim (get_elem? root (suc j)) [ none ↦ [] | some r ↦ r.lit ∷ [] ]

unfoldable pub block_lits : List RootLits → YPoint → List Lit
unfolding count_keys lit_at
block_lits [] yp = []
block_lits (root ∷ roots) [] = []
block_lits (root ∷ roots) (y ∷ yp) = lit_at root (count_keys y (body root)) ++ block_lits roots yp

-- `blockDominatedRegion(yp)`
unfoldable pub block_dominated_region :
    (sat : Sat) → sat.Solver → List RootLits → YPoint → sat.Solver
unfolding block_lits
block_dominated_region sat s roots yp = sat.add_clause s (block_lits roots yp)

-- The loop of `evalToIndex(yp, objix, objRootLits)` from the index `i` on, where `objix` is the value
-- so far.
unfoldable pub index_loop : ℕ → ℕ → ℕ → List Root → ℕ
index_loop y i objix [] = objix
index_loop y i objix (r ∷ rs) =
    let rest = index_loop y (suc i) i rs in if leb r.key ((y + 1) % 2 ^ 64) then rest else objix

unfoldable pub eval_to_index : ℕ → RootLits → ℕ
unfolding index_loop
eval_to_index y root = index_loop y 1 0 (body root)

-- `assumeDominatingRegion(yp)`: what it adds to the assumptions.
unfoldable pub assume_lits : List RootLits → YPoint → List Lit
unfolding eval_to_index lit_at
assume_lits [] yp = []
assume_lits (root ∷ roots) [] = []
assume_lits (root ∷ roots) (y ∷ yp) =
    let j = eval_to_index y root in
    (if ltb 0 j && ltb j (length root) then lit_at root j else []) ++ assume_lits roots yp
