-- ===== src/Formula/Objective.antt =====
-- The class `PBObjFunction` of FormulaPB.h and FormulaPB.cc: an objective function with coefficients
-- of type `uint64_t` and a constant of type `int64_t`. Products and values are computed modulo
-- 2 ^ 64; the sums of coefficients in the loops of `evaluate`, `compute_sparse` and the constructor
-- are taken not to overflow. `_factor` is an `int64_t` to which no call gives a negative number.
pub mod Word
pub mod Factors
pub mod Values
pub mod Bounds
pub mod Sparse
pub mod Sum
use dmeic.Prelude.{
  ℕ, ◌+◌, ◌*◌, ◌/◌, suc, ◌==◌, Bool, true, false, not, List, [], ◌∷◌, ◌++◌, Option, none, some,
  if◌then◌else◌, ltb, leb, get_or, length, ◌&&◌, map,
}
use dmeic.Prelude.Int.{ℤ, pos, negsuc, ◌+ℤ◌, ◌-ℤ◌}
use dmeic.Encoding.Solver.{Lit, neg}
use dmeic.Formula.Pb.{Term}
use Factors.{common_factor}
use Word.{word, to_int64}

-- `lbool`
pub data Lbool : Type 0 where
  l_true : Lbool
  l_false : Lbool
  l_undef : Lbool

abbrev pub Model : Type 0
Model = List Lbool

-- `_coeffs` and `_lits`, which the code keeps in step, are `terms`; `_const` is `shift_by`.
pub record Objective : Type 0 where
  pub terms : List Term
  pub shift_by : ℤ
  pub factor : ℕ
  pub min_coeff : ℕ
  pub max_coeff : ℕ
  pub ub : ℕ
  pub lb : ℕ
  pub is_sparse : Bool

-- `PBObjFunction()`
unfoldable pub null_objective : Objective
null_objective = record {
  terms = [];
  shift_by = pos 0;
  factor = 1;
  min_coeff = 0;
  max_coeff = 0;
  ub = 0;
  lb = 0;
  is_sparse = false;
}

-- `addProduct(l, c)`: a negative coefficient is turned round.
unfoldable pub add_product : Objective → Lit → ℤ → Objective
add_product o l (pos c) = record o { terms = o.terms ++ record { coeff = c; lit = l } ∷ [] }
add_product o l (negsuc n) = record o {
  terms = o.terms ++ record { coeff = suc n; lit = neg l } ∷ [];
  shift_by = o.shift_by +ℤ negsuc n;
}

abbrev pub is_true : Lbool → Bool
is_true l_true = true
is_true l_false = false
is_true l_undef = false

abbrev is_false : Lbool → Bool
is_false l_true = false
is_false l_false = true
is_false l_undef = false

-- The test of `evaluate` on one literal.
unfoldable pub satisfied : Model → Lit → Bool
satisfied m l =
    if l.sign then is_false (get_or m l.var l_undef) else is_true (get_or m l.var l_undef)

-- The loop of `evaluate`; `none` is its assertion on a variable that the model does not have.
unfoldable pub sum_terms : Model → ℕ → List Term → Option ℕ
unfolding satisfied
sum_terms m res [] = some res
sum_terms m res (t ∷ ts) =
    let rest = sum_terms m (if satisfied m t.lit then res + t.coeff else res) ts in
    if ltb t.lit.var (length m) then rest else none

-- As the `uint64_t` that the callers make of it.
unfoldable pub scale : Objective → ℕ → ℕ
unfolding word
scale o lin = word (lin * o.factor)

-- The division of `int64_t`, towards 0; a factor of 0 is undefined in the code.
unfoldable pub quot : ℤ → ℕ → ℤ
quot (pos a) f = pos (a / f)
quot (negsuc a) f = pos 0 -ℤ pos (suc a / f)

unfoldable pub unscale : Objective → ℤ → ℤ
unfolding quot
unscale o aff = quot aff o.factor

unfoldable pub shift : Objective → ℕ → ℤ
unfolding to_int64
shift o lin = to_int64 (pos lin +ℤ o.shift_by)

-- The difference of two `int64_t` is undefined where it overflows; here it wraps round.
unfoldable pub unshift : Objective → ℤ → ℤ
unfolding to_int64
unshift o aff = to_int64 (aff -ℤ o.shift_by)

unfoldable pub normalize : Objective → ℤ → ℤ
unfolding quot to_int64
normalize o aff = quot (to_int64 (aff -ℤ o.shift_by)) o.factor

unfoldable pub denormalize : Objective → ℕ → ℤ
unfolding to_int64
denormalize o lin = to_int64 (pos (lin * o.factor) +ℤ o.shift_by)

-- The result of `evaluate`, of what its loop gives.
unfoldable pub answer : Objective → Bool → Option ℕ → Option ℤ
unfolding denormalize to_int64
answer o denorm none = none
answer o denorm (some res) = some (if denorm then denormalize o res else to_int64 (pos res))

-- `evaluate(model, denorm)`
unfoldable pub evaluate : Objective → Model → Bool → Option ℤ
unfolding sum_terms answer
evaluate o m denorm = answer o denorm (sum_terms m 0 o.terms)

-- `std::sort` of the coefficients, ascending.
unfoldable pub insert_sorted : ℕ → List ℕ → List ℕ
insert_sorted a [] = a ∷ []
insert_sorted a (b ∷ s) = let rest = insert_sorted a s in if leb a b then a ∷ b ∷ s else b ∷ rest

unfoldable pub sort : List ℕ → List ℕ
unfolding insert_sorted
sort [] = []
sort (a ∷ more) = insert_sorted a (sort more)

-- The loop of `compute_sparse` over the rest of the sorted coefficients.
unfoldable pub leaves_gap : ℕ → List ℕ → Bool
leaves_gap upper [] = false
leaves_gap upper (a ∷ more) =
    let rest = leaves_gap (upper + a) more in if leb a (upper + 1) then rest else true

unfoldable pub has_gap : List ℕ → Bool
unfolding leaves_gap
has_gap [] = false
has_gap (a ∷ more) = leaves_gap a more

abbrev pub coeffs : List Term → List ℕ
coeffs ts = map (λ t. t.coeff) ts

abbrev set_sparse : Objective → Bool → Bool × Objective
set_sparse o gap = (gap, record o { is_sparse = gap })

-- `compute_sparse()`: with no term nothing is stored, and the answer is true.
unfoldable pub compute_sparse : Objective → Bool × Objective
unfolding has_gap sort
compute_sparse o =
    if length o.terms == 0 then (true, o) else set_sparse o (has_gap (sort (coeffs o.terms)))

-- The division of every coefficient by the greatest common divisor in `factorize`.
unfoldable pub divide_terms : ℕ → List Term → List Term
divide_terms g [] = []
divide_terms g (t ∷ ts) = record { coeff = t.coeff / g; lit = t.lit } ∷ divide_terms g ts

unfoldable pub divided : Objective → ℕ → Objective
unfolding divide_terms word
divided o g = record o {
  terms = divide_terms g o.terms;
  factor = word (o.factor * g);
  ub = o.ub / g;
  lb = o.lb / g;
  max_coeff = o.max_coeff / g;
  min_coeff = o.min_coeff / g;
}

-- The end of `factorize`.
unfoldable pub divide_by : Objective → Option ℕ → Bool × Objective
unfolding divided
divide_by o none = (false, o)
divide_by o (some g) = if g == 1 then (false, o) else (true, divided o g)

-- `factorize()`, where `common_factor` is none when it returns early.
unfoldable pub factorize : Objective → Bool × Objective
unfolding common_factor divide_by
factorize o = divide_by o (common_factor (coeffs o.terms))

-- The bounds that the constructor computes in its loop, from the first coefficient on.
pub record Extent : Type 0 where
  pub least : ℕ
  pub greatest : ℕ
  pub sum : ℕ

unfoldable pub extend : Extent → List ℕ → Extent
extend e [] = e
extend e (a ∷ more) =
    extend
      (record {
        least = if ltb a e.least then a else e.least;
        greatest = if ltb e.greatest a then a else e.greatest;
        sum = if ltb 0 a then e.sum + a else e.sum;
      })
      more

unfoldable pub extent : List ℕ → Extent
unfolding extend
extent [] = record { least = 0; greatest = 0; sum = 0 }
extent (a ∷ more) = extend (record { least = a; greatest = a; sum = if ltb 0 a then a else 0 }) more

-- The object before the constructor calls `factorize`; a coefficient, which is unsigned, never lowers
-- `_lb`.
unfoldable pub raw : List Term → ℤ → ℕ → Objective
unfolding extent word
raw ts c factor =
    let e = extent (coeffs ts) in
    record {
      terms = ts;
      shift_by = c;
      factor = factor;
      min_coeff = e.least;
      max_coeff = e.greatest;
      ub = word (e.sum * factor);
      lb = 0;
      is_sparse = false;
    }

-- `PBObjFunction(lits, coeffs, c, factor)`
unfoldable pub objective : List Term → ℤ → ℕ → Objective
unfolding raw factorize compute_sparse
objective ts c factor = (compute_sparse (factorize (raw ts c factor)).1).1

-- `PBObjFunction(PBObjFunction &&other)`, the new object: `_sparse` is read after it was reset.
unfoldable pub moved : Objective → Objective
moved o = record o { is_sparse = false }

-- The order of literals by which `std::map` keeps them.
abbrev pub index : Lit → ℕ
index l = if l.sign then l.var * 2 + 1 else l.var * 2

-- `terms[l] += c`
unfoldable pub add_to : Lit → ℕ → List Term → List Term
unfolding word
add_to l c [] = record { coeff = c; lit = l } ∷ []
add_to l c (t ∷ ts) =
    let rest = add_to l c ts in
    if index l == index t.lit
    then record t { coeff = word (t.coeff + c) } ∷ ts
    else if ltb (index l) (index t.lit)
    then record { coeff = c; lit = l } ∷ t ∷ ts
    else t ∷ rest

-- The loop of `add` over the terms of one function.
unfoldable pub gather : ℕ → List Term → List Term → List Term
unfolding add_to word
gather factor acc [] = acc
gather factor acc (t ∷ ts) = gather factor (add_to t.lit (word (t.coeff * factor)) acc) ts

-- `add(pb, pbb)`; the constants are read without the test for a null pointer, which is undefined.
unfoldable pub add : Option Objective → Option Objective → Option Objective
unfolding gather objective to_int64
add none b = none
add (some a) none = none
add (some a) (some b) = some (
    objective (gather b.factor (gather a.factor [] a.terms) b.terms)
      (to_int64 (a.shift_by +ℤ b.shift_by)) 1)
