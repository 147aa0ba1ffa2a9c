-- ===== src/Formula/Objective/Factors.antt =====
-- The greatest common divisor that `PBObjFunction::factorize` (FormulaPB.h) takes out of the
-- coefficients: the divisors of the largest one by trial division, then for each of them the
-- least exponent among the coefficients. The divisor is multiplied up in `double`.
pub mod Double
pub mod Trial
pub mod Powers
pub mod Gcd
use dmeic.Prelude.{
  ℕ, zero, suc, ◌+◌, ◌*◌, ◌/◌, ◌%◌, ◌^◌, ◌==◌, Bool, List, [], ◌∷◌, Option, none, some,
  if◌then◌else◌, ltb, leb,
}

-- An entry of the map `factors`.
pub record Factor : Type 0 where
  pub base : ℕ
  pub count : ℕ

-- `factors[d]++`; the loop meets the divisors in ascending order, so that the entry is the last one.
unfoldable pub bump : ℕ → List Factor → List Factor
bump d [] = record { base = d; count = 1 } ∷ []
bump d (f ∷ fs) =
    let rest = bump d fs in
    if f.base == d then record { base = d; count = suc f.count } ∷ fs else f ∷ rest

-- `while (d * d <= cur)`; the fuel is the number of iterations. `d * d` stays below 2 ^ 64 for a
-- coefficient below 2 ^ 63.
unfoldable pub trial_loop : (fuel cur d : ℕ) → List Factor → Option (List Factor)
unfolding bump
trial_loop zero cur d fs = none
trial_loop (suc n) cur d fs =
    let divided = trial_loop n (cur / d) d (bump d fs) in
    let next = trial_loop n cur (suc d) fs in
    if leb (d * d) cur then (if cur % d == 0 then divided else next) else some (bump cur fs)

-- `while (n < factor.second && cur % factor.first == 0)`, from `n` on, with `left` further steps
-- until the count is reached.
unfoldable pub exponent : (left n base cur : ℕ) → ℕ
exponent zero n base cur = n
exponent (suc left) n base cur =
    let more = exponent left (suc n) base (cur / base) in if cur % base == 0 then more else n

unfoldable pub lower_counts : ℕ → List Factor → List Factor
unfolding exponent
lower_counts c [] = []
lower_counts c (f ∷ fs) =
    record { base = f.base; count = exponent f.count 0 f.base c } ∷ lower_counts c fs

-- The loop over the set of coefficients; a coefficient that occurs twice changes nothing.
unfoldable pub lower_all : List ℕ → List Factor → List Factor
unfolding lower_counts
lower_all [] fs = fs
lower_all (c ∷ cs) fs = lower_all cs (lower_counts c fs)

-- The multiple of `unit` that is nearest to a number; between two of them the even one.
unfoldable pub round_to : (unit n : ℕ) → ℕ
round_to unit n =
    let below = n / unit * unit in
    let twice = 2 * (n % unit) in
    if ltb twice unit
    then below
    else if ltb unit twice
    then below + unit
    else if n / unit % 2 == 0
    then below
    else below + unit

-- The distance of the numbers of type `double` around `n`, which have 53 binary digits.
unfoldable pub spacing : (fuel unit n : ℕ) → ℕ
spacing zero unit n = unit
spacing (suc fuel) unit n =
    let wider = spacing fuel (2 * unit) n in if ltb n (2 ^ 53 * unit) then unit else wider

-- A number as a `double`. It is at most the product of two numbers of 64 bits: the distance is then
-- found within 80 steps.
unfoldable pub to_double : ℕ → ℕ
unfolding round_to spacing
to_double n = round_to (spacing 80 1 n) n

-- `gcd *= pow(factor.first, factor.second)`: the arguments are made `double`, the power and its
-- product with `gcd` are rounded, as IEEE 754 asks of a product and taken for `pow`, and the result is
-- made `uint64_t` again, which is undefined from 2 ^ 64 on.
unfoldable pub product : ℕ → List Factor → ℕ
unfolding to_double
product gcd [] = gcd
product gcd (f ∷ fs) =
    product (to_double (to_double gcd * to_double (to_double f.base ^ f.count))) fs

-- `*coeffs.rbegin()`
unfoldable pub largest : List ℕ → ℕ
largest [] = 0
largest (a ∷ more) = let m = largest more in if ltb m a then a else m

-- What follows the trial division of `cur`.
unfoldable pub finish : ℕ → List ℕ → Option (List Factor) → Option ℕ
unfolding lower_all product
finish cur cs none = none
finish cur cs (some fs) = if cur == 1 then none else some (product 1 (lower_all cs fs))

-- `trial_loop` is given `cur + 2` iterations, since each lowers `cur` or raises `d`. The test for a
-- largest coefficient of 1 stands before the loop, which then changes nothing.
unfoldable pub common_factor : List ℕ → Option ℕ
unfolding trial_loop largest finish
common_factor [] = none
common_factor (a ∷ rest) =
    let cur = largest (a ∷ rest) in finish cur (a ∷ rest) (trial_loop (suc (suc cur)) cur 2 [])
