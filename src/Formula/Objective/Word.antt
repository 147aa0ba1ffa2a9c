-- ===== src/Formula/Objective/Word.antt =====
-- The numbers of 64 bits that `PBObjFunction` (FormulaPB.h) computes with.
use dmeic.Prelude.{ℕ, ◌-◌, ◌%◌, ◌^◌, ◌≤◌, ◌<◌, ◌≡◌, arith, ltb, if◌then◌else◌}
use dmeic.Prelude.Int.{ℤ, pos, negsuc, ◌≤ℤ◌}

-- A number made `uint64_t`.
unfoldable pub word : ℕ → ℕ
word n = n % 2 ^ 64

-- The `int64_t` with the bits of a `uint64_t`.
unfoldable pub signed : ℕ → ℤ
signed w = if ltb w (2 ^ 63) then pos w else negsuc (2 ^ 64 - 1 - w)

-- A number made `int64_t`.
unfoldable pub to_int64 : ℤ → ℤ
unfolding signed
to_int64 (pos n) = signed (n % 2 ^ 64)
to_int64 (negsuc n) = signed (2 ^ 64 - 1 - n % 2 ^ 64)

-- The numbers that `int64_t` has.
abbrev pub IsInt64 : ℤ → Type 0
IsInt64 z = (negsuc (2 ^ 63 - 1) ≤ℤ z) × (z ≤ℤ pos (2 ^ 63 - 1))

pub word-small : (n : ℕ) → n < 2 ^ 64 → word n ≡ n
unfolding word
word-small n h = omega (arith, h)

pub word-le : (n : ℕ) → word n ≤ n
unfolding word
word-le n = omega arith

pub to_int64-fits : (z : ℤ) → IsInt64 z → to_int64 z ≡ z
unfolding to_int64 signed
to_int64-fits (pos n) h = ground (arith, h)
to_int64-fits (negsuc n) h = ground (arith, h)

pub to_int64-le : (n : ℕ) → to_int64 (pos n) ≤ℤ pos n
unfolding to_int64 signed
to_int64-le n = ground arith
