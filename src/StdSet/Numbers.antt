-- ===== src/StdSet/Numbers.antt =====
-- `std::set<uint64_t>`
use dmeic.Prelude.{ℕ, ◌≡◌, true, false, arith, ltb}
use dmeic.StdSet.{Ordered}

pub ltb_irrefl : (a : ℕ) → ltb a a ≡ false
ltb_irrefl a = ground arith

pub ltb_connex : (a b : ℕ) → ltb a b ≡ false → ltb b a ≡ false → a ≡ b
ltb_connex a b h k = ground arith

pub ltb_trans : (a b c : ℕ) → ltb a b ≡ true → ltb b c ≡ true → ltb a c ≡ true
ltb_trans a b c h k = ground arith

instance abbrev pub number_ordered : Ordered ℕ
number_ordered = record {
  before = ltb;
  irrefl = ltb_irrefl;
  connex = ltb_connex;
  trans = ltb_trans;
}
