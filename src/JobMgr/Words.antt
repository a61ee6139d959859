-- ===== src/JobMgr/Words.antt =====
-- Whole numbers in place of floats.
use pop_cpp.Base.{ℕ, ◌+◌, ◌-◌, ◌%◌, ◌/◌, ◌^◌, ltb, leb, arith}
use pop_cpp.Base.Int.{ℤ, pos, negsuc}
use pop_cpp.Base.Floats.{Floats, IsOrdered}

abbrev whole : ℤ → ℕ
whole (pos n) = n % 2 ^ 32
whole (negsuc n) = 0

abbrev pub words : Floats
words = record {
  add = λ a b. (a + b) % 2 ^ 32;
  sub = λ a b. (a + (2 ^ 32 - b % 2 ^ 32)) % 2 ^ 32;
  div = λ a b. a / b;
  less = ltb;
  le = leb;
  nought = 0;
  one = 1;
  of_int = whole;
}

pub words-IsOrdered : IsOrdered words
words-IsOrdered = record {
  less_asym = λ a b h. ground arith;
  le_of_less = λ a b h. ground arith;
  le_of_not_less = λ a b h. ground arith;
  le_refl = λ a. ground arith;
  le_of_not_le = λ a b h. ground arith;
  le_trans = λ a b c h k. ground arith;
}
