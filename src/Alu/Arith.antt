-- ===== src/Alu/Arith.antt =====
-- The adders of src/cpu/alu.cc against the integers that the words stand for.
use matar.Base.{ℕ, ◌+◌, ◌-◌, ◌*◌, ◌%◌, ◌^◌, ◌<◌, ltb, leb, to_nat, if◌then◌else◌}
use matar.Base.{◌||◌, Bool, true, ◌≡◌, arith}
use matar.Bits.{get_bit}
use matar.Alu.{Sum, add, sub, sbc}

-- An `int32_t` is its bit pattern, shifted up by 2 ^ 31: this keeps the order of the signed numbers
-- and has no sign. `biased w` is the signed reading of `w`, plus 2 ^ 31.
abbrev pub biased : ℕ → ℕ
biased w = if ltb w (2 ^ 31) then w + 2 ^ 31 else w - 2 ^ 31

-- A 32-bit addition with carry, of words: the value and the carry are the exact sum, the value read
-- as signed is the sum of the signed readings modulo 2 ^ 32, and the overflow flag tells whether that
-- sum leaves the range of `int32_t`.
record AddsExactly (a b c : ℕ) (r : Sum) : Type 0 where
  pub exact : r.value + to_nat r.carry * 2 ^ 32 ≡ a + b + c
  pub in_word : r.value < 2 ^ 32
  pub signed : biased r.value ≡ (biased a + biased b + c + 2 ^ 31) % 2 ^ 32
  pub overflows :
      r.overflow
      ≡ (ltb (biased a + biased b + c) (2 ^ 31) || leb (2 ^ 31 + 2 ^ 32) (biased a + biased b + c))

-- For all words and carries in, the sum that `add` returns is exact, unsigned and signed.
add-AddsExactly :
    (a b : ℕ) (c : Bool) → a < 2 ^ 32 → b < 2 ^ 32 → AddsExactly a b (to_nat c) (add a b c)
unfolding add get_bit
add-AddsExactly a b c ha hb = ground arith

-- On words, subtracting with carry is adding the complement, with the same carry in: value, carry
-- and overflow agree.
pub sbc-add_complement :
    (a b : ℕ) (c : Bool) → a < 2 ^ 32 → b < 2 ^ 32 → sbc a b c ≡ add a (2 ^ 32 - 1 - b) c
unfolding add sbc get_bit
sbc-add_complement a b c ha hb = ground arith

-- On words, subtracting is subtracting with the carry set: value, carry and overflow agree.
pub sub-sbc : (a b : ℕ) → a < 2 ^ 32 → b < 2 ^ 32 → sub a b ≡ sbc a b true
unfolding sub sbc get_bit
sub-sbc a b ha hb = ground arith
