-- ===== src/Alu.antt =====
-- src/cpu/alu.cc and include/cpu/alu.hh: the barrel shifter, the adders with their carry and
-- overflow, and the cycles of the multiplier. A `bool&` parameter is part of the result.
pub mod Arith
pub mod Shifter
pub mod Barrel
pub mod Cycles
mod Tests
use matar.Base.{ℕ, ◌+◌, ◌-◌, ◌*◌, ◌/◌, ◌%◌, ◌^◌, ◌==◌, ltb, leb, if◌then◌else◌, beq, to_nat}
use matar.Base.{Bool, true, false, not, ◌&&◌, ◌||◌, bit_and, bit_or, u32, u64, sub32}
use matar.Base.{◌<<<◌, ◌>>>◌}
use matar.Bits.{get_bit}

pub data ShiftType : Type 0 where
  lsl lsr asr ror : ShiftType

pub record ShiftData : Type 0 where
  pub type : ShiftType
  pub immediate : Bool
  pub operand : ℕ

pub record Shift : Type 0 where
  pub rm : ℕ
  pub data_of : ShiftData

pub record ImmediateRotate : Type 0 where
  pub value : ℕ
  pub rot : ℕ

-- `static_cast<int32_t>(value) >> amount` for an amount below 32, back as `uint32_t`: a negative
-- number fills with ones from the left.
abbrev pub asr32 : ℕ → ℕ → ℕ
asr32 value amount =
    if get_bit value 31 then (value >>> amount) + (2 ^ 32 - 2 ^ (32 - amount)) else value >>> amount

-- `std::rotr` on `uint32_t`.
abbrev pub rotr32 : ℕ → ℕ → ℕ
rotr32 value amount = let r = amount % 32 in bit_or (u32 (value <<< (32 - r))) (value >>> r)

eval_lsl : ℕ → ℕ → Bool → ℕ × Bool
eval_lsl value amount carry =
    if amount == 0
    then (value, carry)
    else if ltb amount 32
    then (u32 (value <<< amount), get_bit value (32 - amount))
    else if amount == 32
    then (0, get_bit value 0)
    else (0, false)

eval_lsr : Bool → ℕ → ℕ → Bool → ℕ × Bool
eval_lsr immediate value amount carry =
    if amount == 0
    then (if not immediate then (value, carry) else (0, get_bit value 31))
    else if ltb amount 32
    then (value >>> amount, get_bit value (amount - 1))
    else if amount == 32
    then (0, get_bit value 31)
    else (0, false)

eval_asr : Bool → ℕ → ℕ → Bool → ℕ × Bool
eval_asr immediate value amount carry =
    if amount == 0
    then (if not immediate
        then (value, carry)
        else ((if get_bit value 31 then 0xFFFFFFFF else 0), get_bit value 31))
    else if ltb amount 32
    then (asr32 value amount, get_bit value (amount - 1))
    else ((if get_bit value 31 then 0xFFFFFFFF else 0), get_bit value 31)

eval_ror : Bool → ℕ → ℕ → Bool → ℕ × Bool
eval_ror immediate value amount carry =
    if amount == 0
    then (if not immediate
        then (value, carry)
        else (bit_or (value >>> 1) (to_nat carry <<< 31), get_bit value 0))
    else if amount % 32 == 0
    then (value, get_bit value 31)
    else (rotr32 value amount, get_bit value (bit_and amount 31 - 1))

-- The result and the carry out.
unfoldable pub eval_shift : ShiftType → Bool → ℕ → ℕ → Bool → ℕ × Bool
unfolding eval_lsl eval_lsr eval_asr eval_ror
eval_shift lsl immediate value amount carry = eval_lsl value amount carry
eval_shift lsr immediate value amount carry = eval_lsr immediate value amount carry
eval_shift asr immediate value amount carry = eval_asr immediate value amount carry
eval_shift ror immediate value amount carry = eval_ror immediate value amount carry

-- What an addition or subtraction returns, with the flags that it sets.
pub record Sum : Type 0 where
  pub value : ℕ
  pub carry : Bool
  pub overflow : Bool

unfoldable pub sub : ℕ → ℕ → Sum
sub a b =
    let s1 = get_bit a 31 in
    let s2 = get_bit b 31 in
    let result = sub32 a b in
    record {
      value = result;
      carry = leb b a;
      overflow = not (beq s1 s2) && beq s2 (get_bit result 31);
    }

-- `result` is a `uint64_t`.
unfoldable pub add : ℕ → ℕ → Bool → Sum
add a b c =
    let s1 = get_bit a 31 in
    let s2 = get_bit b 31 in
    let result = u64 (a + b + to_nat c) in
    record {
      value = u32 result;
      carry = get_bit result 32;
      overflow = beq s1 s2 && not (beq s2 (get_bit result 31));
    }

unfoldable pub sbc : ℕ → ℕ → Bool → Sum
sbc a b c =
    let s1 = get_bit a 31 in
    let s2 = get_bit b 31 in
    let result = u64 (a + 2 ^ 64 - b - to_nat (not c)) in
    record {
      value = u32 result;
      carry = not (get_bit result 32);
      overflow = not (beq s1 s2) && beq s2 (get_bit result 31);
    }

unfoldable pub multiplier_array_cycles : ℕ → Bool → ℕ
multiplier_array_cycles x zeroes_only =
    if (not zeroes_only && (bit_and x 0xFFFFFF00 == 0xFFFFFF00)) || (bit_and x 0xFFFFFF00 == 0)
    then 1
    else if (not zeroes_only && (bit_and x 0xFFFF0000 == 0xFFFF0000)) || (bit_and x 0xFFFF0000 == 0)
    then 2
    else if (not zeroes_only && (bit_and x 0xFF000000 == 0xFF000000)) || (bit_and x 0xFF000000 == 0)
    then 3
    else 4
