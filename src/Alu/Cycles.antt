-- ===== src/Alu/Cycles.antt =====
-- How long the multiplier of src/cpu/alu.cc works on an operand.
use matar.Base.{ℕ, ◌+◌, ◌*◌, ◌^◌, ◌<◌, Bool, ◌≡◌, arith, not}
use matar.Base.{ltb, leb, bit_and_high, ◌&&◌, ◌||◌, if◌then◌else◌}
use matar.Alu.{multiplier_array_cycles}

-- The operand fits `k` bytes: as an unsigned number, or, unless only zeroes count, as a signed one
-- whose upper bits are all ones.
abbrev pub fits : ℕ → Bool → ℕ → Bool
fits x zeroes_only k = ltb x (2 ^ (8 * k)) || (not zeroes_only && leb (2 ^ 32) (x + 2 ^ (8 * k)))

-- The least number of bytes that the operand fits, at most 4.
abbrev pub least_bytes : ℕ → Bool → ℕ
least_bytes x zeroes_only =
    if fits x zeroes_only 1
    then 1
    else if fits x zeroes_only 2
    then 2
    else if fits x zeroes_only 3
    then 3
    else 4

-- On every word the multiplier takes as many cycles as the least number of bytes that hold its
-- operand, where the bytes above are all zeroes, or all ones unless only zeroes count.
pub multiplier_array_cycles-least_bytes :
    (x : ℕ) (zeroes_only : Bool)
    → x < 2 ^ 32
    → multiplier_array_cycles x zeroes_only ≡ least_bytes x zeroes_only
unfolding multiplier_array_cycles
multiplier_array_cycles-least_bytes x z h = ground (
  arith,
  bit_and_high 8 24 x (omega arith),
  bit_and_high 16 16 x (omega arith),
  bit_and_high 24 8 x (omega arith),
)
