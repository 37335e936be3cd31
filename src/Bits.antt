-- ===== src/Bits.antt =====
-- src/util/bits.hh: single bits and bit ranges of words.
-- The templates are instantiated at unsigned widths; `w` is the number of bits of `Int`.
pub mod Laws
use matar.Base.{ℕ, ◌+◌, ◌-◌, ◌*◌, ◌/◌, ◌%◌, ◌^◌, ◌==◌, Bool, bit_and, bit_or, bit_not}
use matar.Base.{◌<<<◌, ◌>>>◌, to_nat}

unfoldable pub get_bit : ℕ → ℕ → Bool
get_bit num n = (num >>> n) % 2 == 1

unfoldable pub set_bit : ℕ → ℕ → ℕ
set_bit num n = bit_or num (1 <<< n)

unfoldable pub rst_bit : ℕ → ℕ → ℕ → ℕ
rst_bit w num n = bit_and num (bit_not w (1 <<< n))

unfoldable pub chg_bit : ℕ → ℕ → ℕ → Bool → ℕ
chg_bit w num n x = bit_or (bit_and num (bit_not w (1 <<< n))) (to_nat x <<< n)

-- Bits `first` to `last`, both included. The shift to the left is cut to the width, so it drops
-- what stands above `last`.
unfoldable pub bit_range : ℕ → ℕ → ℕ → ℕ → ℕ
bit_range w num first last = let left = w - 1 - last in ((num <<< left) % 2 ^ w) >>> (left + first)
