-- ===== src/Dma/Control.antt =====
-- `DmaControl` of include/io/dma/registers.hh: the value is the word that was written without its
-- lowest bit, so a field stands one bit below its place in the register.
use matar.Base.{ℕ, Bool, false, ◌>>>◌, ◌<<<◌, flag, field, put_flag, u16}

pub data Timing : Type 0 where
  immediately vblank hblank special : Timing

unfoldable pub timing_number : Timing → ℕ
timing_number Timing.immediately = 0
timing_number Timing.vblank = 1
timing_number Timing.hblank = 2
timing_number Timing.special = 3

unfoldable pub dst_ctrl : ℕ → ℕ
dst_ctrl value = field 4 2 value

unfoldable pub src_ctrl : ℕ → ℕ
src_ctrl value = field 6 2 value

unfoldable pub repeat : ℕ → Bool
repeat value = flag 8 value

unfoldable pub transfer_32 : ℕ → Bool
transfer_32 value = flag 9 value

unfoldable pub timing : ℕ → ℕ
timing value = field 11 2 value

unfoldable pub irq_enable : ℕ → Bool
irq_enable value = flag 13 value

unfoldable pub enable : ℕ → Bool
enable value = flag 14 value

-- `value.enable = false`
unfoldable pub disable : ℕ → ℕ
disable value = put_flag 14 false value

unfoldable pub read : ℕ → ℕ
read value = u16 (value <<< 1)

unfoldable pub write : ℕ → ℕ
write raw = u16 (raw >>> 1)
