-- ===== src/Memory.antt =====
-- `Memory<N>` of include/memory.hh: bytes with a size. `memcpy` reads the lowest byte of a value first,
-- as on the hosts the program is built for. An index past the end has no defined result in the
-- source; here it reads the byte that the function has there, and `fits` of Memory/ReadBack tells
-- the accesses that stay inside.
pub mod ReadBack
use matar.Base.{ℕ, ◌+◌, ◌*◌, ◌^◌, put, u8, u16, ◌>>>◌, ◌==◌, if◌then◌else◌}

pub record Memory : Type 0 where
  pub size : ℕ
  pub byte_at : ℕ → ℕ

unfoldable pub read_byte : ℕ → Memory → ℕ
read_byte idx m = u8 (m.byte_at idx)

unfoldable pub write_byte : ℕ → ℕ → Memory → Memory
write_byte idx byte m = record m { byte_at = put m.byte_at idx byte }

unfoldable pub read_halfword : ℕ → Memory → ℕ
read_halfword idx m = read_byte idx m + read_byte (idx + 1) m * 2 ^ 8

unfoldable pub write_halfword : ℕ → ℕ → Memory → Memory
write_halfword idx halfword m =
    write_byte (idx + 1) (u8 (halfword >>> 8)) (write_byte idx (u8 halfword) m)

unfoldable pub read_word : ℕ → Memory → ℕ
read_word idx m = read_halfword idx m + read_halfword (idx + 2) m * 2 ^ 16

unfoldable pub write_word : ℕ → ℕ → Memory → Memory
write_word idx word m =
    write_halfword (idx + 2) (u16 (word >>> 16)) (write_halfword idx (u16 word) m)
