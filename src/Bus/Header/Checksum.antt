-- ===== src/Bus/Header/Checksum.antt =====
-- The checksum of a cartridge header: src/bus.cc.
use matar.Base.{ℕ, zero, suc, ◌+◌, ◌-◌, ◌%◌, ◌^◌, ◌≡◌, ◌↔◌, true, arith, u32, ==_iff}
use matar.Memory.{Memory, read_byte}
use matar.Memory.ReadBack.{read_byte-lt}
use matar.Bus.Header.{subtract_bytes, checksum, has_checksum}

pub sum_bytes : ℕ → ℕ → Memory → ℕ
sum_bytes zero i rom = 0
sum_bytes (suc n) i rom = read_byte i rom + sum_bytes n (i + 1) rom

subtract_bytes-sum :
    (n i chk : ℕ) (rom : Memory)
    → (subtract_bytes n i chk rom + sum_bytes n i rom) % 2 ^ 32 ≡ chk % 2 ^ 32
unfolding subtract_bytes sum_bytes
subtract_bytes-sum zero i chk rom = omega arith
subtract_bytes-sum (suc n) i chk rom = omega (
  arith,
  read_byte-lt i rom,
  subtract_bytes-sum n (i + 1) (u32 (chk + 2 ^ 32 - read_byte i rom)) rom,
)

-- The checksum is right exactly when the bytes from 0xA0 to 0xBD and 0x19 add up to a multiple of 256.
pub has_checksum-sum :
    (rom : Memory)
    → (has_checksum rom ≡ true) ↔ ((sum_bytes 29 0xA0 rom + read_byte 0xBD rom + 0x19) % 2 ^ 8 ≡ 0)
unfolding has_checksum checksum
has_checksum-sum rom =
    let sum = subtract_bytes-sum 29 0xA0 0 rom in
    let small = read_byte-lt 0xBD rom in
    let test = ==_iff (checksum rom) (read_byte 0xBD rom) in
    (λ e. omega (arith, sum, small, test.0 e), λ e. test.1 (omega (arith, sum, small, e)))
