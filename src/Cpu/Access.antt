-- ===== src/Cpu/Access.antt =====
-- How the processor goes through the bus: the private readers and writers of include/cpu/cpu.hh,
-- which align the address, and the internal cycle.
use matar.Base.{ℕ, zero, suc, ◌*◌, bit_and, bit_not}
use matar.Alu.{rotr32}
use matar.BusApi.{Bus, CpuAccess}
use matar.Cpu.State.{Cpu, Machine, view}

-- `~0b1` and `~0b11` on an address.
abbrev pub align_halfword : ℕ → ℕ
align_halfword address = bit_and address (bit_not 32 0b1)

abbrev pub align_word : ℕ → ℕ
align_word address = bit_and address (bit_not 32 0b11)

module _ (b : Bus) where
  abbrev pub with_cpu : Machine b → Cpu → Machine b
  with_cpu m c = record m { cpu = c }

  abbrev pub with_bus : Machine b → b.Contents → Machine b
  with_bus m s = record m { bus = s }

  -- The value read, and the machine after the read.
  abbrev pub read_byte : Machine b → ℕ → CpuAccess → ℕ × Machine b
  read_byte m address access =
      let (value, s) = b.read_byte (view m.cpu) address access m.bus in (value, with_bus m s)

  abbrev pub read_halfword : Machine b → ℕ → CpuAccess → ℕ × Machine b
  read_halfword m address access =
      let (value, s) = b.read_halfword (view m.cpu) (align_halfword address) access m.bus in
      (value, with_bus m s)

  abbrev pub read_rotated_halfword : Machine b → ℕ → CpuAccess → ℕ × Machine b
  read_rotated_halfword m address access =
      let (value, m') = read_halfword m address access in
      (rotr32 value (bit_and address 0b1 * 8), m')

  abbrev pub read_word : Machine b → ℕ → CpuAccess → ℕ × Machine b
  read_word m address access =
      let (value, s) = b.read_word (view m.cpu) (align_word address) access m.bus in
      (value, with_bus m s)

  abbrev pub read_rotated_word : Machine b → ℕ → CpuAccess → ℕ × Machine b
  read_rotated_word m address access =
      let (value, m') = read_word m address access in (rotr32 value (bit_and address 0b11 * 8), m')

  abbrev pub write_byte : Machine b → ℕ → ℕ → CpuAccess → Machine b
  write_byte m address byte access = with_bus m (b.write_byte address byte access m.bus)

  abbrev pub write_halfword : Machine b → ℕ → ℕ → CpuAccess → Machine b
  write_halfword m address halfword access =
      with_bus m (b.write_halfword (align_halfword address) halfword access m.bus)

  abbrev pub write_word : Machine b → ℕ → ℕ → CpuAccess → Machine b
  write_word m address word access =
      with_bus m (b.write_word (align_word address) word access m.bus)

  abbrev pub internal_cycle : Machine b → Machine b
  internal_cycle m = with_bus m (b.internal_cycle m.bus)

  -- `for (i = 0; i < n; i++) internal_cycle();`
  unfoldable pub internal_cycles : ℕ → Machine b → Machine b
  internal_cycles zero m = m
  internal_cycles (suc n) m = internal_cycles n (internal_cycle m)
