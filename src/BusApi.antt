-- ===== src/BusApi.antt =====
-- What src/cpu/ uses of the bus (include/bus.hh): reads and writes of three widths and the internal
-- cycle. The laws are the widths of the values that the functions return.
use matar.Base.{ℕ, ◌<◌, ◌^◌}
use matar.Psr.{State}

pub data CpuAccess : Type 0 where
  sequential non_sequential : CpuAccess

-- What the bus reads of the processor when it answers a read: `program_counter`, `opcode0`,
-- `opcode1` and `state`.
pub record CpuView : Type 0 where
  pub program_counter : ℕ
  pub opcode0 : ℕ
  pub opcode1 : ℕ
  pub state : State

pub record Bus : Type 1 where
  pub Contents : Type 0
  pub read_byte : CpuView → ℕ → CpuAccess → Contents → ℕ × Contents
  pub read_halfword : CpuView → ℕ → CpuAccess → Contents → ℕ × Contents
  pub read_word : CpuView → ℕ → CpuAccess → Contents → ℕ × Contents
  pub write_byte : ℕ → ℕ → CpuAccess → Contents → Contents
  pub write_halfword : ℕ → ℕ → CpuAccess → Contents → Contents
  pub write_word : ℕ → ℕ → CpuAccess → Contents → Contents
  pub internal_cycle : Contents → Contents
  pub read_byte-lt :
      (v : CpuView) (a : ℕ) (access : CpuAccess) (s : Contents) → (read_byte v a access s).0 < 2 ^ 8
  pub read_halfword-lt :
      (v : CpuView) (a : ℕ) (access : CpuAccess) (s : Contents)
      → (read_halfword v a access s).0 < 2 ^ 16
  pub read_word-lt :
      (v : CpuView) (a : ℕ) (access : CpuAccess) (s : Contents)
      → (read_word v a access s).0 < 2 ^ 32
