-- ===== src/Cpu/State.antt =====
-- The registers of the processor: the fields of `class Cpu` in include/cpu/cpu.hh. `sp`, `lr` and
-- `pc` are references to registers 13, 14 and 15, so they are not fields of their own here.
use matar.Base.{ℕ, ◌+◌, ◌-◌, ◌==◌, leb, ltb, ◌&&◌, if◌then◌else◌}
use matar.BusApi.{Bus, CpuAccess, CpuView}
use matar.Psr
use matar.Psr.{Psr}

-- An array of registers. Every index that the instructions hold is below 16.
abbrev pub Registers : Type 0
Registers = ℕ → ℕ

abbrev pub set : Registers → ℕ → ℕ → Registers
set r i value j = if j == i then value else r j

-- `std::copy` of `count` elements from `src[from]` on to `dst[at]` on.
abbrev pub copy : Registers → ℕ → ℕ → Registers → ℕ → Registers
copy src from count dst at i = if leb at i && ltb i (at + count) then src (i - at + from) else dst i

pub record GprBanked : Type 0 where
  pub usr : Registers
  pub fiq : Registers
  pub svc : Registers
  pub abt : Registers
  pub irq : Registers
  pub und : Registers

pub record SpsrBanked : Type 0 where
  pub usr : Psr
  pub fiq : Psr
  pub svc : Psr
  pub abt : Psr
  pub irq : Psr
  pub und : Psr

pub record Cpu : Type 0 where
  pub gpr : Registers
  pub cpsr : Psr
  pub spsr : Psr
  pub gpr_banked : GprBanked
  pub spsr_banked : SpsrBanked
  pub next_access : CpuAccess
  pub opcode0 : ℕ
  pub opcode1 : ℕ

abbrev pub sp_index : ℕ
sp_index = 13

abbrev pub lr_index : ℕ
lr_index = 14

abbrev pub pc_index : ℕ
pc_index = 15

abbrev pub sp : Cpu → ℕ
sp c = c.gpr sp_index

abbrev pub lr : Cpu → ℕ
lr c = c.gpr lr_index

abbrev pub pc : Cpu → ℕ
pc c = c.gpr pc_index

abbrev pub set_gpr : Cpu → ℕ → ℕ → Cpu
set_gpr c i value = record c { gpr = set c.gpr i value }

abbrev pub set_cpsr : Cpu → Psr → Cpu
set_cpsr c p = record c { cpsr = p }

-- What the bus sees of the processor.
abbrev pub view : Cpu → CpuView
view c = record {
  program_counter = pc c;
  opcode0 = c.opcode0;
  opcode1 = c.opcode1;
  state = Psr.state c.cpsr;
}

-- The processor and the bus that it is attached to.
pub record Machine (b : Bus) : Type 0 where
  pub cpu : Cpu
  pub bus : b.Contents
