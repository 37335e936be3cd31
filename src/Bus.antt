-- ===== src/Bus.antt =====
-- src/bus.cc and include/bus.hh: the address space of the processor, over the memories and devices.
pub mod Cycles
pub mod Region
pub mod Read
pub mod Write
pub mod Instance
pub mod Ram
pub mod Timely
pub mod Events
pub mod Header
pub mod Run
mod Start
mod Tests
use matar.Base.{ℕ, ◌+◌, ◌-◌, ◌*◌, ◌/◌, ◌%◌, ◌^◌, if◌then◌else◌}
use matar.BusApi.{CpuAccess, sequential, non_sequential}
use matar.Scheduler.{Scheduler, add_cycles}
use matar.Bus.Cycles.{CycleCount, CycleMap}
use matar.Memory.{Memory}
use matar.Io.{IoDevices, Board}

-- The bus without its processor: the devices with the scheduler and the cycle map, the memories and
-- the last word that was read from the BIOS. The SRAM that the class holds is never used.
pub record Contents : Type 0 where
  pub board : Board
  pub bios : Memory
  pub board_wram : Memory
  pub chip_wram : Memory
  pub rom : Memory
  pub last_bios_word : ℕ

abbrev pub bios_size : ℕ
bios_size = 1024 * 16

abbrev pub region : ℕ → ℕ
region address = address / 2 ^ 24 % 2 ^ 4

unfoldable pub spend : ℕ → Contents → Contents
spend cycles s = record s {
  board = record s.board { scheduler = add_cycles cycles s.board.scheduler };
}

abbrev pub count_of : ℕ → Contents → CycleCount
count_of address s = s.board.cycle_map (region address)

unfoldable pub cycles16 : CpuAccess → CycleCount → ℕ
cycles16 sequential cc = cc.s16
cycles16 non_sequential cc = cc.n16

unfoldable pub cycles32 : CpuAccess → CycleCount → ℕ
cycles32 sequential cc = cc.s32
cycles32 non_sequential cc = cc.n32

-- The cycles that an access takes, added before it is made.
unfoldable pub spend16 : ℕ → CpuAccess → Contents → Contents
spend16 address access s = spend (cycles16 access (count_of address s)) s

unfoldable pub spend32 : ℕ → CpuAccess → Contents → Contents
spend32 address access s = spend (cycles32 access (count_of address s)) s

unfoldable pub internal_cycle : Contents → Contents
internal_cycle s = spend 1 s
