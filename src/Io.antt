-- ===== src/Io.antt =====
-- The dispatch of I/O addresses to the devices: include/io/io.hh and src/io/io.cc, but for
-- scheduler_event, which is in Bus/Events. Messages to the log are left out.
pub mod Kept
use matar.Base.{
  ℕ, ◌+◌, ◌*◌, ◌/◌, ◌%◌, ◌^◌, Bool, ◌&&◌, ◌||◌, ◌==◌, leb, if◌then◌else◌, bit_and, bit_or, ◌>>>◌,
  ◌<<<◌, u32,
}
use matar.Scheduler.{Scheduler}
use matar.Bus.Cycles.{CycleMap}
use matar.System as System
use matar.Dma as Dma
use matar.Dma.Registers as DmaRegisters
use matar.Sound as Sound
use matar.Sound.Registers as SoundRegisters
use matar.Timer as Timer
use matar.Timer.Registers as TimerRegisters
use matar.Display as Display
use matar.Display.Registers as DisplayRegisters

pub record IoDevices : Type 0 where
  pub display : Display.Display
  pub sound : Sound.Sound
  pub dma : Dma.Dma
  pub timer : Timer.Timer
  pub system : System.System

-- The devices with what a write to them may change besides: the scheduler and the cycle map, which
-- belong to the bus.
pub record Board : Type 0 where
  pub io : IoDevices
  pub scheduler : Scheduler
  pub cycle_map : CycleMap

-- The case of the switch that an address falls into: `address & 0xFF0` is a multiple of 16.
abbrev pub page : ℕ → ℕ
page address = bit_and address 0xFF0

unfoldable pub is_display : ℕ → Bool
is_display p = leb p 0x050

unfoldable pub is_sound : ℕ → Bool
is_sound p = leb 0x060 p && leb p 0x0A0

unfoldable pub is_dma : ℕ → Bool
is_dma p = leb 0x0B0 p && leb p 0x0E0

unfoldable pub read_halfword : ℕ → IoDevices → ℕ
read_halfword address io =
    if is_display (page address)
    then DisplayRegisters.read_halfword address io.display
    else if is_sound (page address)
    then SoundRegisters.read_halfword address io.sound
    else if is_dma (page address)
    then DmaRegisters.read_halfword address io.dma
    else if page address == 0x100
    then TimerRegisters.read_halfword address io.timer
    else if (page address == 0x200) || (page address == 0x300)
    then System.read_halfword address io.system
    else 0xFF

unfoldable pub write_display : ℕ → ℕ → Board → Board
write_display address halfword b = record b {
  io = record b.io { display = DisplayRegisters.write_halfword address halfword b.io.display };
}

unfoldable pub write_sound : ℕ → ℕ → Board → Board
write_sound address halfword b = record b {
  io = record b.io { sound = SoundRegisters.write_halfword address halfword b.io.sound };
}

unfoldable pub write_dma : ℕ → ℕ → Board → Board
write_dma address halfword b =
    let written = DmaRegisters.write_halfword address halfword (b.io.dma, b.scheduler) in
    record b { io = record b.io { dma = written.0 }; scheduler = written.1 }

unfoldable pub write_timer : ℕ → ℕ → Board → Board
write_timer address halfword b =
    let written = TimerRegisters.write_halfword address halfword (b.io.timer, b.scheduler) in
    record b { io = record b.io { timer = written.0 }; scheduler = written.1 }

unfoldable pub write_system : ℕ → ℕ → Board → Board
write_system address halfword b =
    let written = System.write_halfword address halfword (b.io.system, b.cycle_map) in
    record b { io = record b.io { system = written.0 }; cycle_map = written.1 }

unfoldable pub write_halfword : ℕ → ℕ → Board → Board
write_halfword address halfword b =
    if is_display (page address)
    then write_display address halfword b
    else if is_sound (page address)
    then write_sound address halfword b
    else if is_dma (page address)
    then write_dma address halfword b
    else if page address == 0x100
    then write_timer address halfword b
    else if (page address == 0x200) || (page address == 0x300)
    then write_system address halfword b
    else b

-- `address & ~1`
abbrev pub even : ℕ → ℕ
even address = address / 2 * 2

unfoldable pub read_byte : ℕ → IoDevices → ℕ
read_byte address io =
    let halfword = read_halfword (even address) io in
    if address % 2 == 1 then (halfword >>> 8) % 2 ^ 8 else halfword % 2 ^ 8

unfoldable pub write_byte : ℕ → ℕ → Board → Board
write_byte address byte b =
    let halfword = read_halfword (even address) b.io in
    if address % 2 == 1
    then write_halfword (even address) (bit_or (byte <<< 8) (halfword % 2 ^ 8)) b
    else write_halfword (even address) (bit_or byte (bit_and halfword 0xFF00)) b

unfoldable pub read_word : ℕ → IoDevices → ℕ
read_word address io =
    bit_or (read_halfword address io) (read_halfword (u32 (address + 2)) io <<< 16)

unfoldable pub write_word : ℕ → ℕ → Board → Board
write_word address word b =
    write_halfword (u32 (address + 2)) ((word >>> 16) % 2 ^ 16)
      (write_halfword address (word % 2 ^ 16) b)
