-- ===== src/System.antt =====
-- The interrupt controller and the system registers: include/io/system/system.hh and
-- src/io/system/registers.cc. `WaitstateControl` of include/io/system/registers.hh is its 16 bits.
-- Messages to the log are left out.
pub mod Interrupts
pub mod Kept
mod Tests
use matar.Base.{
  ℕ, ◌^◌, Bool, true, false, not, ◌&&◌, ◌==◌, if◌then◌else◌, to_nat, bit_and, bit_or, bit_not, u16,
}
use matar.Bus.Cycles.{CycleMap, update_cycle_map}

pub data Irq : Type 0 where
  lcd_vblank lcd_hblank lcd_vcounter_match : Irq
  timer0_overflow timer1_overflow timer2_overflow timer3_overflow : Irq
  serial dma0 dma1 dma2 dma3 keypad game_pak : Irq

unfoldable pub irq_number : Irq → ℕ
irq_number Irq.lcd_vblank = 0
irq_number Irq.lcd_hblank = 1
irq_number Irq.lcd_vcounter_match = 2
irq_number Irq.timer0_overflow = 3
irq_number Irq.timer1_overflow = 4
irq_number Irq.timer2_overflow = 5
irq_number Irq.timer3_overflow = 6
irq_number Irq.serial = 7
irq_number Irq.dma0 = 8
irq_number Irq.dma1 = 9
irq_number Irq.dma2 = 10
irq_number Irq.dma3 = 11
irq_number Irq.keypad = 12
irq_number Irq.game_pak = 13

pub record System : Type 0 where
  pub interrupt_enable : ℕ
  pub interrupt_request_flags : ℕ
  pub interrupt_master_enabler : Bool
  pub post_boot_flag : Bool
  pub waitstate_control : ℕ
  pub low_power_mode : Bool

unfoldable pub raise_irq : Irq → System → System
raise_irq event s = record s {
  interrupt_request_flags = bit_or s.interrupt_request_flags (2 ^ irq_number event);
}

-- `!!` of a number.
abbrev pub nonzero : ℕ → Bool
nonzero n = not (n == 0)

unfoldable pub any_irq_is_pending : System → Bool
any_irq_is_pending s =
    s.interrupt_master_enabler && nonzero (bit_and s.interrupt_enable s.interrupt_request_flags)

unfoldable pub read_halfword : ℕ → System → ℕ
read_halfword address s =
    if address == 0x4000200
    then s.interrupt_enable
    else if address == 0x4000202
    then s.interrupt_request_flags
    else if address == 0x4000204
    then s.waitstate_control
    else if address == 0x4000208
    then to_nat s.interrupt_master_enabler
    else if address == 0x4000300
    then to_nat s.post_boot_flag
    else if address == 0x4000301
    then to_nat s.low_power_mode
    else 0xFFFF

-- A write to WAITCNT also goes to the cycle map of the bus.
unfoldable pub write_halfword : ℕ → ℕ → System × CycleMap → System × CycleMap
write_halfword address halfword (s, map) =
    if address == 0x4000200
    then (record s { interrupt_enable = halfword }, map)
    else if address == 0x4000202
    then (
      record s {
        interrupt_request_flags = bit_and s.interrupt_request_flags (bit_not 16 halfword);
      },
      map,
    )
    else if address == 0x4000204
    then (record s { waitstate_control = halfword }, update_cycle_map halfword map)
    else if address == 0x4000208
    then (record s { interrupt_master_enabler = nonzero halfword }, map)
    else if address == 0x4000300
    then (record s { post_boot_flag = nonzero halfword }, map)
    else if address == 0x4000301
    then (record s { low_power_mode = nonzero halfword }, map)
    else (s, map)
