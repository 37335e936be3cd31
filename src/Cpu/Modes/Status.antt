-- ===== src/Cpu/Modes/Status.antt =====
-- What a change of mode does to the rest of the status register.
use matar.Base.{◌==◌, ◌≡◌, refl, false}
use matar.Bits.{get_bit}
use matar.Psr
use matar.Psr.{Mode, Psr, State, arm, mode_bits}
use matar.Psr.Flags.{raw-set_mode}
use matar.Cpu.State.{Cpu}
use matar.Cpu.Modes.{chg_mode, load_bank, save_bank}
use matar.Cpu.Modes.View.{IsMode}

-- No flag is set, the state is ARM, and both interrupts are let in.
pub record IsCleared (p : Psr) : Type 0 where
  pub no_n : Psr.n p ≡ false
  pub no_z : Psr.z p ≡ false
  pub no_c : Psr.c p ≡ false
  pub no_v : Psr.v p ≡ false
  pub in_arm : Psr.state p ≡ arm
  pub irq_enabled : Psr.irq_disabled p ≡ false
  pub fiq_enabled : Psr.fiq_disabled p ≡ false

bare : (m : Mode) → IsMode m → IsCleared record { psr = mode_bits m }
unfolding Psr.n Psr.z Psr.c Psr.v Psr.state Psr.irq_disabled Psr.fiq_disabled get_bit
bare (Mode.reserved k) h = absurd h
bare m h = record {
  no_n = refl;
  no_z = refl;
  no_c = refl;
  no_v = refl;
  in_arm = refl;
  irq_enabled = refl;
  fiq_enabled = refl;
}

-- A change into another mode of the processor clears the four flags, the Thumb bit and both
-- interrupt masks, whatever they were.
pub chg_mode-IsCleared :
    (to : Mode) (c : Cpu)
    → IsMode to
    → (mode_bits (Psr.mode c.cpsr) == mode_bits to) ≡ false
    → IsCleared (chg_mode to c).cpsr
unfolding chg_mode Psr.raw
chg_mode-IsCleared to c h other = rw other (
    let moved = load_bank to (save_bank (Psr.mode c.cpsr) c) in
    rw (raw-set_mode moved.cpsr to) (bare to h))
