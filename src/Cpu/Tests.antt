-- ===== src/Cpu/Tests.antt =====
-- Runs of the change of mode, the pipeline and the interrupt of src/cpu/cpu.cc.
use matar.Base.{◌≡◌, ◌≢◌, ◌==◌, refl, arith, false, ap, sym, ◌∙◌}
use matar.Bits.{get_bit}
use matar.Psr
use matar.Psr.{arm, user, irq, supervisor}
use matar.Cpu.State.{pc}
use matar.Cpu.Modes.{chg_mode}
use matar.Cpu.Modes.View.{ChangesMode, chg_mode-ChangesMode, IsMode}
use matar.Cpu.Modes.Status.{IsCleared, chg_mode-IsCleared}
use matar.Cpu.Pipeline.{flush_pipeline, irq_request}
use matar.Cpu.Pipeline.Refill.{Refilled, IsFilled, flush_pipeline-Refilled}
use matar.Cpu.Pipeline.Interrupt.{IsInterrupted, irq_request-IsInterrupted}
use matar.Cpu.Sample.{flat, in_arm, in_thumb}

runs_in_user : Psr.mode in_arm.cpu.cpsr ≡ user
unfolding Psr.mode
runs_in_user = refl

lets_interrupts_in : Psr.irq_disabled in_arm.cpu.cpsr ≡ false
unfolding Psr.irq_disabled get_bit
lets_interrupts_in = refl

in_a_mode : IsMode (Psr.mode in_arm.cpu.cpsr)
unfolding Psr.mode
in_a_mode = tt

user_is_not_irq : user ≢ irq
user_is_not_irq e =
    let bits : Psr.mode_bits user ≡ Psr.mode_bits irq = ap Psr.mode_bits e in omega arith

not_in_irq : Psr.mode in_arm.cpu.cpsr ≢ irq
not_in_irq e = user_is_not_irq (sym runs_in_user ∙ e)

not_in_supervisor : (Psr.mode_bits (Psr.mode in_arm.cpu.cpsr) == Psr.mode_bits supervisor) ≡ false
unfolding Psr.mode
not_in_supervisor = refl

chg_mode-ChangesMode_example :
    ChangesMode supervisor user 13 in_arm.cpu (chg_mode supervisor in_arm.cpu)
chg_mode-ChangesMode_example = chg_mode-ChangesMode supervisor user 13 in_arm.cpu in_a_mode tt tt

chg_mode-IsCleared_example : IsCleared (chg_mode supervisor in_arm.cpu).cpsr
chg_mode-IsCleared_example = chg_mode-IsCleared supervisor in_arm.cpu tt not_in_supervisor

flush_pipeline-Refilled_example : Refilled flat 13 in_thumb (flush_pipeline flat in_thumb)
flush_pipeline-Refilled_example =
    flush_pipeline-Refilled flat 13 in_thumb (omega arith) (omega arith)

irq_request-IsInterrupted_example :
    IsInterrupted user 13 in_arm.cpu (irq_request flat in_arm).cpu
    × (pc (irq_request flat in_arm).cpu ≡ 0x20)
    × IsFilled flat arm 0x18 in_arm (irq_request flat in_arm)
irq_request-IsInterrupted_example =
    irq_request-IsInterrupted flat user 13 in_arm tt user_is_not_irq (omega arith) in_a_mode
      not_in_irq lets_interrupts_in
