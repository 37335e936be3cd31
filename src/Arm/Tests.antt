-- ===== src/Arm/Tests.antt =====
-- Runs of the ARM handlers of src/cpu/arm/exec.cc.
use matar.Base.{◌+◌, ◌*◌, ◌^◌, ◌≡◌, ◌≢◌, refl, ap, arith, true, u64, sub32}
use matar.Psr
use matar.Psr.{user, irq}
use matar.Cpu.State.{Cpu, pc}
use matar.Cpu.Modes.View.{IsMode, seen, current, bank_of}
use matar.Cpu.Pipeline.{irq_entry}
use matar.Cpu.Pipeline.Refill.{size_of}
use matar.Cpu.Sample.{in_arm}
use matar.Arm.Instruction
use matar.Arm.Decode.{decode_data}
use matar.Arm.Decode.Range.{IsInRange, decode_data-IsInRange}
use matar.Arm.Exec.Data.{data_processing_registers}
use matar.Arm.Exec.Data.Return.{subs_pc_lr_four, irq_entry-return}
use matar.Arm.Exec.Multiply.{multiply_long_registers}
use matar.Arm.Exec.Multiply.Product.{pair, multiply_long-unsigned}

-- `UMLALS R3, R4, R2, R13`
abbrev umlal : Instruction.MultiplyLong
umlal = record { rm = 2; rs = 13; rdlo = 3; rdhi = 4; set = true; acc = true; uns = true }

in_a_mode : IsMode (Psr.mode in_arm.cpu.cpsr)
unfolding Psr.mode
in_a_mode = tt

user_is_not_irq : user ≢ irq
user_is_not_irq e =
    let bits : Psr.mode_bits user ≡ Psr.mode_bits irq = ap Psr.mode_bits e in omega arith

not_in_irq : Psr.mode in_arm.cpu.cpsr ≢ irq
unfolding Psr.mode
not_in_irq e = user_is_not_irq e

multiply_long-unsigned_example :
    pair (multiply_long_registers umlal in_arm.cpu).gpr 4 3 ≡ u64 (5 * 0x3000 + (0 * 2 ^ 32 + 0))
multiply_long-unsigned_example =
    multiply_long-unsigned umlal in_arm.cpu refl (omega arith) (omega arith) (omega arith)

-- The registers after the handler's return.
abbrev back : Cpu
back = (data_processing_registers subs_pc_lr_four (irq_entry in_arm.cpu)).1

irq_entry-return_example :
    ((data_processing_registers subs_pc_lr_four (irq_entry in_arm.cpu)).0 ≡ true)
    × (back.cpsr ≡ in_arm.cpu.cpsr)
    × (pc back ≡ sub32 (pc in_arm.cpu) (2 * size_of (Psr.state in_arm.cpu.cpsr)))
    × (seen (current back) (bank_of user) back 13
        ≡ seen (current in_arm.cpu) (bank_of user) in_arm.cpu 13)
irq_entry-return_example =
    irq_entry-return user 13 in_arm.cpu tt user_is_not_irq (omega arith) in_a_mode not_in_irq

decode_data-IsInRange_example : IsInRange (decode_data 0xE1A00211)
decode_data-IsInRange_example = decode_data-IsInRange 0xE1A00211
