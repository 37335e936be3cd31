-- ===== src/Thumb/Tests.antt =====
-- Runs of the Thumb decoder and handlers of src/cpu/thumb/.
use matar.Base.{◌+◌, ◌≡◌, refl, arith, true, false, u32}
use matar.Bits.{get_bit, bit_range}
use matar.Psr
use matar.Psr.{thumb}
use matar.Psr.Compare.{Compares}
use matar.Cpu.State.{pc, lr, sp}
use matar.Cpu.Sample.{flat, in_thumb}
use matar.Cpu.Pipeline.Refill.{IsFilled}
use matar.Thumb.Instruction
use matar.Thumb.Decode.{decode, decode_upper}
use matar.Thumb.Decode.Fields
use matar.Thumb.Decode.Fields.{sign_extend}
use matar.Thumb.Decode.Range.{IsInRange, decode-IsInRange}
use matar.Thumb.Exec.{exec}
use matar.Thumb.Exec.Block.{push_pop_register, multiple_load}
use matar.Thumb.Exec.Block.Address.{span, base-multiple_load}
use matar.Thumb.Exec.Block.Stack.{moved_by, words, sp-push_pop_register}
use matar.Thumb.Exec.Branch.Link.{upper_half, lower_half, exec-long_branch_pair}
use matar.Thumb.Exec.Comparison.{
  compare_immediate, compare_registers, compare_high, high_operand, exec-compare-Compares,
}
use matar.Thumb.Exec.Control.{SameControl, exec-SameControl}

-- `PUSH {R0, R2, LR}`
abbrev push_two : Instruction.PushPopRegister
push_two = record { regs = 0b101; pclr = true; load = false }

-- `LDMIA R2!, {R1, R2}`, with the base in the list.
abbrev load_two : Instruction.MultipleLoad
load_two = record { regs = 0b110; rb = 2; load = true }

runs_in_thumb : Psr.state in_thumb.cpu.cpsr ≡ thumb
unfolding Psr.state get_bit
runs_in_thumb = refl

decode_push : decode 0xB505 ≡ Instruction.push_pop_register push_two
unfolding decode decode_upper Fields.push_pop_register bit_range get_bit
decode_push = refl

decode-IsInRange_example : IsInRange (decode 0x4770)
decode-IsInRange_example = decode-IsInRange 0x4770

sp-push_pop_register_example :
    sp (push_pop_register flat push_two in_thumb).1.cpu ≡ moved_by false 0x3000 (words push_two)
sp-push_pop_register_example = sp-push_pop_register flat push_two in_thumb (omega arith)

base-multiple_load_example :
    (multiple_load flat load_two in_thumb).1.cpu.gpr 2 ≡ u32 (5 + span 0b110)
base-multiple_load_example = base-multiple_load flat load_two in_thumb (omega arith)

exec-long_branch_pair_example :
    (lr (exec flat (lower_half 0x200010) (exec flat (upper_half 0x200010) in_thumb)).cpu ≡ 0x8005)
    × (pc (exec flat (lower_half 0x200010) (exec flat (upper_half 0x200010) in_thumb)).cpu
        ≡ u32 (0x8004 + sign_extend 23 0x400020 + 4))
    × IsFilled flat thumb
        (u32 (0x8004 + sign_extend 23 0x400020))
        in_thumb
        (exec flat (lower_half 0x200010) (exec flat (upper_half 0x200010) in_thumb))
exec-long_branch_pair_example =
    exec-long_branch_pair flat 0x200010 in_thumb (omega arith) runs_in_thumb (omega arith)
      (omega arith)

exec-compare-Compares_example :
    Compares (exec flat (compare_immediate 2 7) in_thumb).cpu.cpsr 5 7
    × Compares (exec flat (compare_registers 2 13) in_thumb).cpu.cpsr 5 0x3000
    × Compares
        (exec flat (compare_high 2 13) in_thumb).cpu.cpsr
        (high_operand in_thumb 2)
        (high_operand in_thumb 13)
exec-compare-Compares_example =
    exec-compare-Compares flat in_thumb 2 13 7 (omega arith) (omega arith) (omega arith)

exec-SameControl_example :
    SameControl in_thumb.cpu.cpsr (exec flat (compare_immediate 2 7) in_thumb).cpu.cpsr
exec-SameControl_example = exec-SameControl flat (compare_immediate 2 7) in_thumb refl
