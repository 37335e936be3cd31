-- ===== src/Thumb/Exec/Comparison.antt =====
-- A Thumb comparison and the conditional branch after it.
use matar.Base.{ℕ, ◌^◌, ◌<◌, ◌≡◌, refl, ap, ◌∙◌, ◌/◌, ◌*◌, ◌==◌, if◌then◌else◌, if_both, arith}
use matar.Bits.{rst_bit}
use matar.Bits.Laws.{rst_bit_zero}
use matar.BusApi.{Bus}
use matar.Psr.Compare.{Compares, compared, compared-Compares}
use matar.Cpu.State.{Machine, pc_index}
use matar.Cpu.Pipeline.{advance_pc_thumb}
use matar.Thumb.Instruction
use matar.Thumb.Exec.{exec, visit}
use matar.Thumb.Exec.Compute.{
  mov_cmp_add_sub_immediate, alu_operations, hi_register_operations, alu_result, alu_cycles,
}

abbrev pub compare_immediate : ℕ → ℕ → Instruction.Instruction
compare_immediate rd offset =
    Instruction.mov_cmp_add_sub_immediate
      record { offset = offset; rd = rd; opcode = Instruction.ImmediateOp.cmp }

abbrev pub compare_registers : ℕ → ℕ → Instruction.Instruction
compare_registers rd rs =
    Instruction.alu_operations record { rd = rd; rs = rs; opcode = Instruction.AluOp.cmp }

abbrev pub compare_high : ℕ → ℕ → Instruction.Instruction
compare_high rd rs =
    Instruction.hi_register_operations record { rd = rd; rs = rs; opcode = Instruction.HiOp.cmp }

-- An operand of format 5, which may be the program counter: that one is read as an even number.
abbrev pub high_operand : {b : Bus} → Machine b → ℕ → ℕ
high_operand m i = if i == pc_index then m.cpu.gpr i / 2 * 2 else m.cpu.gpr i

module _ (b : Bus) (m : Machine b) (rd rs offset : ℕ) (hd : m.cpu.gpr rd < 2 ^ 32)
    (hs : m.cpu.gpr rs < 2 ^ 32) (ho : offset < 2 ^ 32) where
  after_immediate :
      (exec b (compare_immediate rd offset) m).cpu.cpsr ≡ compared m.cpu.cpsr (m.cpu.gpr rd) offset
  unfolding exec visit mov_cmp_add_sub_immediate advance_pc_thumb
  after_immediate = refl

  after_registers :
      (exec b (compare_registers rd rs) m).cpu.cpsr
      ≡ compared m.cpu.cpsr (m.cpu.gpr rd) (m.cpu.gpr rs)
  unfolding exec visit alu_operations alu_result alu_cycles advance_pc_thumb
  after_registers = refl

  abbrev as_read : ℕ → ℕ
  as_read i = if i == pc_index then rst_bit 32 (m.cpu.gpr i) 0 else m.cpu.gpr i

  read_even : (i : ℕ) → m.cpu.gpr i < 2 ^ 32 → as_read i ≡ high_operand m i
  read_even i h = ap (λ x. if i == pc_index then x else m.cpu.gpr i) (rst_bit_zero (m.cpu.gpr i) h)

  high_operand-lt : (i : ℕ) → m.cpu.gpr i < 2 ^ 32 → high_operand m i < 2 ^ 32
  high_operand-lt i h = if_both (λ x. x < 2 ^ 32) (i == pc_index) _ _ (omega arith) h

  after_high :
      (exec b (compare_high rd rs) m).cpu.cpsr
      ≡ compared m.cpu.cpsr (high_operand m rd) (high_operand m rs)
  unfolding exec visit hi_register_operations advance_pc_thumb
  after_high =
      ap (λ x. compared m.cpu.cpsr x (as_read rs)) (read_even rd hd)
      ∙ ap (compared m.cpu.cpsr (high_operand m rd)) (read_even rs hs)

  -- After each Thumb CMP, of a register with a number (format 3), of two low registers (format 4) or of any two
  -- registers (format 5, where the program counter is read as an even number), all of them words, each
  -- condition of a conditional branch holds as it should of the two operands: as the comparison it is named for,
  -- and for the sign and the overflow as those of their difference.
  pub exec-compare-Compares :
      Compares (exec b (compare_immediate rd offset) m).cpu.cpsr (m.cpu.gpr rd) offset
      × Compares (exec b (compare_registers rd rs) m).cpu.cpsr (m.cpu.gpr rd) (m.cpu.gpr rs)
      × Compares (exec b (compare_high rd rs) m).cpu.cpsr (high_operand m rd) (high_operand m rs)
  exec-compare-Compares =
      rw (after_immediate, after_registers, after_high)
        (
          compared-Compares m.cpu.cpsr (m.cpu.gpr rd) offset hd ho,
          compared-Compares m.cpu.cpsr (m.cpu.gpr rd) (m.cpu.gpr rs) hd hs,
          compared-Compares m.cpu.cpsr (high_operand m rd) (high_operand m rs)
              (high_operand-lt rd hd) (high_operand-lt rs hs),
        )
