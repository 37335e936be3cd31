-- ===== src/Thumb/Exec/Control.antt =====
-- The control bits of the status register through the Thumb instructions.
mod Kept
use matar.Base.{ℕ, zero, suc, ◌≡◌, refl, ap, ◌∙◌, Bool, true, false, Bool-cases, inl, inr}
use matar.Base.{◌==◌, if_both}
use mathlib.Core.Bool.{true≢false}
use matar.Bits.{get_bit}
use matar.Alu.{Sum}
use matar.BusApi.{Bus, CpuAccess, non_sequential}
use matar.Psr
use matar.Psr.{Psr, State, arm, thumb}
use matar.Psr.Flags.{set_flags-HasFlags}
use matar.Cpu.State.{Cpu, Machine}
use matar.Cpu.Access.{with_cpu}
use matar.Cpu.Pipeline.{flush_pipeline, advance_pc_thumb, advance_pc_arm}
use matar.Cpu.Pipeline.Refill.{State-cases}
use matar.Thumb.Instruction
use matar.Thumb.Instruction.{Instruction}
use matar.Thumb.Exec.{exec, visit}
use matar.Thumb.Exec.Compute
use matar.Thumb.Exec.Transfer
use matar.Thumb.Exec.Branch
use matar.Thumb.Exec.Control.Kept.{
  storing, extending, transferring, stacking, addressing, stack, block, branching, linking,
}

-- Mode, state and the interrupt masks.
pub record SameControl (p q : Psr) : Type 0 where
  pub same_mode : Psr.mode q ≡ Psr.mode p
  pub same_state : Psr.state q ≡ Psr.state p
  pub same_fiq : Psr.fiq_disabled q ≡ Psr.fiq_disabled p
  pub same_irq : Psr.irq_disabled q ≡ Psr.irq_disabled p

-- BX and SWI are there to change them.
abbrev pub changes_control : Instruction → Bool
changes_control (Instruction.software_interrupt d) = true
changes_control (Instruction.hi_register_operations d) = elim d.opcode [
  | Instruction.bx ↦ true
  | _ ↦ false
]
changes_control _ = false

abbrev unchanged : (p q : Psr) → q ≡ p → SameControl p q
unchanged p q e = record {
  same_mode = ap Psr.mode e;
  same_state = ap Psr.state e;
  same_fiq = ap Psr.fiq_disabled e;
  same_irq = ap Psr.irq_disabled e;
}

flagged : (c : Cpu) (r : Sum) → SameControl c.cpsr (Compute.flag_result c r).cpsr
flagged c r =
    let f = set_flags-HasFlags c.cpsr r.carry r.overflow (get_bit r.value 31) (r.value == 0) in
    record {
      same_mode = f.same_mode;
      same_state = f.same_state;
      same_fiq = f.same_fiq;
      same_irq = f.same_irq;
    }

-- Formats 1 to 5.
shifting :
    (d : Instruction.MoveShiftedRegister) (c : Cpu)
    → SameControl c.cpsr (Compute.move_shifted_register d c).cpsr
unfolding Compute.move_shifted_register
shifting d c = flagged c _

adding :
    (d : Instruction.AddSubtract) (c : Cpu) → SameControl c.cpsr (Compute.add_subtract d c).cpsr
unfolding Compute.add_subtract
adding d c = flagged c _

immediate :
    (d : Instruction.MovCmpAddSubImmediate) (c : Cpu)
    → SameControl c.cpsr (Compute.mov_cmp_add_sub_immediate d c).cpsr
unfolding Compute.mov_cmp_add_sub_immediate
immediate d c = by_opcode d.opcode
  where
    by_opcode :
        (op : Instruction.ImmediateOp)
        → SameControl c.cpsr (Compute.mov_cmp_add_sub_immediate (record d { opcode = op }) c).cpsr
    by_opcode Instruction.ImmediateOp.mov = flagged c _
    by_opcode Instruction.ImmediateOp.cmp = flagged c _
    by_opcode Instruction.ImmediateOp.add = flagged c _
    by_opcode Instruction.ImmediateOp.sub = flagged c _

module _ (b : Bus) where
  alu :
      (d : Instruction.AluOperations) (m : Machine b)
      → SameControl m.cpu.cpsr (Compute.alu_operations b d m).cpu.cpsr
  unfolding Compute.alu_operations
  alu d m = elim (Bool-cases (Compute.writes_back d.opcode)) [
    | inl writes ↦ rw writes (flagged m.cpu _)
    | inr reads ↦ rw reads (flagged m.cpu _)
  ]

high :
    (d : Instruction.HiRegisterOperations) (c : Cpu)
    → changes_control (Instruction.hi_register_operations d) ≡ false
    → SameControl c.cpsr (Compute.hi_register_operations d c).1.cpsr
unfolding Compute.hi_register_operations
high d c h = by_opcode d.opcode h
  where
    by_opcode :
        (op : Instruction.HiOp)
        → changes_control (Instruction.hi_register_operations (record d { opcode = op })) ≡ false
        → SameControl c.cpsr (Compute.hi_register_operations (record d { opcode = op }) c).1.cpsr
    by_opcode Instruction.HiOp.add e = unchanged _ _ refl
    by_opcode Instruction.HiOp.cmp e = flagged c _
    by_opcode Instruction.HiOp.mov e = unchanged _ _ refl
    by_opcode Instruction.HiOp.bx e = absurd (true≢false e)

module _ (b : Bus) where
  flushing : (m : Machine b) → (flush_pipeline b m).cpu.cpsr ≡ m.cpu.cpsr
  unfolding flush_pipeline advance_pc_arm advance_pc_thumb
  flushing m = elim (State-cases (Psr.state m.cpu.cpsr)) [
    | inl in_arm ↦ rw in_arm refl
    | inr in_thumb ↦ rw in_thumb refl
  ]

  visiting :
      (i : Instruction) (m : Machine b)
      → changes_control i ≡ false
      → SameControl m.cpu.cpsr (visit b i m).1.cpu.cpsr
  unfolding visit Transfer.pc_relative_load Transfer.load_store_register_offset
      Transfer.load_store_immediate_offset Transfer.add_offset_stack_pointer
      Branch.unconditional_branch
  visiting (Instruction.move_shifted_register d) m h = shifting d m.cpu
  visiting (Instruction.add_subtract d) m h = adding d m.cpu
  visiting (Instruction.mov_cmp_add_sub_immediate d) m h = immediate d m.cpu
  visiting (Instruction.alu_operations d) m h = alu b d m
  visiting (Instruction.hi_register_operations d) m h = high d m.cpu h
  visiting (Instruction.pc_relative_load d) m h = unchanged _ _ refl
  visiting (Instruction.load_store_register_offset d) m h =
      unchanged _ _ (storing b d.load d.byte d.rd _ m)
  visiting (Instruction.load_store_sign_extended_halfword d) m h = unchanged _ _ (extending b d m)
  visiting (Instruction.load_store_immediate_offset d) m h =
      unchanged _ _ (storing b d.load d.byte d.rd _ m)
  visiting (Instruction.load_store_halfword d) m h = unchanged _ _ (transferring b d m)
  visiting (Instruction.sp_relative_load d) m h = unchanged _ _ (stacking b d m)
  visiting (Instruction.load_address d) m h = unchanged _ _ (addressing b d m.cpu)
  visiting (Instruction.add_offset_stack_pointer d) m h = unchanged _ _ refl
  visiting (Instruction.push_pop_register d) m h = unchanged _ _ (stack b d m)
  visiting (Instruction.multiple_load d) m h = unchanged _ _ (block b d m)
  visiting (Instruction.conditional_branch d) m h = unchanged _ _ (branching d m.cpu)
  visiting (Instruction.software_interrupt d) m h = absurd (true≢false h)
  visiting (Instruction.unconditional_branch d) m h = unchanged _ _ refl
  visiting (Instruction.long_branch_with_link d) m h = unchanged _ _ (linking d m.cpu)

  -- A Thumb instruction other than BX and SWI leaves the mode, the state and the interrupt masks
  -- as they were.
  pub exec-SameControl :
      (i : Instruction) (m : Machine b)
      → changes_control i ≡ false
      → SameControl m.cpu.cpsr (exec b i m).cpu.cpsr
  unfolding exec advance_pc_thumb
  exec-SameControl i m h =
      let after = visit b i m in
      if_both (λ (x : Machine b). SameControl m.cpu.cpsr x.cpu.cpsr) after.0
        (flush_pipeline b after.1) (with_cpu b after.1 (advance_pc_thumb after.1.cpu))
        (rw (flushing after.1) (visiting i m h)) (visiting i m h)
