-- ===== src/Thumb/Exec.antt =====
-- `Cpu::exec(thumb::Instruction&)` of src/cpu/thumb/exec.cc: the visit over the formats, then the
-- pipeline is flushed or the program counter goes on.
pub mod Compute
pub mod Transfer
pub mod Block
pub mod Branch
pub mod Control
pub mod Comparison
use matar.Base.{Bool, false, if◌then◌else◌}
use matar.BusApi.{Bus}
use matar.Cpu.State.{Cpu, Machine}
use matar.Cpu.Access.{with_cpu}
use matar.Cpu.Pipeline.{advance_pc_thumb, flush_pipeline}
use matar.Thumb.Instruction.{Instruction}
use matar.Thumb.Instruction
use matar.Thumb.Exec.Compute
use matar.Thumb.Exec.Transfer
use matar.Thumb.Exec.Block
use matar.Thumb.Exec.Branch

module _ (b : Bus) where
  -- A handler that only computes, one that may flush, and one that never flushes.
  abbrev pub computing : (Cpu → Cpu) → Machine b → Bool × Machine b
  computing f m = (false, with_cpu b m (f m.cpu))

  abbrev pub branching : (Cpu → Bool × Cpu) → Machine b → Bool × Machine b
  branching f m = let (is_flushed, c) = f m.cpu in (is_flushed, with_cpu b m c)

  abbrev pub going_on : Machine b → Bool × Machine b
  going_on m = (false, m)

  unfoldable pub visit : Instruction → Machine b → Bool × Machine b
  visit (Instruction.move_shifted_register d) m = computing (Compute.move_shifted_register d) m
  visit (Instruction.add_subtract d) m = computing (Compute.add_subtract d) m
  visit (Instruction.mov_cmp_add_sub_immediate d) m =
      computing (Compute.mov_cmp_add_sub_immediate d) m
  visit (Instruction.alu_operations d) m = going_on (Compute.alu_operations b d m)
  visit (Instruction.hi_register_operations d) m = branching (Compute.hi_register_operations d) m
  visit (Instruction.pc_relative_load d) m = going_on (Transfer.pc_relative_load b d m)
  visit (Instruction.load_store_register_offset d) m =
      going_on (Transfer.load_store_register_offset b d m)
  visit (Instruction.load_store_sign_extended_halfword d) m =
      going_on (Transfer.load_store_sign_extended_halfword b d m)
  visit (Instruction.load_store_immediate_offset d) m =
      going_on (Transfer.load_store_immediate_offset b d m)
  visit (Instruction.load_store_halfword d) m = going_on (Transfer.load_store_halfword b d m)
  visit (Instruction.sp_relative_load d) m = going_on (Transfer.sp_relative_load b d m)
  visit (Instruction.load_address d) m = computing (Transfer.load_address d) m
  visit (Instruction.add_offset_stack_pointer d) m =
      computing (Transfer.add_offset_stack_pointer d) m
  visit (Instruction.push_pop_register d) m = Block.push_pop_register b d m
  visit (Instruction.multiple_load d) m = Block.multiple_load b d m
  visit (Instruction.conditional_branch d) m = branching (Branch.conditional_branch d) m
  visit (Instruction.software_interrupt d) m = branching (Branch.software_interrupt d) m
  visit (Instruction.unconditional_branch d) m = branching (Branch.unconditional_branch d) m
  visit (Instruction.long_branch_with_link d) m = branching (Branch.long_branch_with_link d) m

  unfoldable pub exec : Instruction → Machine b → Machine b
  unfolding visit
  exec instruction m =
      let (is_flushed, m') = visit instruction m in
      if is_flushed then flush_pipeline b m' else with_cpu b m' (advance_pc_thumb m'.cpu)
