-- ===== src/Arm/Exec.antt =====
-- `Cpu::exec(arm::Instruction&)` of src/cpu/arm/exec.cc: the condition, the visit over the formats,
-- then the pipeline is flushed or the program counter goes on.
pub mod Branch
pub mod Multiply
pub mod Data
pub mod Transfer
pub mod Block
use matar.Base.{Bool, true, false, if◌then◌else◌}
use matar.BusApi.{Bus}
use matar.Psr
use matar.Cpu.State.{Cpu, Machine}
use matar.Cpu.Access.{with_cpu}
use matar.Cpu.Pipeline.{advance_pc_arm, flush_pipeline}
use matar.Arm.Instruction.{Instruction, InstructionData}
use matar.Arm.Instruction
use matar.Arm.Exec.Branch
use matar.Arm.Exec.Multiply
use matar.Arm.Exec.Data
use matar.Arm.Exec.Transfer
use matar.Arm.Exec.Block

module _ (b : Bus) where
  -- Undefined and coprocessor instructions only leave a message in the log.
  unfoldable pub visit : InstructionData → Machine b → Bool × Machine b
  visit (Instruction.branch_and_exchange d) m =
      (true, with_cpu b m (Branch.branch_and_exchange d m.cpu))
  visit (Instruction.branch d) m = (true, with_cpu b m (Branch.branch d m.cpu))
  visit (Instruction.multiply d) m = (false, Multiply.multiply b d m)
  visit (Instruction.multiply_long d) m = (false, Multiply.multiply_long b d m)
  visit (Instruction.single_data_swap d) m = (false, Transfer.single_data_swap b d m)
  visit (Instruction.single_data_transfer d) m = Transfer.single_data_transfer b d m
  visit (Instruction.halfword_transfer d) m = Transfer.halfword_transfer b d m
  visit (Instruction.block_data_transfer d) m = Block.block_data_transfer b d m
  visit (Instruction.data_processing d) m = Data.data_processing b d m
  visit (Instruction.psr_transfer d) m = (false, with_cpu b m (Data.psr_transfer d m.cpu))
  visit (Instruction.coprocessor_data_transfer d) m = (false, m)
  visit (Instruction.coprocessor_data_operation d) m = (false, m)
  visit (Instruction.coprocessor_register_transfer d) m = (false, m)
  visit Instruction.undefined m = (false, m)
  visit Instruction.software_interrupt m = (true, with_cpu b m (Branch.software_interrupt m.cpu))

  unfoldable pub exec : Instruction → Machine b → Machine b
  unfolding visit
  exec instruction m =
      if Psr.condition m.cpu.cpsr instruction.condition
      then (let (is_flushed, m') = visit instruction.data_of m in
          if is_flushed then flush_pipeline b m' else with_cpu b m' (advance_pc_arm m'.cpu))
      else with_cpu b m (advance_pc_arm m.cpu)
