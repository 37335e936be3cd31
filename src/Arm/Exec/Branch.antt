-- ===== src/Arm/Exec/Branch.antt =====
-- src/cpu/arm/exec.cc: the branches and the software interrupt. Each returns the processor with its
-- new program counter; all of them flush the pipeline.
use matar.Base.{◌+◌, ◌*◌, if◌then◌else◌, true, u32, sub32}
use matar.Bits.{get_bit}
use matar.Psr
use matar.Psr.{arm, thumb, supervisor, state_of}
use matar.Cpu.State.{Cpu, set_gpr, set_cpsr, set, pc, pc_index, lr_index}
use matar.Cpu.Modes.{chg_mode}
use matar.Cpu.Pipeline.{arm_size, swi_vector, even_pc, word_pc}
use matar.Arm.Instruction

unfoldable pub branch_and_exchange : Instruction.BranchAndExchange → Cpu → Cpu
branch_and_exchange d c =
    let addr = c.gpr d.rn in
    let state = state_of (get_bit addr 0) in
    let c' = set_gpr (set_cpsr c (Psr.set_state c.cpsr state)) pc_index addr in
    elim state [ arm ↦ word_pc c' | thumb ↦ even_pc c' ]

unfoldable pub branch : Instruction.Branch → Cpu → Cpu
branch d c =
    let c' = if d.link then set_gpr c lr_index (sub32 (pc c) arm_size) else c in
    set_gpr c' pc_index (u32 (pc c' + d.offset))

unfoldable pub software_interrupt : Cpu → Cpu
software_interrupt c =
    let link = u32 (sub32 (pc c) (2 * arm_size) + 4) in
    let c0 = record c {
      spsr_banked = record (c.spsr_banked) { svc = c.cpsr };
      gpr_banked = record (c.gpr_banked) { svc = set c.gpr_banked.svc 1 link };
    } in
    let c1 = chg_mode supervisor c0 in
    let c2 = set_cpsr c1 (Psr.set_irq_disabled (Psr.set_state c1.cpsr arm) true) in
    set_gpr c2 pc_index swi_vector
