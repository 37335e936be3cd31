-- ===== src/Thumb/Exec/Branch.antt =====
-- src/cpu/thumb/exec.cc, formats 16 to 19: the branches and the software interrupt. Each returns
-- whether the pipeline is to be flushed.
pub mod Link
use matar.Base.{ℕ, ◌+◌, ◌*◌, if◌then◌else◌, Bool, true, false, u32, sub32, bit_or, ◌<<<◌}
use matar.Psr
use matar.Psr.{arm, supervisor}
use matar.Cpu.State.{Cpu, set_gpr, set_cpsr, set, pc, lr, pc_index, lr_index}
use matar.Cpu.Modes.{chg_mode}
use matar.Cpu.Pipeline.{thumb_size, swi_vector}
use matar.Thumb.Instruction
use matar.Thumb.Decode.Fields.{sign_extend}

unfoldable pub conditional_branch : Instruction.ConditionalBranch → Cpu → Bool × Cpu
conditional_branch d c =
    if Psr.condition c.cpsr d.condition
    then (true, set_gpr c pc_index (u32 (pc c + d.offset)))
    else (false, c)

unfoldable pub software_interrupt : Instruction.SoftwareInterrupt → Cpu → Bool × Cpu
unfolding chg_mode
software_interrupt d c =
    let link = u32 (sub32 (pc c) (2 * thumb_size) + 2) in
    let c0 = record c {
      spsr_banked = record (c.spsr_banked) { svc = c.cpsr };
      gpr_banked = record (c.gpr_banked) { svc = set c.gpr_banked.svc 1 link };
    } in
    let c1 = chg_mode supervisor c0 in
    let c2 = set_cpsr c1 (Psr.set_irq_disabled (Psr.set_state c1.cpsr arm) true) in
    (true, set_gpr c2 pc_index swi_vector)

unfoldable pub unconditional_branch : Instruction.UnconditionalBranch → Cpu → Bool × Cpu
unconditional_branch d c = (true, set_gpr c pc_index (u32 (pc c + d.offset)))

-- The high half leaves its part of the target in `lr`; the low half branches.
unfoldable pub long_branch_with_link : Instruction.LongBranchWithLink → Cpu → Bool × Cpu
long_branch_with_link d c =
    if d.low
    then (let c' = set_gpr c pc_index (u32 (lr c + (d.offset <<< 1))) in
        (true, set_gpr c' lr_index (bit_or (sub32 (pc c) thumb_size) 1)))
    else (false, set_gpr c lr_index (u32 (pc c + sign_extend 23 (d.offset <<< 12))))
