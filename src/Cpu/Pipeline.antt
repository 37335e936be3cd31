-- ===== src/Cpu/Pipeline.antt =====
-- `advance_pc_arm`, `advance_pc_thumb`, `flush_pipeline` and `irq` of src/cpu/cpu.cc.
pub mod Refill
pub mod Interrupt
use matar.Base.{ℕ, ◌+◌, ◌*◌, if◌then◌else◌, Bool, true, u32, sub32}
use matar.Bits.{rst_bit}
use matar.BusApi.{Bus, sequential, non_sequential}
use matar.Cpu.State.{Cpu, Machine, view, pc, set_gpr, set_cpsr, pc_index, set}
use matar.Cpu.Access.{with_cpu, with_bus}
use matar.Cpu.Access
use matar.Cpu.Modes.{chg_mode}
use matar.Psr
use matar.Psr.{arm, thumb, irq}

-- `arm::INSTRUCTION_SIZE` and `thumb::INSTRUCTION_SIZE`
abbrev pub arm_size : ℕ
arm_size = 4

abbrev pub thumb_size : ℕ
thumb_size = 2

abbrev pub irq_vector : ℕ
irq_vector = 0x18

abbrev pub swi_vector : ℕ
swi_vector = 0x8

-- `rst_bit(pc, 0)`, and both low bits.
abbrev pub even_pc : Cpu → Cpu
even_pc c = set_gpr c pc_index (rst_bit 32 (pc c) 0)

abbrev pub word_pc : Cpu → Cpu
word_pc c = let c' = even_pc c in set_gpr c' pc_index (rst_bit 32 (pc c') 1)

unfoldable pub advance_pc_arm : Cpu → Cpu
advance_pc_arm c = let c' = word_pc c in set_gpr c' pc_index (u32 (pc c' + arm_size))

unfoldable pub advance_pc_thumb : Cpu → Cpu
advance_pc_thumb c = let c' = even_pc c in set_gpr c' pc_index (u32 (pc c' + thumb_size))

-- Where the interrupted program goes on: the return address that `irq` banks for IRQ mode.
abbrev pub return_address : Cpu → ℕ
return_address c = elim (Psr.state c.cpsr) [
  | thumb ↦ u32 (sub32 (pc c) (2 * thumb_size) + 4)
  | arm ↦ u32 (sub32 (pc c) (2 * arm_size) + 4)
]

-- The registers on entry to the handler, before the pipeline is filled.
unfoldable pub irq_entry : Cpu → Cpu
irq_entry c =
    let c0 = record c {
      spsr_banked = record (c.spsr_banked) { irq = c.cpsr };
      gpr_banked = record (c.gpr_banked) { irq = set c.gpr_banked.irq 1 (return_address c) };
    } in
    let c1 = chg_mode irq c0 in
    let c2 = set_cpsr c1 (Psr.set_irq_disabled (Psr.set_state c1.cpsr arm) true) in
    set_gpr c2 pc_index irq_vector

module _ (b : Bus) where
  -- The reads go to the bus with the address as it stands, which the code has aligned.
  unfoldable pub flush_arm : Machine b → Machine b
  unfolding advance_pc_arm
  flush_arm m =
      let m0 = with_cpu b m (set_gpr m.cpu pc_index (rst_bit 32 (pc m.cpu) 1)) in
      let (op0, s0) = b.read_word (view m0.cpu) (pc m0.cpu) non_sequential m0.bus in
      let m1 = record m0 { cpu = advance_pc_arm (record (m0.cpu) { opcode0 = op0 }); bus = s0 } in
      let (op1, s1) = b.read_word (view m1.cpu) (pc m1.cpu) sequential m1.bus in
      record m1 { cpu = advance_pc_arm (record (m1.cpu) { opcode1 = op1 }); bus = s1 }

  unfoldable pub flush_thumb : Machine b → Machine b
  unfolding advance_pc_thumb
  flush_thumb m =
      let (op0, s0) = b.read_halfword (view m.cpu) (pc m.cpu) non_sequential m.bus in
      let m1 = record m { cpu = advance_pc_thumb (record (m.cpu) { opcode0 = op0 }); bus = s0 } in
      let (op1, s1) = b.read_halfword (view m1.cpu) (pc m1.cpu) sequential m1.bus in
      record m1 { cpu = advance_pc_thumb (record (m1.cpu) { opcode1 = op1 }); bus = s1 }

  unfoldable pub flush_pipeline : Machine b → Machine b
  unfolding flush_arm flush_thumb
  flush_pipeline m =
      let m0 = with_cpu b m (even_pc m.cpu) in
      let m1 : Machine b = elim (Psr.state m.cpu.cpsr) [
        | arm ↦ flush_arm m0
        | thumb ↦ flush_thumb m0
      ] in
      with_cpu b m1 (record (m1.cpu) { next_access = sequential })

  unfoldable pub irq_request : Machine b → Machine b
  unfolding irq_entry flush_pipeline
  irq_request m =
      if Psr.irq_disabled m.cpu.cpsr then m else flush_pipeline (with_cpu b m (irq_entry m.cpu))
