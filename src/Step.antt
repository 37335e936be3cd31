-- ===== src/Step.antt =====
-- The constructor `Cpu::Cpu` and `Cpu::step` of src/cpu/cpu.cc: the start, and one instruction of
-- either set.
use matar.Base.{u16, true}
use matar.BusApi.{Bus, sequential}
use matar.Psr
use matar.Psr.{Psr, arm, thumb, supervisor}
use matar.Cpu.State.{Cpu, Registers, Machine, view, pc}
use matar.Cpu.Pipeline.{flush_pipeline, even_pc, word_pc}
use matar.Arm.Decode as ArmDecode
use matar.Arm.Exec as ArmExec
use matar.Thumb.Decode as ThumbDecode
use matar.Thumb.Exec as ThumbExec

-- `{}`
abbrev empty : Registers
empty i = 0

abbrev no_flags : Psr
no_flags = record { psr = 0 }

abbrev pub initial : Cpu
initial = record {
  gpr = empty;
  cpsr =
      Psr.set_state
        (Psr.set_fiq_disabled (Psr.set_irq_disabled (Psr.set_mode no_flags supervisor) true) true)
        arm;
  spsr = no_flags;
  gpr_banked = record {
    usr = empty;
    fiq = empty;
    svc = empty;
    abt = empty;
    irq = empty;
    und = empty;
  };
  spsr_banked = record {
    usr = no_flags;
    fiq = no_flags;
    svc = no_flags;
    abt = no_flags;
    irq = no_flags;
    und = no_flags;
  };
  next_access = sequential;
  opcode0 = 0;
  opcode1 = 0;
}

module _ (b : Bus) where
  -- A processor attached to a bus, with the pipeline filled from address 0.
  unfoldable pub start : b.Contents → Machine b
  start s = flush_pipeline b record { cpu = initial; bus = s }

  -- The second opcode moves up and the next one is fetched before the first is executed.
  unfoldable pub step_arm : Machine b → Machine b
  step_arm m =
      let c = record (word_pc m.cpu) { opcode0 = m.cpu.opcode1 } in
      let (op, s) = b.read_word (view c) (pc c) c.next_access m.bus in
      ArmExec.exec b (ArmDecode.decode m.cpu.opcode0)
        record { cpu = record c { opcode1 = op }; bus = s }

  unfoldable pub step_thumb : Machine b → Machine b
  step_thumb m =
      let c = record (even_pc m.cpu) { opcode0 = m.cpu.opcode1 } in
      let (op, s) = b.read_halfword (view c) (pc c) c.next_access m.bus in
      ThumbExec.exec b (ThumbDecode.decode (u16 m.cpu.opcode0))
        record { cpu = record c { opcode1 = op }; bus = s }

  unfoldable pub step : Machine b → Machine b
  unfolding step_arm step_thumb
  step m = elim (Psr.state m.cpu.cpsr) [ arm ↦ step_arm m | thumb ↦ step_thumb m ]
