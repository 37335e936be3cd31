-- ===== src/Arm/Exec/Data/Return.antt =====
-- `SUBS PC, LR, #4` of src/cpu/arm/exec.cc, by which a handler returns from an interrupt.
use matar.Base.{ℕ, ◌*◌, ◌≡◌, ◌≢◌, refl, ap, ◌∙◌, sym, arith, true, sub32}
use matar.Base.{inl, inr, ==_false, Bool}
use matar.Alu.{sub, eval_shift}
use matar.Psr
use matar.Psr.{Mode, irq}
use matar.Cpu.State.{Cpu, pc, lr, set_gpr, pc_index}
use matar.Cpu.Modes.{chg_mode}
use matar.Cpu.Modes.View.{
  IsMode, ChangesMode, chg_mode-ChangesMode, seen, bank_of, current, seen_same,
}
use matar.Cpu.Pipeline.{irq_entry, return_address}
use matar.Cpu.Pipeline.Refill.{size_of, State-cases}
use matar.Cpu.Pipeline.Interrupt.{IsInterrupted, irq_entry-IsInterrupted}
use matar.Arm.Instruction
use matar.Arm.Exec.Data.{data_processing_registers, operands, alu_result, restore_status}

abbrev pub subs_pc_lr_four : Instruction.DataProcessing
subs_pc_lr_four = record {
  operand = Instruction.Operand.rotate record { value = 4; rot = 0 };
  rd = 15;
  rn = 14;
  set = true;
  opcode = Instruction.OpCode.sub;
}

returning :
    (c : Cpu)
    → data_processing_registers subs_pc_lr_four c
      ≡ (true, set_gpr (restore_status c) pc_index (sub (lr c) 4).value)
unfolding data_processing_registers operands alu_result eval_shift
returning c = refl

-- The instruction that the interrupt kept from running.
next_instruction :
    (c : Cpu) → sub32 (return_address c) 4 ≡ sub32 (pc c) (2 * size_of (Psr.state c.cpsr))
next_instruction c = elim (State-cases (Psr.state c.cpsr)) [
  | inl in_arm ↦ rw (in_arm, return_address) (omega arith)
  | inr in_thumb ↦ rw (in_thumb, return_address) (omega arith)
]

module _ (m : Mode) (i : ℕ) (c : Cpu) (h : IsMode m) (seen_other : m ≢ irq) (not_pc : i ≢ pc_index)
    (from_mode : IsMode (Psr.mode c.cpsr)) (other : Psr.mode c.cpsr ≢ irq) where
  abbrev handled : Cpu
  handled = irq_entry c

  abbrev back : Cpu
  back = (data_processing_registers subs_pc_lr_four handled).1

  entered : IsInterrupted m i c handled
  entered = irq_entry-IsInterrupted c from_mode other m i h seen_other not_pc

  saved_mode : Psr.mode handled.spsr ≡ Psr.mode c.cpsr
  saved_mode = ap Psr.mode entered.saves_status

  abbrev switched : Cpu
  switched = chg_mode (Psr.mode handled.spsr) handled

  changes : ChangesMode (Psr.mode handled.spsr) m i handled switched
  changes =
      chg_mode-ChangesMode (Psr.mode handled.spsr) m i handled (rw entered.in_irq_mode tt)
        (rw saved_mode from_mode) h

  -- The registers that `returning` gives.
  abbrev landed : Cpu
  landed = set_gpr (restore_status handled) pc_index (sub (lr handled) 4).value

  status_restored : landed.cpsr ≡ c.cpsr
  unfolding restore_status
  status_restored = entered.saves_status

  pc-landed : pc landed ≡ sub32 (pc c) (2 * size_of (Psr.state c.cpsr))
  unfolding sub
  pc-landed = ap (λ (x : ℕ). sub32 x 4) entered.links ∙ next_instruction c

  seen-landed : seen (current landed) (bank_of m) landed i ≡ seen (current c) (bank_of m) c i
  unfolding restore_status
  seen-landed =
      seen_same switched landed i (rw (==_false i pc_index not_pc) refl) refl
        (bank_of (Psr.mode handled.spsr)) (bank_of m)
      ∙ ap (λ (t : Mode). seen (bank_of t) (bank_of m) switched i) (sym changes.in_mode)
      ∙ changes.same_register
      ∙ entered.same_register

  -- From a mode of the processor other than IRQ, entering the handler and returning from it with
  -- `SUBS PC, LR, #4` restores the status register and what each mode but IRQ sees of its registers,
  -- the program counter excepted, and the program goes on, after a flush, at the instruction that was about to run.
  pub irq_entry-return :
      ((data_processing_registers subs_pc_lr_four (irq_entry c)).0 ≡ true)
      × (back.cpsr ≡ c.cpsr)
      × (pc back ≡ sub32 (pc c) (2 * size_of (Psr.state c.cpsr)))
      × (seen (current back) (bank_of m) back i ≡ seen (current c) (bank_of m) c i)
  irq_entry-return = (
    ap (λ (x : Bool × Cpu). x.0) (returning handled),
    ap (λ (x : Bool × Cpu). x.1.cpsr) (returning handled) ∙ status_restored,
    ap (λ (x : Bool × Cpu). pc x.1) (returning handled) ∙ pc-landed,
    ap (λ (x : Bool × Cpu). seen (current x.1) (bank_of m) x.1 i) (returning handled) ∙ seen-landed,
  )
