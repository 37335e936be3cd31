-- ===== src/Cpu/Pipeline/Interrupt.antt =====
-- What `Cpu::irq` of src/cpu/cpu.cc does to the processor when the interrupt is let in.
use matar.Base.{ℕ, ◌≡◌, ◌*◌, ◌/◌, ◌≢◌, refl, ap, ◌∙◌, sym, arith, true, false}
use matar.BusApi.{Bus}
use matar.Psr
use matar.Psr.{Mode, arm, irq}
use matar.Psr.Flags.{mode-set_state, mode-set_irq_disabled, state-set_state}
use matar.Psr.Flags.{state-set_irq_disabled, irq_disabled-set_irq_disabled}
use matar.Cpu.State.{Registers, Cpu, Machine, pc, lr, set, pc_index}
use matar.Cpu.Access.{with_cpu}
use matar.Cpu.Modes.{chg_mode, save_bank, load_bank}
use matar.Cpu.Modes.View.{
  IsMode, ChangesMode, chg_mode-ChangesMode, seen, bank_of, current, same_bank, irq', fiq', Bank,
  banked_pair, banked_middle, seen_same,
}
use matar.Base.{==_false, if_both}
use matar.Cpu.Pipeline.{irq_entry, irq_request, return_address, flush_pipeline}
use matar.Cpu.Pipeline.Refill.{Refilled, IsFilled, IsFilled-at, size_of, flush_pipeline-Refilled}

-- The processor `c'` in the handler, entered from `c`: what mode `m` sees of register `i` is kept.
pub record IsInterrupted (m : Mode) (i : ℕ) (c c' : Cpu) : Type 0 where
  pub in_irq_mode : Psr.mode c'.cpsr ≡ irq
  pub in_arm_state : Psr.state c'.cpsr ≡ arm
  pub is_masked : Psr.irq_disabled c'.cpsr ≡ true
  pub links : lr c' ≡ return_address c
  pub saves_status : c'.spsr ≡ c.cpsr
  pub same_register : seen (current c') (bank_of m) c' i ≡ seen (current c) (bank_of m) c i

not_irq : (m : Mode) → IsMode m → m ≢ irq → same_bank (bank_of m) irq' ≡ false
not_irq irq h ne = absurd (ne refl)
not_irq (Mode.reserved n) h ne = absurd h
not_irq m h ne = refl

-- Writing the bank of IRQ mode is not seen by the other modes.
abbrev with_irq_bank : Cpu → Registers → Cpu
with_irq_bank c r = record c {
  gpr_banked = record (c.gpr_banked) { irq = r };
  spsr_banked = record (c.spsr_banked) { irq = c.cpsr };
}

-- A change of mode does not touch the pipeline.
abbrev SameOpcodes : Cpu → Cpu → Type 0
SameOpcodes c c' = (c'.opcode0 ≡ c.opcode0) × (c'.opcode1 ≡ c.opcode1)

save_bank-SameOpcodes : (m : Mode) (c : Cpu) → SameOpcodes c (save_bank m c)
unfolding save_bank
save_bank-SameOpcodes Mode.user c = (refl, refl)
save_bank-SameOpcodes Mode.fiq c = (refl, refl)
save_bank-SameOpcodes irq c = (refl, refl)
save_bank-SameOpcodes Mode.supervisor c = (refl, refl)
save_bank-SameOpcodes Mode.abort c = (refl, refl)
save_bank-SameOpcodes Mode.undefined c = (refl, refl)
save_bank-SameOpcodes Mode.system c = (refl, refl)
save_bank-SameOpcodes (Mode.reserved n) c = (refl, refl)

load_bank-SameOpcodes : (m : Mode) (c : Cpu) → SameOpcodes c (load_bank m c)
unfolding load_bank
load_bank-SameOpcodes Mode.user c = (refl, refl)
load_bank-SameOpcodes Mode.fiq c = (refl, refl)
load_bank-SameOpcodes irq c = (refl, refl)
load_bank-SameOpcodes Mode.supervisor c = (refl, refl)
load_bank-SameOpcodes Mode.abort c = (refl, refl)
load_bank-SameOpcodes Mode.undefined c = (refl, refl)
load_bank-SameOpcodes Mode.system c = (refl, refl)
load_bank-SameOpcodes (Mode.reserved n) c = (refl, refl)

chg_mode-SameOpcodes : (to : Mode) (c : Cpu) → SameOpcodes c (chg_mode to c)
unfolding chg_mode
chg_mode-SameOpcodes to c =
    let saved = save_bank-SameOpcodes (Psr.mode c.cpsr) c in
    let loaded = load_bank-SameOpcodes to (save_bank (Psr.mode c.cpsr) c) in
    if_both (SameOpcodes c) _ _ _ (refl, refl) (loaded.0 ∙ saved.0, loaded.1 ∙ saved.1)

irq_entry-SameOpcodes : (c : Cpu) → SameOpcodes c (irq_entry c)
unfolding irq_entry
irq_entry-SameOpcodes c =
    chg_mode-SameOpcodes irq (with_irq_bank c (set c.gpr_banked.irq 1 (return_address c)))

unseen_pair :
    (c : Cpu) (r : Registers) (m : Mode) (i : ℕ)
    → IsMode m
    → m ≢ irq
    → banked_pair (bank_of m) (with_irq_bank c r) i ≡ banked_pair (bank_of m) c i
unseen_pair c r irq i h ne = absurd (ne refl)
unseen_pair c r (Mode.reserved n) i h ne = absurd h
unseen_pair c r m i h ne = refl

unseen_middle :
    (c : Cpu) (r : Registers) (running : Bank) (m : Mode) (i : ℕ)
    → banked_middle running (bank_of m) (with_irq_bank c r) i
      ≡ banked_middle running (bank_of m) c i
unseen_middle c r running m i = middle running (bank_of m)
  where
    middle : (x b : Bank) → banked_middle x b (with_irq_bank c r) i ≡ banked_middle x b c i
    middle fiq' fiq' = refl
    middle x fiq' = refl
    middle fiq' b = refl
    middle x b = refl

module _ (c : Cpu) (from_mode : IsMode (Psr.mode c.cpsr)) (other : Psr.mode c.cpsr ≢ irq) where
  -- The registers with the two banked values that `irq` writes.
  abbrev banks : Registers
  banks = set c.gpr_banked.irq 1 (return_address c)

  abbrev banked : Cpu
  banked = with_irq_bank c banks

  abbrev moved : Cpu
  moved = chg_mode irq banked

  changes : ChangesMode irq irq 14 banked moved
  changes = chg_mode-ChangesMode irq irq 14 banked from_mode tt tt

  from_other_bank : same_bank (current c) irq' ≡ false
  from_other_bank = not_irq (Psr.mode c.cpsr) from_mode other

  link_seen : lr moved ≡ return_address c
  link_seen = rw changes.in_mode refl ∙ changes.same_register ∙ rw from_other_bank refl

  status_seen : moved.spsr ≡ c.cpsr
  status_seen = rw changes.in_mode refl ∙ changes.same_spsr ∙ rw from_other_bank refl

  unseen :
      (m : Mode) (i : ℕ)
      → IsMode m
      → m ≢ irq
      → seen (current c) (bank_of m) banked i ≡ seen (current c) (bank_of m) c i
  unseen m i h seen_other =
      rw (unseen_pair c banks m i h seen_other, unseen_middle c banks (current c) m i) refl

  irq_mode : Psr.mode (irq_entry c).cpsr ≡ irq
  unfolding irq_entry
  irq_mode =
      mode-set_irq_disabled (Psr.set_state moved.cpsr arm) true
      ∙ mode-set_state moved.cpsr arm
      ∙ changes.in_mode

  arm_state : Psr.state (irq_entry c).cpsr ≡ arm
  unfolding irq_entry
  arm_state =
      state-set_irq_disabled (Psr.set_state moved.cpsr arm) true ∙ state-set_state moved.cpsr arm

  -- On entry, before the flush.
  pub irq_entry-IsInterrupted :
      (m : Mode) (i : ℕ) → IsMode m → m ≢ irq → i ≢ pc_index → IsInterrupted m i c (irq_entry c)
  unfolding irq_entry
  irq_entry-IsInterrupted m i h seen_other ne = record {
    in_irq_mode = irq_mode;
    in_arm_state = arm_state;
    is_masked = irq_disabled-set_irq_disabled (Psr.set_state moved.cpsr arm) true;
    links = link_seen;
    saves_status = status_seen;
    same_register =
        ap (λ (t : Mode). seen (bank_of t) (bank_of m) (irq_entry c) i) irq_mode
        ∙ seen_same moved (irq_entry c) i (rw (==_false i pc_index ne) refl) refl irq' (bank_of m)
        ∙ ap (λ (t : Mode). seen (bank_of t) (bank_of m) moved i) (sym changes.in_mode)
        ∙ (chg_mode-ChangesMode irq m i banked from_mode tt h).same_register
        ∙ unseen m i h seen_other;
  }

module _ (b : Bus) (m : Mode) (i : ℕ) (x : Machine b) (h : IsMode m) (seen_other : m ≢ irq)
    (not_pc : i ≢ pc_index) (from_mode : IsMode (Psr.mode x.cpu.cpsr))
    (other : Psr.mode x.cpu.cpsr ≢ irq) (enabled : Psr.irq_disabled x.cpu.cpsr ≡ false) where
  abbrev entered : Machine b
  entered = with_cpu b x (irq_entry x.cpu)

  at_entry : IsInterrupted m i x.cpu entered.cpu
  at_entry = irq_entry-IsInterrupted x.cpu from_mode other m i h seen_other not_pc

  entry_pc : pc entered.cpu ≡ 0x18
  unfolding irq_entry
  entry_pc = refl

  abbrev flushed : Machine b
  flushed = flush_pipeline b entered

  let_in : irq_request b x ≡ flushed
  unfolding irq_request
  let_in = rw enabled refl

  refilled : (j : ℕ) → j ≢ pc_index → Refilled b j entered flushed
  refilled j ne = flush_pipeline-Refilled b j entered (rw entry_pc (omega arith)) ne

  handler_pc : pc flushed.cpu ≡ 0x20
  handler_pc = (refilled i not_pc).at_pc ∙ rw (at_entry.in_arm_state, entry_pc) refl

  entry_target :
      pc entered.cpu / size_of (Psr.state entered.cpu.cpsr) * size_of (Psr.state entered.cpu.cpsr)
      ≡ 0x18
  entry_target = rw (at_entry.in_arm_state, entry_pc) (omega arith)

  -- The entry changes neither the pipeline nor the bus, so the flush fetches what the processor would.
  filled_at_entry :
      (after : Machine b) → IsFilled b arm 0x18 entered after → IsFilled b arm 0x18 x after
  filled_at_entry after filled =
      let same = irq_entry-SameOpcodes x.cpu in rw same.0 at (rw same.1 at filled)

  -- From a mode of the processor other than IRQ, with interrupts enabled, a request leaves the
  -- processor in IRQ mode and ARM state with interrupts disabled, the return address in the link
  -- register, the old status register saved and the pipeline filled with the two words from the vector on,
  -- fetched in order; what every other mode sees of its registers, the program counter excepted, is kept.
  pub irq_request-IsInterrupted :
      IsInterrupted m i x.cpu (irq_request b x).cpu
      × (pc (irq_request b x).cpu ≡ 0x20)
      × IsFilled b arm 0x18 x (irq_request b x)
  irq_request-IsInterrupted =
      let r = refilled i not_pc in
      rw let_in (
        record {
          in_irq_mode = ap Psr.mode r.same_cpsr ∙ at_entry.in_irq_mode;
          in_arm_state = ap Psr.state r.same_cpsr ∙ at_entry.in_arm_state;
          is_masked = ap Psr.irq_disabled r.same_cpsr ∙ at_entry.is_masked;
          links = (refilled 14 (omega arith)).same_gpr ∙ at_entry.links;
          saves_status = r.same_spsr ∙ at_entry.saves_status;
          same_register =
              ap (λ (p : Psr.Psr). seen (bank_of (Psr.mode p)) (bank_of m) flushed.cpu i)
                r.same_cpsr
              ∙ seen_same entered.cpu flushed.cpu i r.same_gpr r.same_banks (current entered.cpu)
                  (bank_of m)
              ∙ at_entry.same_register;
        },
        handler_pc,
        filled_at_entry flushed (
            IsFilled-at b _ arm _ 0x18 entered flushed at_entry.in_arm_state entry_target r.filled),
      )
