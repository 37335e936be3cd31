-- ===== src/Cpu/Modes/View.antt =====
-- The registers as each mode sees them, and `chg_mode` of src/cpu/cpu.cc on them.
use matar.Base.{
  ℕ, ◌-◌, ◌==◌, leb, ltb, ◌&&◌, ◌||◌, if◌then◌else◌, Bool, true, false, ◌≡◌, refl, arith,
}
use matar.Cpu.State.{Cpu, set_cpsr}
use matar.Cpu.Modes.{chg_mode, save_bank, load_bank}
use matar.Base.{bit_and, ap, ◌∙◌, Bool-cases, inl, inr}
use matar.Psr.Flags.{raw-set_mode}
use matar.Psr
use matar.Psr.{
  Psr, Mode, user, fiq, irq, supervisor, abort, undefined, system, reserved, mode_bits, mode_of,
}

-- The modes that share one bank.
pub data Bank : Type 0 where
  usr svc abt irq' und fiq' nobody : Bank

abbrev pub bank_of : Mode → Bank
bank_of user = usr
bank_of system = usr
bank_of supervisor = svc
bank_of abort = abt
bank_of irq = irq'
bank_of undefined = und
bank_of fiq = fiq'
bank_of (reserved n) = nobody

abbrev pub same_bank : Bank → Bank → Bool
same_bank usr usr = true
same_bank svc svc = true
same_bank abt abt = true
same_bank irq' irq' = true
same_bank und und = true
same_bank fiq' fiq' = true
same_bank _ _ = false

-- Registers 13 and 14 where a bank keeps them.
abbrev pub banked_pair : Bank → Cpu → ℕ → ℕ
banked_pair usr c i = c.gpr_banked.usr (if i == 13 then 5 else 6)
banked_pair svc c i = c.gpr_banked.svc (if i == 13 then 0 else 1)
banked_pair abt c i = c.gpr_banked.abt (if i == 13 then 0 else 1)
banked_pair irq' c i = c.gpr_banked.irq (if i == 13 then 0 else 1)
banked_pair und c i = c.gpr_banked.und (if i == 13 then 0 else 1)
banked_pair fiq' c i = c.gpr_banked.fiq (if i == 13 then 5 else 6)
banked_pair nobody c i = c.gpr i

-- Registers 8 to 12: FIQ has its own, all other modes share theirs.
abbrev pub banked_middle : Bank → Bank → Cpu → ℕ → ℕ
banked_middle current fiq' c i =
    if same_bank current fiq' then c.gpr i else c.gpr_banked.fiq (i - 8)
banked_middle fiq' _ c i = c.gpr_banked.usr (i - 8)
banked_middle current _ c i = c.gpr i

-- Register `i` as the bank's modes see it, while a mode of the bank `current` runs.
abbrev pub seen : Bank → Bank → Cpu → ℕ → ℕ
seen current b c i =
    if (i == 13 || i == 14)
    then (if same_bank current b then c.gpr i else banked_pair b c i)
    else if leb 8 i && ltb i 13
    then banked_middle current b c i
    else c.gpr i

-- A mode that the processor has.
abbrev pub IsMode : Mode → Type 0
IsMode (reserved n) = ⊥
IsMode _ = Unit {0}

-- The processor after both switches of `chg_mode`, with the status register that it then writes.
abbrev switched : Mode → Mode → Cpu → Psr → Cpu
switched from to c p = set_cpsr (load_bank to (save_bank from c)) p

keeps :
    (from to m : Mode) (c : Cpu) (i : ℕ) (p : Psr)
    → IsMode from
    → IsMode to
    → IsMode m
    → seen (bank_of to) (bank_of m) (switched from to c p) i ≡ seen (bank_of from) (bank_of m) c i
unfolding save_bank load_bank
keeps (reserved k) to m c i p h1 h2 h3 = absurd h1
keeps from (reserved k) m c i p h1 h2 h3 = absurd h2
keeps from to (reserved k) c i p h1 h2 h3 = absurd h3
keeps from to m c i p h1 h2 h3 = ground arith

-- The saved status register that the bank's modes see.
abbrev pub banked_spsr : Bank → Cpu → Psr
banked_spsr usr c = c.spsr_banked.usr
banked_spsr svc c = c.spsr_banked.svc
banked_spsr abt c = c.spsr_banked.abt
banked_spsr irq' c = c.spsr_banked.irq
banked_spsr und c = c.spsr_banked.und
banked_spsr fiq' c = c.spsr_banked.fiq
banked_spsr nobody c = c.spsr

abbrev pub seen_spsr : Bank → Bank → Cpu → Psr
seen_spsr current b c = if same_bank current b then c.spsr else banked_spsr b c

keeps_spsr :
    (from to m : Mode) (c : Cpu) (p : Psr)
    → IsMode from
    → IsMode to
    → IsMode m
    → seen_spsr (bank_of to) (bank_of m) (switched from to c p)
      ≡ seen_spsr (bank_of from) (bank_of m) c
unfolding save_bank load_bank
keeps_spsr (reserved k) to m c p h1 h2 h3 = absurd h1
keeps_spsr from (reserved k) m c p h1 h2 h3 = absurd h2
keeps_spsr from to (reserved k) c p h1 h2 h3 = absurd h3
keeps_spsr from to m c p h1 h2 h3 = refl

same_mode : (a b : Mode) → IsMode a → IsMode b → (mode_bits a == mode_bits b) ≡ true → a ≡ b
same_mode (reserved k) b h1 h2 e = absurd h1
same_mode a (reserved k) h1 h2 e = absurd h2
same_mode a b h1 h2 e = ground arith

bits_of_mode : (m : Mode) → IsMode m → mode_of (bit_and (mode_bits m) 0b11111) ≡ m
bits_of_mode (reserved k) h = absurd h
bits_of_mode m h = refl

pub mode-set_mode : (p : Psr) (m : Mode) → IsMode m → Psr.mode (Psr.set_mode p m) ≡ m
unfolding Psr.mode Psr.raw
mode-set_mode p m h =
    ap (λ (x : ℕ). mode_of (bit_and x 0b11111)) (raw-set_mode p m) ∙ bits_of_mode m h

-- What a mode sees of register `i` depends on that register and on the banks.
module _ (c c' : Cpu) (i : ℕ) (same_register : c'.gpr i ≡ c.gpr i)
    (same_banks : c'.gpr_banked ≡ c.gpr_banked) where
  pair_same : (b : Bank) → banked_pair b c' i ≡ banked_pair b c i
  pair_same usr = rw same_banks refl
  pair_same svc = rw same_banks refl
  pair_same abt = rw same_banks refl
  pair_same irq' = rw same_banks refl
  pair_same und = rw same_banks refl
  pair_same fiq' = rw same_banks refl
  pair_same nobody = same_register

  middle_same : (running b : Bank) → banked_middle running b c' i ≡ banked_middle running b c i
  middle_same fiq' fiq' = same_register
  middle_same running fiq' = rw same_banks refl
  middle_same fiq' b = rw same_banks refl
  middle_same running b = same_register

  pub seen_same : (running b : Bank) → seen running b c' i ≡ seen running b c i
  seen_same running b = rw (pair_same b, middle_same running b, same_register) refl

-- The mode that runs.
abbrev pub current : Cpu → Bank
current c = bank_of (Psr.mode c.cpsr)

-- What a change of mode promises of register `i` as mode `m` sees it.
pub record ChangesMode (to m : Mode) (i : ℕ) (c c' : Cpu) : Type 0 where
  pub in_mode : Psr.mode c'.cpsr ≡ to
  pub same_register : seen (current c') (bank_of m) c' i ≡ seen (current c) (bank_of m) c i
  pub same_spsr : seen_spsr (current c') (bank_of m) c' ≡ seen_spsr (current c) (bank_of m) c

-- Between two modes of the processor, `chg_mode` leaves each register and the saved status
-- register, as any mode sees them, as they were, and the new mode runs.
pub chg_mode-ChangesMode :
    (to m : Mode) (i : ℕ) (c : Cpu)
    → IsMode (Psr.mode c.cpsr)
    → IsMode to
    → IsMode m
    → ChangesMode to m i c (chg_mode to c)
unfolding chg_mode
chg_mode-ChangesMode to m i c from_mode to_mode seen_mode =
    elim (Bool-cases (mode_bits (Psr.mode c.cpsr) == mode_bits to)) [
      | inl same ↦ rw same (record {
        in_mode = same_mode (Psr.mode c.cpsr) to from_mode to_mode same;
        same_register = refl;
        same_spsr = refl;
      })
      | inr other ↦ rw other (record {
        in_mode = mode-set_mode moved.cpsr to to_mode;
        same_register = rw (mode-set_mode moved.cpsr to to_mode) (
            keeps (Psr.mode c.cpsr) to m c i (Psr.set_mode moved.cpsr to) from_mode to_mode
              seen_mode);
        same_spsr = rw (mode-set_mode moved.cpsr to to_mode) (
            keeps_spsr (Psr.mode c.cpsr) to m c (Psr.set_mode moved.cpsr to) from_mode to_mode
              seen_mode);
      })
    ]
  where
    moved : Cpu
    moved = load_bank to (save_bank (Psr.mode c.cpsr) c)
