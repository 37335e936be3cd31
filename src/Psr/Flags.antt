-- ===== src/Psr/Flags.antt =====
-- The flags and the control bits of the status register of src/cpu/psr.cc.
use matar.Base.{ℕ, ◌^◌, ◌<◌, ◌≡◌, refl, ap, ◌∙◌, arith, bit_and, bit_and_low}
use matar.Base.{Bool, ◌≢◌, ◌≤◌, bit_and-zero, zero-bit_or}
use matar.Bits.{get_bit, chg_bit}
use matar.Bits.Laws.{get_bit-chg_bit_self, get_bit-chg_bit_ne, digit-chg_bit_ne, chg_bit-lt}
use matar.Psr
use matar.Psr.{Mode, State, Psr, mode_of, mode_bits, state_of, state_bit, arm, thumb}

-- A bit from 5 up does not reach the mode.
mode_after : (x k : ℕ) (b : Bool) → 5 ≤ k → k < 32 → bit_and (chg_bit 32 x k b) 31 ≡ bit_and x 31
mode_after x k b low high = omega (
  arith,
  bit_and_low 5 x,
  bit_and_low 5 (chg_bit 32 x k b),
  digit-chg_bit_ne 32 x k b high 0 (omega arith) (omega arith),
  digit-chg_bit_ne 32 x k b high 1 (omega arith) (omega arith),
  digit-chg_bit_ne 32 x k b high 2 (omega arith) (omega arith),
  digit-chg_bit_ne 32 x k b high 3 (omega arith) (omega arith),
  digit-chg_bit_ne 32 x k b high 4 (omega arith) (omega arith),
)

module _ (x : ℕ) (b1 b2 b3 b4 : Bool) where
  -- The four writes of `set_flags`, in its order.
  abbrev written : ℕ
  written = chg_bit 32 (chg_bit 32 (chg_bit 32 (chg_bit 32 x 29 b1) 28 b2) 31 b3) 30 b4

  kept : (k : ℕ) → k < 32 → 29 ≢ k → 28 ≢ k → 31 ≢ k → 30 ≢ k → get_bit written k ≡ get_bit x k
  kept k h p q r s =
      get_bit-chg_bit_ne 32 (chg_bit 32 (chg_bit 32 (chg_bit 32 x 29 b1) 28 b2) 31 b3) 30 b4
        (omega arith) k s h
      ∙ get_bit-chg_bit_ne 32 (chg_bit 32 (chg_bit 32 x 29 b1) 28 b2) 31 b3 (omega arith) k r h
      ∙ get_bit-chg_bit_ne 32 (chg_bit 32 x 29 b1) 28 b2 (omega arith) k q h
      ∙ get_bit-chg_bit_ne 32 x 29 b1 (omega arith) k p h

  written_z : get_bit written 30 ≡ b4
  written_z =
      get_bit-chg_bit_self 32 (chg_bit 32 (chg_bit 32 (chg_bit 32 x 29 b1) 28 b2) 31 b3) 30 b4
        (omega arith)

  written_n : get_bit written 31 ≡ b3
  written_n =
      get_bit-chg_bit_ne 32 (chg_bit 32 (chg_bit 32 (chg_bit 32 x 29 b1) 28 b2) 31 b3) 30 b4
        (omega arith) 31 (omega arith) (omega arith)
      ∙ get_bit-chg_bit_self 32 (chg_bit 32 (chg_bit 32 x 29 b1) 28 b2) 31 b3 (omega arith)

  written_v : get_bit written 28 ≡ b2
  written_v =
      get_bit-chg_bit_ne 32 (chg_bit 32 (chg_bit 32 (chg_bit 32 x 29 b1) 28 b2) 31 b3) 30 b4
        (omega arith) 28 (omega arith) (omega arith)
      ∙ get_bit-chg_bit_ne 32 (chg_bit 32 (chg_bit 32 x 29 b1) 28 b2) 31 b3 (omega arith) 28
          (omega arith) (omega arith)
      ∙ get_bit-chg_bit_self 32 (chg_bit 32 x 29 b1) 28 b2 (omega arith)

  written_c : get_bit written 29 ≡ b1
  written_c =
      get_bit-chg_bit_ne 32 (chg_bit 32 (chg_bit 32 (chg_bit 32 x 29 b1) 28 b2) 31 b3) 30 b4
        (omega arith) 29 (omega arith) (omega arith)
      ∙ get_bit-chg_bit_ne 32 (chg_bit 32 (chg_bit 32 x 29 b1) 28 b2) 31 b3 (omega arith) 29
          (omega arith) (omega arith)
      ∙ get_bit-chg_bit_ne 32 (chg_bit 32 x 29 b1) 28 b2 (omega arith) 29 (omega arith)
          (omega arith)
      ∙ get_bit-chg_bit_self 32 x 29 b1 (omega arith)

  mode_kept : bit_and written 31 ≡ bit_and x 31
  mode_kept =
      mode_after (chg_bit 32 (chg_bit 32 (chg_bit 32 x 29 b1) 28 b2) 31 b3) 30 b4 (omega arith)
        (omega arith)
      ∙ mode_after (chg_bit 32 (chg_bit 32 x 29 b1) 28 b2) 31 b3 (omega arith) (omega arith)
      ∙ mode_after (chg_bit 32 x 29 b1) 28 b2 (omega arith) (omega arith)
      ∙ mode_after x 29 b1 (omega arith) (omega arith)

-- What `set_flags` leaves in the status register.
pub record HasFlags (p q : Psr) (carry overflow negative zero_flag : Bool) : Type 0 where
  pub has_c : Psr.c q ≡ carry
  pub has_v : Psr.v q ≡ overflow
  pub has_n : Psr.n q ≡ negative
  pub has_z : Psr.z q ≡ zero_flag
  pub same_mode : Psr.mode q ≡ Psr.mode p
  pub same_state : Psr.state q ≡ Psr.state p
  pub same_fiq : Psr.fiq_disabled q ≡ Psr.fiq_disabled p
  pub same_irq : Psr.irq_disabled q ≡ Psr.irq_disabled p
  pub in_word : q.psr < 2 ^ 32

-- Each flag is written with its own value, and mode, state and interrupt masks stay.
pub set_flags-HasFlags :
    (p : Psr) (carry overflow negative zero_flag : Bool)
    → HasFlags p
        (Psr.set_flags p carry overflow negative zero_flag)
        carry
        overflow
        negative
        zero_flag
unfolding Psr.set_flags Psr.set_c Psr.set_v Psr.set_n Psr.set_z Psr.c Psr.v Psr.n Psr.z Psr.mode
    Psr.state Psr.fiq_disabled Psr.irq_disabled
set_flags-HasFlags p b1 b2 b3 b4 = record {
  has_c = written_c p.psr b1 b2 b3 b4;
  has_v = written_v p.psr b1 b2 b3 b4;
  has_n = written_n p.psr b1 b2 b3 b4;
  has_z = written_z p.psr b1 b2 b3 b4;
  same_mode = ap mode_of (mode_kept p.psr b1 b2 b3 b4);
  same_state = ap state_of (
      kept p.psr b1 b2 b3 b4 5 (omega arith) (omega arith) (omega arith) (omega arith)
        (omega arith));
  same_fiq =
      kept p.psr b1 b2 b3 b4 6 (omega arith) (omega arith) (omega arith) (omega arith)
        (omega arith);
  same_irq =
      kept p.psr b1 b2 b3 b4 7 (omega arith) (omega arith) (omega arith) (omega arith)
        (omega arith);
  in_word =
      chg_bit-lt 32 (chg_bit 32 (chg_bit 32 (chg_bit 32 p.psr 29 b1) 28 b2) 31 b3) 30 b4
        (omega arith);
}

-- `set_mode` keeps nothing of the register but the new mode: flags, state and masks become 0.
pub raw-set_mode : (p : Psr) (m : Mode) → Psr.raw (Psr.set_mode p m) ≡ mode_bits m
unfolding Psr.raw Psr.set_mode
raw-set_mode p m = rw bit_and-zero (zero-bit_or (mode_bits m))

-- The setters of the state and of the IRQ mask, and what they leave.
pub mode-set_state : (p : Psr) (s : State) → Psr.mode (Psr.set_state p s) ≡ Psr.mode p
unfolding Psr.mode Psr.set_state
mode-set_state p s = ap mode_of (mode_after p.psr 5 (state_bit s) (omega arith) (omega arith))

pub mode-set_irq_disabled :
    (p : Psr) (val : Bool) → Psr.mode (Psr.set_irq_disabled p val) ≡ Psr.mode p
unfolding Psr.mode Psr.set_irq_disabled
mode-set_irq_disabled p val = ap mode_of (mode_after p.psr 7 val (omega arith) (omega arith))

pub state-set_state : (p : Psr) (s : State) → Psr.state (Psr.set_state p s) ≡ s
unfolding Psr.state Psr.set_state
state-set_state p s =
    ap state_of (get_bit-chg_bit_self 32 p.psr 5 (state_bit s) (omega arith)) ∙ back s
  where
    back : (t : State) → state_of (state_bit t) ≡ t
    back arm = refl
    back thumb = refl

pub state-set_irq_disabled :
    (p : Psr) (val : Bool) → Psr.state (Psr.set_irq_disabled p val) ≡ Psr.state p
unfolding Psr.state Psr.set_irq_disabled
state-set_irq_disabled p val =
    ap state_of (get_bit-chg_bit_ne 32 p.psr 7 val (omega arith) 5 (omega arith) (omega arith))

pub irq_disabled-set_irq_disabled :
    (p : Psr) (val : Bool) → Psr.irq_disabled (Psr.set_irq_disabled p val) ≡ val
unfolding Psr.irq_disabled Psr.set_irq_disabled
irq_disabled-set_irq_disabled p val = get_bit-chg_bit_self 32 p.psr 7 val (omega arith)
