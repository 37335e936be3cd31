-- ===== src/Psr.antt =====
-- src/cpu/psr.cc and include/cpu/psr.hh: the program status register, its mode, state and flags,
-- and the conditions that an instruction tests.
pub mod Flags
pub mod Compare
use matar.Base.{ℕ, ◌<◌, ◌^◌, ◌==◌, Bool, true, false, not, ◌&&◌, ◌||◌, beq, bit_and, bit_or}
use matar.Base.{if◌then◌else◌}
use matar.Bits.{get_bit, chg_bit}

-- `reserved` is a value of the underlying type that no enumerator has.
pub data Mode : Type 0 where
  user fiq irq supervisor abort undefined system : Mode
  reserved : ℕ → Mode

abbrev pub mode_bits : Mode → ℕ
mode_bits user = 0b10000
mode_bits fiq = 0b10001
mode_bits irq = 0b10010
mode_bits supervisor = 0b10011
mode_bits abort = 0b10111
mode_bits undefined = 0b11011
mode_bits system = 0b11111
mode_bits (reserved n) = n

-- `static_cast<Mode>`
abbrev pub mode_of : ℕ → Mode
mode_of n =
    if n == 0b10000
    then user
    else if n == 0b10001
    then fiq
    else if n == 0b10010
    then irq
    else if n == 0b10011
    then supervisor
    else if n == 0b10111
    then abort
    else if n == 0b11011
    then undefined
    else if n == 0b11111
    then system
    else reserved n

pub data State : Type 0 where
  arm thumb : State

abbrev pub state_of : Bool → State
state_of false = arm
state_of true = thumb

abbrev pub state_bit : State → Bool
state_bit arm = false
state_bit thumb = true

-- `carry_clear` is CC, `never` the value 0b1111 that no enumerator has.
pub data Condition : Type 0 where
  eq ne cs carry_clear mi pl vs vc hi ls ge lt gt le al never : Condition

-- `static_cast<Condition>` of four bits
abbrev pub condition_of : ℕ → Condition
condition_of n =
    if n == 0
    then eq
    else if n == 1
    then ne
    else if n == 2
    then cs
    else if n == 3
    then carry_clear
    else if n == 4
    then mi
    else if n == 5
    then pl
    else if n == 6
    then vs
    else if n == 7
    then vc
    else if n == 8
    then hi
    else if n == 9
    then ls
    else if n == 10
    then ge
    else if n == 11
    then lt
    else if n == 12
    then gt
    else if n == 13
    then le
    else if n == 14
    then al
    else never

pub record Psr : Type 0 where
  pub psr : ℕ

abbrev psr_clear_reserved : ℕ
psr_clear_reserved = 0xF00000FF

-- The constructor from a raw word.
unfoldable pub make : ℕ → Psr
make raw = record { psr = bit_and raw psr_clear_reserved }

unfoldable pub raw : Psr → ℕ
raw p = p.psr

unfoldable pub set_all : Psr → ℕ → Psr
set_all p raw = record p { psr = raw }

unfoldable pub mode : Psr → Mode
mode p = mode_of (bit_and p.psr 0b11111)

-- `psr &= 0b00000; psr |= mode`
unfoldable pub set_mode : Psr → Mode → Psr
set_mode p m = record p { psr = bit_or (bit_and p.psr 0b00000) (mode_bits m) }

unfoldable pub state : Psr → State
state p = state_of (get_bit p.psr 5)

unfoldable pub set_state : Psr → State → Psr
set_state p s = record p { psr = chg_bit 32 p.psr 5 (state_bit s) }

unfoldable pub fiq_disabled : Psr → Bool
fiq_disabled p = get_bit p.psr 6

unfoldable pub set_fiq_disabled : Psr → Bool → Psr
set_fiq_disabled p val = record p { psr = chg_bit 32 p.psr 6 val }

unfoldable pub irq_disabled : Psr → Bool
irq_disabled p = get_bit p.psr 7

unfoldable pub set_irq_disabled : Psr → Bool → Psr
set_irq_disabled p val = record p { psr = chg_bit 32 p.psr 7 val }

unfoldable pub v : Psr → Bool
v p = get_bit p.psr 28

unfoldable pub set_v : Psr → Bool → Psr
set_v p val = record p { psr = chg_bit 32 p.psr 28 val }

unfoldable pub c : Psr → Bool
c p = get_bit p.psr 29

unfoldable pub set_c : Psr → Bool → Psr
set_c p val = record p { psr = chg_bit 32 p.psr 29 val }

unfoldable pub z : Psr → Bool
z p = get_bit p.psr 30

unfoldable pub set_z : Psr → Bool → Psr
set_z p val = record p { psr = chg_bit 32 p.psr 30 val }

unfoldable pub n : Psr → Bool
n p = get_bit p.psr 31

unfoldable pub set_n : Psr → Bool → Psr
set_n p val = record p { psr = chg_bit 32 p.psr 31 val }

unfoldable pub condition : Psr → Condition → Bool
condition p eq = z p
condition p ne = not (z p)
condition p cs = c p
condition p carry_clear = not (c p)
condition p mi = n p
condition p pl = not (n p)
condition p vs = v p
condition p vc = not (v p)
condition p hi = c p && not (z p)
condition p ls = not (c p) || z p
condition p ge = beq (n p) (v p)
condition p lt = not (beq (n p) (v p))
condition p gt = not (z p) && beq (n p) (v p)
condition p le = z p || not (beq (n p) (v p))
condition p al = true
condition p never = false

-- What both `exec` functions do with the flags of a result: carry, overflow, negative, zero.
unfoldable pub set_flags : Psr → Bool → Bool → Bool → Bool → Psr
set_flags p carry overflow negative zero_flag =
    set_z (set_n (set_v (set_c p carry) overflow) negative) zero_flag
