-- ===== src/System/Interrupts.antt =====
-- The request flags of the interrupt controller, bit by bit.
use matar.Base.{
  ℕ, ◌-◌, ◌^◌, ◌<◌, ◌≡◌, ◌≢◌, refl, true, min, arith, digit, digit-bit_and, digit-bit_or,
  digit-two_pow_self, digit_of_complement, bit_not, digit-of-zero, digit-lt-two, bit_and, bit_or,
  ==_false,
}
use matar.Bus.Cycles.{CycleMap}
use matar.System.{
  Irq, irq_number, System, raise_irq, any_irq_is_pending, read_halfword, write_halfword,
}

-- A write to IF clears the flags that are set in it and no other.
pub write_halfword-acknowledges :
    (s : System) (map : CycleMap) (halfword n : ℕ)
    → halfword < 2 ^ 16
    → n < 16
    → digit (read_halfword 0x4000202 (write_halfword 0x4000202 halfword (s, map)).0) n
      ≡ min (digit (read_halfword 0x4000202 s) n) (1 - digit halfword n)
unfolding read_halfword write_halfword
write_halfword-acknowledges s map halfword n hh hn = omega (
  arith,
  digit-bit_and s.interrupt_request_flags (bit_not 16 halfword) n,
  digit_of_complement 16 halfword n hh hn,
)

common_digit : (a b n : ℕ) → digit a n ≡ 1 → digit b n ≡ 1 → bit_and a b ≢ 0
common_digit a b n ha hb e =
    let both : digit 0 n ≡ min (digit a n) (digit b n) = rw (← e) (digit-bit_and a b n) in
    omega (arith, both, digit-of-zero n)

-- A raised interrupt that is enabled is pending, when the master enabler is set.
pub raise_irq-pending :
    (s : System) (event : Irq)
    → s.interrupt_master_enabler ≡ true
    → digit s.interrupt_enable (irq_number event) ≡ 1
    → any_irq_is_pending (raise_irq event s) ≡ true
unfolding raise_irq any_irq_is_pending
raise_irq-pending s event master enabled =
    let raised = digit-bit_or s.interrupt_request_flags (2 ^ irq_number event) (irq_number event) in
    let set : digit (bit_or s.interrupt_request_flags (2 ^ irq_number event)) (irq_number event)
        ≡ 1 =
      omega (
        arith,
        raised,
        digit-two_pow_self (irq_number event),
        digit-lt-two s.interrupt_request_flags (irq_number event),
      ) in
    let common = common_digit _ _ (irq_number event) enabled set in
    rw (master, ==_false _ _ common) refl
