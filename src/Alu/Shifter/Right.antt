-- ===== src/Alu/Shifter/Right.antt =====
-- `eval_shift` for LSR against the one-bit shifter.
use matar.Base.{ℕ, zero, suc, ◌/◌, ◌^◌, ◌<◌}
use matar.Base.{Bool, false, ◌≡◌, refl, arith}
use matar.Bits.{get_bit}
use matar.Alu.{lsr, eval_shift}
use matar.Alu.Shifter.{shift_times, halve}
use matar.Alu.Shifter.{gone}

module _ (v : ℕ) (c : Bool) (in_word : v < 2 ^ 32) where
  -- Right, filling with zeros.
  lsr_value : (n : ℕ) → (shift_times lsr n (v, c)).0 ≡ v / 2 ^ n
  unfolding shift_times
  lsr_value zero = omega arith
  lsr_value (suc n) = omega (arith, lsr_value n, halve v n)

  pub lsr_agrees : (n : ℕ) → eval_shift lsr false v n c ≡ shift_times lsr n (v, c)
  unfolding eval_shift get_bit shift_times
  lsr_agrees zero = refl
  lsr_agrees (suc n) =
      ground (arith, lsr_value n, lsr_value (suc n), gone v (suc n) in_word, gone v n in_word)
