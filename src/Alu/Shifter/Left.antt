-- ===== src/Alu/Shifter/Left.antt =====
-- `eval_shift` for LSL against the one-bit shifter.
use matar.Base.{ℕ, zero, suc, ◌-◌, ◌*◌, ◌/◌, ◌%◌, ◌^◌, ◌≤◌, ◌<◌, ◌==◌}
use matar.Base.{Bool, false, ◌≡◌, refl, sym, ap, arith}
use native.Mathlib.Nat.{pow-suc, one-le-pow}
use matar.Bits.{get_bit}
use matar.Alu.{lsl, eval_shift}
use matar.Alu.Shifter.{shift_times, top_of_product, two_pow_split}

module _ (v : ℕ) (c : Bool) (in_word : v < 2 ^ 32) where
  -- Left.
  lsl_value : (n : ℕ) → (shift_times lsl n (v, c)).0 ≡ v * 2 ^ n % 2 ^ 32
  unfolding shift_times
  lsl_value zero = omega arith
  lsl_value (suc n) = omega (arith, lsl_value n, ap (λ (t : ℕ). v * t) (pow-suc 2 n))

  lsl_past : (n : ℕ) → 32 ≤ n → v * 2 ^ n % 2 ^ 32 ≡ 0
  lsl_past n h =
      omega (arith, ap (λ (t : ℕ). v * t) (sym (two_pow_split 32 (n - 32) n (omega arith))))

  lsl_carry_inside :
      (n : ℕ) → n < 32 → (shift_times lsl (suc n) (v, c)).1 ≡ (v / 2 ^ (31 - n) % 2 == 1)
  unfolding shift_times
  lsl_carry_inside n h =
      ap (λ (t : ℕ). t == 1)
        (rw (lsl_value n) (
          top_of_product v (2 ^ n) (2 ^ (31 - n)) (two_pow_split n (31 - n) 31 (omega arith))
            (one-le-pow (31 - n) 2 (omega arith)) (one-le-pow n 2 (omega arith))))

  lsl_carry_past : (n : ℕ) → 32 ≤ n → (shift_times lsl (suc n) (v, c)).1 ≡ false
  unfolding shift_times
  lsl_carry_past n h =
      let empty : (shift_times lsl n (v, c)).0 / 2 ^ 31 % 2 ≡ 0 =
        omega (arith, lsl_value n, lsl_past n h) in
      ap (λ (t : ℕ). t == 1) empty

  pub lsl_agrees : (n : ℕ) → eval_shift lsl false v n c ≡ shift_times lsl n (v, c)
  unfolding eval_shift get_bit shift_times
  lsl_agrees zero = refl
  lsl_agrees (suc n) = ground (
    arith,
    lsl_value (suc n),
    lsl_past (suc n),
    lsl_carry_inside n,
    lsl_carry_past n,
    ap (λ (t : ℕ). v / t) (pow-suc 2 0),
  )
