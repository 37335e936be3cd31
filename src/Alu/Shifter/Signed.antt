-- ===== src/Alu/Shifter/Signed.antt =====
-- `eval_shift` for ASR against the one-bit shifter.
use matar.Base.{ℕ, zero, suc, ◌+◌, ◌-◌, ◌*◌, ◌/◌, ◌%◌, ◌^◌, ◌≤◌, ◌<◌, ◌==◌, if◌then◌else◌}
use matar.Base.{Bool, true, false, ◌≡◌, refl, ap, arith}
use native.Mathlib.Nat.{pow-suc, one-le-pow, div-eq_of_lt, pow-le-pow_right}
use native.Mathlib.Nat.{le-div_iff_mul-le, div-lt_iff_lt-mul, div-le_self}
use native.Mathlib.Decide.{dec_lt}
use matar.Bits.{get_bit}
use matar.Alu.{asr, eval_shift}
use matar.Alu.{asr32}
use matar.Alu.Shifter.{shift_times, two_pow_split, halve, add_one_below}
use matar.Alu.Shifter.{not_none, at_least, gone}

module _ (v : ℕ) (c : Bool) (in_word : v < 2 ^ 32) where
  -- Right, filling with the sign.
  asr_value_pos : v < 2 ^ 31 → (n : ℕ) → (shift_times asr n (v, c)).0 ≡ v / 2 ^ n
  unfolding shift_times
  asr_value_pos h zero = omega arith
  asr_value_pos h (suc n) =
      let e = asr_value_pos h n in
      let still : v / 2 ^ n ≤ v = div-le_self v (2 ^ n) in omega (arith, halve v n)

  filled : (n k : ℕ) → n + suc k ≡ 32 → (2 ^ (32 - n) ≡ 2 * 2 ^ k) × (2 ^ (32 - suc n) ≡ 2 ^ k)
  filled n k e =
      let here : 32 - n ≡ suc k = omega arith in
      let next : 32 - suc n ≡ k = omega arith in
      (rw here (omega (arith, pow-suc 2 k)), ap (λ (t : ℕ). 2 ^ t) next)

  asr_value_neg :
      2 ^ 31 ≤ v
      → (n k : ℕ) → n + k ≡ 32
      → (shift_times asr n (v, c)).0 ≡ v / 2 ^ n + (2 ^ 32 - 2 ^ (32 - n))
  unfolding shift_times
  asr_value_neg h zero k e = omega arith
  asr_value_neg h (suc n) k e =
      let f = filled n k (omega arith) in
      let f0 : 2 ^ (32 - n) ≡ 2 * 2 ^ k = f.0 in
      let f1 : 2 ^ (32 - suc n) ≡ 2 ^ k = f.1 in
      let ih : (shift_times asr n (v, c)).0 ≡ v / 2 ^ n + (2 ^ 32 - 2 ^ (32 - n)) =
        asr_value_neg h n (suc k) (omega arith) in
      let inside : 2 ^ k ≤ 2 ^ 31 =
        pow-le-pow_right {n = 2} (omega arith) {i = k} {j = 31} (omega arith) in
      let product : 2 ^ k * 2 ^ n ≡ 2 ^ 31 = two_pow_split k n 31 (omega arith) in
      let low : 2 ^ k ≤ v / 2 ^ n =
        (le-div_iff_mul-le (one-le-pow n 2 (omega arith))).1 (omega arith) in
      let high : v / 2 ^ n < 2 * 2 ^ k =
        (div-lt_iff_lt-mul (one-le-pow n 2 (omega arith))).1 (omega arith) in
      omega (arith, halve v n)

  asr_past : 2 ^ 31 ≤ v → (m n : ℕ) → 32 + m ≡ n → (shift_times asr n (v, c)).0 ≡ 0xFFFFFFFF
  unfolding shift_times
  asr_past h zero n e =
      let none_left : 32 - n ≡ 0 = omega arith in
      let last : 2 ^ (32 - n) ≡ 1 = ap (λ (t : ℕ). 2 ^ t) none_left in
      omega (arith, asr_value_neg h n 0 (omega arith), gone v n in_word (omega arith))
  asr_past h (suc m) zero e = absurd (omega arith)
  asr_past h (suc m) (suc n) e = omega (arith, asr_past h m n (omega arith))

  asr_parity : 2 ^ 31 ≤ v → (n : ℕ) → n < 32 → (shift_times asr n (v, c)).0 % 2 ≡ v / 2 ^ n % 2
  unfolding shift_times
  asr_parity h n less =
      let f : 2 ^ (32 - n) ≡ 2 * 2 ^ (31 - n) = (filled n (31 - n) (omega arith)).0 in
      omega (
        arith,
        asr_value_neg h n (32 - n) (omega arith),
        pow-le-pow_right {n = 2} (omega arith) {i = 31 - n} {j = 31} (omega arith),
      )

  past_parity : v < 2 ^ 31 → (n : ℕ) → 31 ≤ n → v / 2 ^ n ≡ 0
  past_parity p n h = div-eq_of_lt (omega (arith, pow-le-pow_right {n = 2} (omega arith) h))

  past_odd : 2 ^ 31 ≤ v → (n : ℕ) → 31 ≤ n → (shift_times asr n (v, c)).0 % 2 ≡ 1
  past_odd p n h = elim (dec_lt n 32) [
    | yes q ↦
        let last : n ≡ 31 = omega arith in rw last (omega (arith, asr_parity p 31 (omega arith)))
    | no q ↦ omega (arith, asr_past p (n - 32) n (omega arith))
  ]

  -- What `eval_shift` computes for an arithmetic shift by `suc n`, below 32 and from 32 on.
  eval_asr_inside :
      (n : ℕ) → n < 31 → eval_shift asr false v (suc n) c ≡ (asr32 v (suc n), v / 2 ^ n % 2 == 1)
  unfolding eval_shift get_bit
  eval_asr_inside n h =
      let down : suc n - 1 ≡ n = omega arith in rw (not_none n, add_one_below n h, down) refl

  eval_asr_past :
      (n : ℕ)
      → 31 ≤ n
      → eval_shift asr false v (suc n) c
        ≡ ((if v / 2 ^ 31 % 2 == 1 then 0xFFFFFFFF else 0), v / 2 ^ 31 % 2 == 1)
  unfolding eval_shift get_bit
  eval_asr_past n h = rw (not_none n, at_least n h) refl

  sign_clear : v < 2 ^ 31 → get_bit v 31 ≡ false
  unfolding get_bit
  sign_clear p = ground arith

  sign_set : 2 ^ 31 ≤ v → get_bit v 31 ≡ true
  unfolding get_bit
  sign_set p = ground arith

  asr_carry : (n : ℕ) → (shift_times asr (suc n) (v, c)).1 ≡ ((shift_times asr n (v, c)).0 % 2 == 1)
  unfolding shift_times
  asr_carry n = refl

  asr_pos : v < 2 ^ 31 → (n : ℕ) → eval_shift asr false v (suc n) c ≡ shift_times asr (suc n) (v, c)
  asr_pos p n = elim (dec_lt n 31) [
    | yes q ↦ ground (
      arith,
      eval_asr_inside n q,
      asr_value_pos p (suc n),
      asr_value_pos p n,
      asr_carry n,
      sign_clear p,
    )
    | no q ↦ ground (
      arith,
      eval_asr_past n (omega arith),
      asr_value_pos p (suc n),
      asr_value_pos p n,
      asr_carry n,
      gone v (suc n) in_word (omega arith),
      past_parity p n (omega arith),
    )
  ]

  asr_neg : 2 ^ 31 ≤ v → (n : ℕ) → eval_shift asr false v (suc n) c ≡ shift_times asr (suc n) (v, c)
  asr_neg p n = elim (dec_lt n 31) [
    | yes q ↦ ground (
      arith,
      eval_asr_inside n q,
      asr_value_neg p (suc n) (31 - n) (omega arith),
      asr_parity p n (omega arith),
      asr_carry n,
      sign_set p,
    )
    | no q ↦ ground (
      arith,
      eval_asr_past n (omega arith),
      asr_past p (n - 31) (suc n) (omega arith),
      past_odd p n (omega arith),
      asr_carry n,
    )
  ]

  pub asr_agrees : (n : ℕ) → eval_shift asr false v n c ≡ shift_times asr n (v, c)
  unfolding eval_shift shift_times
  asr_agrees zero = refl
  asr_agrees (suc n) = elim (dec_lt v (2 ^ 31)) [
    | yes p ↦ asr_pos p n
    | no p ↦ asr_neg (omega arith) n
  ]
