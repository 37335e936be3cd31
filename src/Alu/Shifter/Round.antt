-- ===== src/Alu/Shifter/Round.antt =====
-- `eval_shift` for ROR against the one-bit shifter.
use matar.Base.{ℕ, zero, suc, ◌+◌, ◌-◌, ◌*◌, ◌/◌, ◌%◌, ◌^◌, ◌≤◌, ◌<◌, ◌==◌}
use matar.Base.{Bool, false, ◌≡◌, refl, sym, ap, ◌∙◌, arith, u32}
use matar.Base.{bit_or_join, bit_and_low, bit_and}
use native.Mathlib.Nat.{pow-suc, one-le-pow}
use native.Mathlib.Nat.{div-add-mod', mod-lt, div-lt_iff_lt-mul, mul-le-mul_right}
use native.Mathlib.Decide.{dec_lt}
use matar.Bits.{get_bit}
use matar.Alu.{ror, eval_shift}
use matar.Alu.{rotr32}
use matar.Alu.Shifter.{shift_times, two_pow_split, halve}
use matar.Alu.Shifter.{not_none}

module _ (v : ℕ) (c : Bool) (in_word : v < 2 ^ 32) where
  -- The word turned by `r` places: its low `r` bits come first.
  abbrev turned : ℕ → ℕ → ℕ
  turned r k = v / 2 ^ r + v % 2 ^ r * 2 ^ k

  low_digits : (r : ℕ) → v % 2 ^ suc r ≡ v % 2 ^ r + v / 2 ^ r % 2 * 2 ^ r
  low_digits r =
      let halves : v / 2 ^ r ≡ v / 2 ^ suc r * 2 + v / 2 ^ r % 2 = omega (arith, halve v r) in
      omega (
        arith,
        div-add-mod' v (2 ^ r),
        div-add-mod' v (2 ^ suc r),
        ap (λ (t : ℕ). v / 2 ^ suc r * t) (pow-suc 2 r),
        ap (λ (t : ℕ). t * 2 ^ r) halves,
      )

  turned_parity : (r k : ℕ) → turned r (suc k) % 2 ≡ v / 2 ^ r % 2
  turned_parity r k = omega (arith, ap (λ (t : ℕ). v % 2 ^ r * t) (pow-suc 2 k))

  turn :
      (r k : ℕ)
      → r + suc k ≡ 32
      → turned r (suc k) / 2 + turned r (suc k) % 2 * 2 ^ 31 ≡ turned (suc r) k
  turn r k e =
      let place : 2 ^ r * 2 ^ k ≡ 2 ^ 31 = two_pow_split r k 31 (omega arith) in
      omega (
        arith,
        turned_parity r k,
        halve v r,
        ap (λ (t : ℕ). v % 2 ^ r * t) (pow-suc 2 k),
        ap (λ (t : ℕ). t * 2 ^ k) (low_digits r),
        ap (λ (t : ℕ). v / 2 ^ r % 2 * t) place,
      )

  turned_zero : (k : ℕ) → turned 0 k ≡ v
  turned_zero k = let nothing : v % 2 ^ 0 ≡ 0 = omega arith in rw nothing (omega arith)

  ror_value :
      (n r k : ℕ) → n % 32 ≡ r → r + suc k ≡ 32 → (shift_times ror n (v, c)).0 ≡ turned r (suc k)
  unfolding shift_times
  ror_value zero zero k e f = sym (turned_zero (suc k))
  ror_value zero (suc r) k e f = absurd (omega arith)
  ror_value (suc n) zero k e f =
      rw (ror_value n 31 0 (omega arith) refl)
        (turn 31 0 refl ∙ all_round ∙ sym (turned_zero (suc k)))
    where
      all_round : turned 32 0 ≡ v
      all_round = omega arith
  ror_value (suc n) (suc r) k e f =
      let before : (shift_times ror n (v, c)).0 ≡ turned r (suc (suc k)) =
        ror_value n r (suc k) (omega arith) (omega arith) in
      rw before (turn r (suc k) (omega arith))

  ror_carry : (n : ℕ) → (shift_times ror (suc n) (v, c)).1 ≡ ((shift_times ror n (v, c)).0 % 2 == 1)
  unfolding shift_times
  ror_carry n = refl

  -- `std::rotr` by `r` places exchanges the two parts of the word.
  high_part : (r k : ℕ) → r + k ≡ 32 → u32 (v * 2 ^ k) ≡ v % 2 ^ r * 2 ^ k
  high_part r k e =
      let small : (v % 2 ^ r + 1) * 2 ^ k ≤ 2 ^ r * 2 ^ k =
        mul-le-mul_right (2 ^ k) (omega (arith, mod-lt v (one-le-pow r 2 (omega arith)))) in
      omega (
        arith,
        small,
        one-le-pow k 2,
        two_pow_split r k 32 e,
        ap (λ (t : ℕ). t * 2 ^ k) (div-add-mod' v (2 ^ r)),
        ap (λ (t : ℕ). v / 2 ^ r * t) (two_pow_split r k 32 e),
      )

  rotr32-turned : (a r k : ℕ) → a % 32 ≡ r → r + k ≡ 32 → rotr32 v a ≡ turned r k
  rotr32-turned a r k e f =
      let left : 32 - r ≡ k = omega arith in
      let low : v / 2 ^ r < 2 ^ k =
        (div-lt_iff_lt-mul (one-le-pow r 2 (omega arith))).1
          (omega (arith, two_pow_split r k 32 f)) in
      rw (e, left, high_part r k f) (bit_or_join k (v % 2 ^ r) (v / 2 ^ r) low ∙ omega arith)

  eval_ror_whole :
      (n : ℕ) → suc n % 32 ≡ 0 → eval_shift ror false v (suc n) c ≡ (v, v / 2 ^ 31 % 2 == 1)
  unfolding eval_shift get_bit
  eval_ror_whole n e = rw (not_none n, e) refl

  eval_ror_part :
      (n r : ℕ)
      → suc n % 32 ≡ suc r
      → eval_shift ror false v (suc n) c ≡ (rotr32 v (suc n), v / 2 ^ r % 2 == 1)
  unfolding eval_shift get_bit
  eval_ror_part n r e =
      let low : bit_and (suc n) 31 - 1 ≡ r = omega (arith, bit_and_low 5 (suc n)) in
      let turns : (suc n % 32 == 0) ≡ false = rw e (not_none r) in rw (not_none n, turns, low) refl

  ror_whole :
      (n : ℕ) → suc n % 32 ≡ 0 → eval_shift ror false v (suc n) c ≡ shift_times ror (suc n) (v, c)
  ror_whole n e = ground (
    arith,
    eval_ror_whole n e,
    ror_value (suc n) 0 31 e refl,
    turned_zero 32,
    ror_carry n,
    ror_value n 31 0 (omega arith) refl,
    turned_parity 31 0,
  )

  ror_part :
      (n r k : ℕ)
      → suc n % 32 ≡ suc r
      → suc r + suc k ≡ 32
      → eval_shift ror false v (suc n) c ≡ shift_times ror (suc n) (v, c)
  ror_part n r k e f = ground (
    arith,
    eval_ror_part n r e,
    rotr32-turned (suc n) (suc r) (suc k) e f,
    ror_value (suc n) (suc r) k e f,
    ror_carry n,
    ror_value n r (suc k) (omega arith) (omega arith),
    turned_parity r (suc k),
  )

  pub ror_agrees : (n : ℕ) → eval_shift ror false v n c ≡ shift_times ror n (v, c)
  unfolding eval_shift shift_times
  ror_agrees zero = refl
  ror_agrees (suc n) = elim (dec_lt 0 (suc n % 32)) [
    | yes p ↦ ror_part n (suc n % 32 - 1) (31 - suc n % 32) (omega arith) (omega arith)
    | no p ↦ ror_whole n (omega arith)
  ]
