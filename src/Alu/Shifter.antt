-- ===== src/Alu/Shifter.antt =====
-- A shifter that moves one bit at a time, and facts on powers of two.
pub mod Left
pub mod Right
pub mod Signed
pub mod Round
use matar.Base.{
  ℕ, zero, suc, ◌+◌, ◌-◌, ◌*◌, ◌/◌, ◌%◌, ◌^◌, ◌≤◌, ◌<◌, ◌==◌, ltb, to_nat, if◌then◌else◌,
}
use matar.Base.{
  Bool, true, false, not, ◌≡◌, ◌≢◌, ◌⊎◌, inl, inr, refl, sym, ap, ◌∙◌, arith, u32, bit_or,
}
use matar.Base.{◌<<<◌, ◌>>>◌, Bool-cases, bit_or_join, bit_and_low, bit_and}
use native.Mathlib.Nat.{pow-suc, one-le-pow, div-div-eq-div-mul, div-eq_of_lt, pow-le-pow_right}
use native.Mathlib.Nat.{
  div-add-mod', mod-lt, le-div_iff_mul-le, div-lt_iff_lt-mul, div-le_self, mul-le-mul_right,
}
use native.Mathlib.Decide.{dec_lt}
use matar.Bits.{get_bit}
use matar.Alu.{ShiftType, lsl, lsr, asr, ror, eval_shift, eval_lsl, eval_lsr, eval_asr, eval_ror}
use matar.Alu.{asr32, rotr32}

-- One step of the shifter on a word and the carry flag: the bit that leaves the word is the carry.
abbrev pub shift_once : ShiftType → ℕ × Bool → ℕ × Bool
shift_once lsl (v, c) = (u32 (v * 2), v / 2 ^ 31 % 2 == 1)
shift_once lsr (v, c) = (v / 2, v % 2 == 1)
shift_once asr (v, c) = (v / 2 + v / 2 ^ 31 * 2 ^ 31, v % 2 == 1)
shift_once ror (v, c) = (v / 2 + v % 2 * 2 ^ 31, v % 2 == 1)

unfoldable pub shift_times : ShiftType → ℕ → ℕ × Bool → ℕ × Bool
shift_times t zero s = s
shift_times t (suc n) s = shift_once t (shift_times t n s)

-- A word cut in two at a power of two and shifted to the left: bit 31 is a bit of the word.
pub top_of_product :
    (v p q : ℕ) → p * q ≡ 2 ^ 31 → 0 < q → 0 < p → v * p % 2 ^ 32 / 2 ^ 31 % 2 ≡ v / q % 2
top_of_product v p q e hq hp =
    let small : v % q * p + p ≤ q * p = omega (arith, mul-le-mul_right p (mod-lt v hq)) in
    omega (arith, ap (λ (t : ℕ). t * p) (div-add-mod' v q), ap (λ (t : ℕ). v / q * t) e, small, e)

pub two_pow_split : (a b c : ℕ) → a + b ≡ c → 2 ^ a * 2 ^ b ≡ 2 ^ c
two_pow_split a zero c e = let same : a ≡ c = omega arith in rw same (omega arith)
two_pow_split a (suc b) zero e = absurd (omega arith)
two_pow_split a (suc b) (suc c) e = omega (
  arith,
  two_pow_split a b c (omega arith),
  pow-suc 2 b,
  pow-suc 2 c,
  ap (λ (t : ℕ). 2 ^ a * t) (pow-suc 2 b),
)

pub halve : (v n : ℕ) → v / 2 ^ n / 2 ≡ v / 2 ^ suc n
halve v n = div-div-eq-div-mul v (2 ^ n) 2 ∙ ap (λ (t : ℕ). v / t) (sym (pow-suc 2 n))

pub add_one_below : (n : ℕ) → n < 31 → ltb (suc n) 32 ≡ true
add_one_below n h = ground arith

pub not_none : (n : ℕ) → (suc n == 0) ≡ false
not_none n = ground arith

pub at_least : (n : ℕ) → 31 ≤ n → ltb (suc n) 32 ≡ false
at_least n h = ground arith

pub gone : (v n : ℕ) → v < 2 ^ 32 → 32 ≤ n → v / 2 ^ n ≡ 0
gone v n in_word h = div-eq_of_lt (omega (arith, pow-le-pow_right {n = 2} (omega arith) h))
