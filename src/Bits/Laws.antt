-- ===== src/Bits/Laws.antt =====
-- What src/util/bits.hh does to each bit of a word.
use matar.Base.{ℕ, ◌+◌, ◌-◌, ◌*◌, ◌/◌, ◌%◌, ◌^◌, ◌<◌, ◌==◌, Bool, true, false}
use matar.Base.{◌≡◌, ◌≢◌, ◌∙◌, ap, refl, arith, bit_and, bit_not, to_nat, digit, min}
use matar.Base.{digit-bit_and, digit-bit_or, digit-lt-two, digit_of_shift, digit-two_pow_self, sym}
use matar.Base.{digit-two_pow_ne, digit_of_complement, digit-of-zero, bit_or-lt, bit_and-le_right}
use matar.Base.{bit_and_high, bit_and_split, bit_and_ones, bit_and_low, ◌<<<◌}
use native.Mathlib.Nat.{one-le-pow, pow-le-pow_right, pow-suc}
use matar.Bits.{get_bit, rst_bit, chg_bit}

pub get_bit-digit : (x n : ℕ) → get_bit x n ≡ (digit x n == 1)
unfolding get_bit
get_bit-digit x n = ap (λ (t : ℕ). t == 1) (digit_of_shift x n)

-- A bit is the lowest bit of the word shifted down to it.
pub get_bit_shift : (x n : ℕ) → get_bit x n ≡ (x / 2 ^ n % 2 == 1)
unfolding get_bit
get_bit_shift x n = refl

pub two_pow_lt : (n w : ℕ) → n < w → 2 ^ n < 2 ^ w
two_pow_lt n w h =
    omega (arith, pow-le-pow_right {n = 2} (omega arith) h, pow-suc 2 n, one-le-pow n 2)

one_shifted : (n : ℕ) → 1 <<< n ≡ 2 ^ n
one_shifted n = omega arith

digit_of_bool_self : (b : Bool) (n : ℕ) → digit (to_nat b <<< n) n ≡ to_nat b
digit_of_bool_self true n = ap (λ (t : ℕ). digit t n) (one_shifted n) ∙ digit-two_pow_self n
digit_of_bool_self false n = ap (λ (t : ℕ). digit t n) (omega arith) ∙ digit-of-zero n

digit_of_bool_ne : (b : Bool) (n m : ℕ) → n ≢ m → digit (to_nat b <<< n) m ≡ 0
digit_of_bool_ne true n m ne = ap (λ (t : ℕ). digit t m) (one_shifted n) ∙ digit-two_pow_ne n m ne
digit_of_bool_ne false n m ne = ap (λ (t : ℕ). digit t m) (omega arith) ∙ digit-of-zero m

digit_of_cleared :
    (w x n m : ℕ)
    → n < w
    → m < w
    → digit (bit_and x (bit_not w (1 <<< n))) m ≡ min (digit x m) (1 - digit (2 ^ n) m)
digit_of_cleared w x n m hn hm = rw (
  one_shifted n,
  digit-bit_and x (2 ^ w - 1 - 2 ^ n) m,
  digit_of_complement w (2 ^ n) m (two_pow_lt n w hn) hm,
)

module _ (w x n : ℕ) (b : Bool) (in_word : n < w) where
  pub digit-chg_bit_self : digit (chg_bit w x n b) n ≡ to_nat b
  unfolding chg_bit
  digit-chg_bit_self = omega (
    arith,
    digit-bit_or (bit_and x (bit_not w (1 <<< n))) (to_nat b <<< n) n,
    digit_of_cleared w x n n in_word in_word,
    digit-two_pow_self n,
    digit_of_bool_self b n,
  )

  pub digit-chg_bit_ne : (m : ℕ) → n ≢ m → m < w → digit (chg_bit w x n b) m ≡ digit x m
  unfolding chg_bit
  digit-chg_bit_ne m ne hm = omega (
    arith,
    digit-bit_or (bit_and x (bit_not w (1 <<< n))) (to_nat b <<< n) m,
    digit_of_cleared w x n m in_word hm,
    digit-two_pow_ne n m ne,
    digit_of_bool_ne b n m ne,
    digit-lt-two x m,
  )

  -- `chg_bit` writes its bit.
  pub get_bit-chg_bit_self : get_bit (chg_bit w x n b) n ≡ b
  get_bit-chg_bit_self =
      get_bit-digit (chg_bit w x n b) n ∙ ap (λ (t : ℕ). t == 1) digit-chg_bit_self ∙ read b
    where
      read : (c : Bool) → (to_nat c == 1) ≡ c
      read true = refl
      read false = refl

  -- `chg_bit` keeps every other bit.
  pub get_bit-chg_bit_ne : (m : ℕ) → n ≢ m → m < w → get_bit (chg_bit w x n b) m ≡ get_bit x m
  get_bit-chg_bit_ne m ne hm =
      get_bit-digit (chg_bit w x n b) m
      ∙ ap (λ (t : ℕ). t == 1) (digit-chg_bit_ne m ne hm)
      ∙ sym (get_bit-digit x m)

  pub chg_bit-lt : chg_bit w x n b < 2 ^ w
  unfolding chg_bit
  chg_bit-lt =
      bit_or-lt w (bit_and x (bit_not w (1 <<< n))) (to_nat b <<< n)
        (omega (arith, bit_and-le_right x (bit_not w (1 <<< n)), one-le-pow w 2)) (shifted b)
    where
      shifted : (c : Bool) → to_nat c <<< n < 2 ^ w
      shifted true = omega (arith, two_pow_lt n w in_word)
      shifted false = omega (arith, one-le-pow w 2)

pub rst_bit-lt : (w x n : ℕ) → rst_bit w x n < 2 ^ w
unfolding rst_bit
rst_bit-lt w x n = omega (arith, bit_and-le_right x (bit_not w (1 <<< n)), one-le-pow w 2)

-- Clearing bit 0 of a `uint32_t` rounds down to even.
pub rst_bit_zero : (x : ℕ) → x < 2 ^ 32 → rst_bit 32 x 0 ≡ x / 2 * 2
unfolding rst_bit
rst_bit_zero x h = omega (arith, bit_and_high 1 31 x (omega arith))

-- Clearing bit 1 of an even `uint32_t` rounds down to a multiple of 4.
pub rst_bit_one : (x : ℕ) → x < 2 ^ 32 → x % 2 ≡ 0 → rst_bit 32 x 1 ≡ x / 4 * 4
unfolding rst_bit
rst_bit_one x h even =
    let split = bit_and_split 2 (x / 4) (x % 4) (2 ^ 30 - 1) 1 (omega arith) (omega arith) in
    let whole : x / 4 * 2 ^ 2 + x % 4 ≡ x = omega arith in
    rw (whole, bit_and_ones 30 (x / 4) (omega arith)) at split
    ∙ omega (arith, bit_and_low 1 (x % 4))
