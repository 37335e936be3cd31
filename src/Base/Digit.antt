-- ===== src/Base/Digit.antt =====
-- The binary digits of a number, and what `&`, `|`, complement and powers of two do to them.
-- The native operations are unknowns at variables; these lemmas are all that is known of them.
use Prim.Native.Nat.{ℕ, zero, suc, ◌+◌, ◌-◌, ◌*◌, ◌/◌, ◌%◌, ◌^◌, ◌≤◌, ◌<◌, min, max}
use Prim.Native.Nat.{bit_and, bit_or, bit_xor, digits, bitwise, differ}
use Prim.Native.Nat.{bit_and-bitwise, bit_or-bitwise, bit_xor-bitwise}
use mathlib.Core.Path.{◌≡◌, refl, sym, ap, ◌∙◌}
use mathlib.Core.Logic.{◌≢◌}
use native.Mathlib.Nat.{pow-suc, div-div-eq-div-mul, mul_comm, one-le-pow}
use native.Mathlib.Omega.{arith}

-- Digit `n` of `x`, from the lowest.
abbrev pub digit : ℕ → ℕ → ℕ
digit x zero = x % 2
digit x (suc n) = digit (x / 2) n

pub digit-lt-two : (x n : ℕ) → digit x n < 2
digit-lt-two x zero = omega arith
digit-lt-two x (suc n) = digit-lt-two (x / 2) n

-- `(x >> n) & 1` is digit `n`.
pub digit_of_shift : (x n : ℕ) → x / 2 ^ n % 2 ≡ digit x n
digit_of_shift x zero = omega arith
digit_of_shift x (suc n) =
    ap (λ (t : ℕ). t % 2)
      (ap (λ (t : ℕ). x / t) (pow-suc 2 n ∙ mul_comm (2 ^ n) 2)
        ∙ sym (div-div-eq-div-mul x 2 (2 ^ n)))
    ∙ digit_of_shift (x / 2) n

-- The fuel of the library's digit recursion does not matter once it reaches the first argument.
module _ (z : ℕ → ℕ) (f : ℕ → ℕ → ℕ) where
  fuel_irrelevant : (n m a b : ℕ) → a ≤ n → a ≤ m → digits z f n a b ≡ digits z f m a b
  fuel_irrelevant zero zero a b p q = refl
  fuel_irrelevant n m zero b p q = both_stop n m
    where
      both_stop : (n m : ℕ) → digits z f n 0 b ≡ digits z f m 0 b
      both_stop zero zero = refl
      both_stop zero (suc m) = refl
      both_stop (suc n) zero = refl
      both_stop (suc n) (suc m) = refl
  fuel_irrelevant zero (suc m) (suc a) b p q = absurd (omega arith)
  fuel_irrelevant (suc n) zero (suc a) b p q = absurd (omega arith)
  fuel_irrelevant (suc n) (suc m) (suc a) b p q =
      ap (λ (t : ℕ). t * 2 + f (suc a % 2) (b % 2))
        (fuel_irrelevant n m (suc a / 2) (b / 2) (omega arith) (omega arith))

  pub bitwise_lowest :
      (a b : ℕ)
      → bitwise z f (suc a) b ≡ bitwise z f (suc a / 2) (b / 2) * 2 + f (suc a % 2) (b % 2)
  bitwise_lowest a b =
      ap (λ (t : ℕ). t * 2 + f (suc a % 2) (b % 2))
        (fuel_irrelevant a (suc a / 2) (suc a / 2) (b / 2) (omega arith) (omega arith))

-- The lowest digit of each operation, and the rest.
pub bit_and_lowest : (a b : ℕ) → bit_and a b ≡ bit_and (a / 2) (b / 2) * 2 + min (a % 2) (b % 2)
bit_and_lowest zero b = simp bit_and-bitwise (omega arith)
bit_and_lowest (suc a) b = simp bit_and-bitwise (bitwise_lowest (λ y. 0) min a b)

pub bit_or_lowest : (a b : ℕ) → bit_or a b ≡ bit_or (a / 2) (b / 2) * 2 + max (a % 2) (b % 2)
bit_or_lowest zero b = simp bit_or-bitwise (omega arith)
bit_or_lowest (suc a) b = simp bit_or-bitwise (bitwise_lowest (λ y. y) max a b)

pub bit_xor_lowest : (a b : ℕ) → bit_xor a b ≡ bit_xor (a / 2) (b / 2) * 2 + differ (a % 2) (b % 2)
bit_xor_lowest zero b = simp bit_xor-bitwise (omega arith)
bit_xor_lowest (suc a) b = simp bit_xor-bitwise (bitwise_lowest (λ y. y) differ a b)

-- Digit by digit.
pub digit-bit_and : (a b n : ℕ) → digit (bit_and a b) n ≡ min (digit a n) (digit b n)
digit-bit_and a b zero = omega (arith, bit_and_lowest a b)
digit-bit_and a b (suc n) =
    let halved : bit_and a b / 2 ≡ bit_and (a / 2) (b / 2) = omega (arith, bit_and_lowest a b) in
    rw halved (digit-bit_and (a / 2) (b / 2) n)

pub digit-bit_or : (a b n : ℕ) → digit (bit_or a b) n ≡ max (digit a n) (digit b n)
digit-bit_or a b zero = omega (arith, bit_or_lowest a b)
digit-bit_or a b (suc n) =
    let halved : bit_or a b / 2 ≡ bit_or (a / 2) (b / 2) = omega (arith, bit_or_lowest a b) in
    rw halved (digit-bit_or (a / 2) (b / 2) n)

pub digit-two_pow_self : (k : ℕ) → digit (2 ^ k) k ≡ 1
digit-two_pow_self zero = refl
digit-two_pow_self (suc k) =
    let halved : 2 ^ suc k / 2 ≡ 2 ^ k = omega (arith, pow-suc 2 k) in
    rw halved (digit-two_pow_self k)

pub digit-of-zero : (n : ℕ) → digit 0 n ≡ 0
digit-of-zero zero = refl
digit-of-zero (suc n) = digit-of-zero n

pub digit-two_pow_ne : (k n : ℕ) → k ≢ n → digit (2 ^ k) n ≡ 0
digit-two_pow_ne zero zero ne = absurd (ne refl)
digit-two_pow_ne zero (suc n) ne = digit-of-zero n
digit-two_pow_ne (suc k) zero ne = omega (arith, pow-suc 2 k)
digit-two_pow_ne (suc k) (suc n) ne =
    let halved : 2 ^ suc k / 2 ≡ 2 ^ k = omega (arith, pow-suc 2 k) in
    rw halved (digit-two_pow_ne k n (λ e. ne (ap suc e)))

-- Complement at a width flips the digits below it.
pub digit_of_complement : (w x n : ℕ) → x < 2 ^ w → n < w → digit (2 ^ w - 1 - x) n ≡ 1 - digit x n
digit_of_complement zero x n hx hn = absurd (omega arith)
digit_of_complement (suc w) x zero hx hn = omega (arith, pow-suc 2 w, one-le-pow w 2)
digit_of_complement (suc w) x (suc n) hx hn =
    let halved : (2 ^ suc w - 1 - x) / 2 ≡ 2 ^ w - 1 - x / 2 =
      omega (arith, pow-suc 2 w, one-le-pow w 2) in
    rw halved (digit_of_complement w (x / 2) n (omega (arith, pow-suc 2 w)) (omega arith))

-- Words with the same digits are the same.
pub eq_of_digits :
    (w x y : ℕ) → x < 2 ^ w → y < 2 ^ w → ((n : ℕ) → n < w → digit x n ≡ digit y n) → x ≡ y
eq_of_digits zero x y hx hy same = omega arith
eq_of_digits (suc w) x y hx hy same =
    let halves : x / 2 ≡ y / 2 =
      eq_of_digits w (x / 2) (y / 2) (omega (arith, pow-suc 2 w)) (omega (arith, pow-suc 2 w))
        (λ n h. same (suc n) (omega arith)) in
    omega (arith, halves, same 0 (omega arith))
