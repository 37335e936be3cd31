-- ===== src/Base/Mask.antt =====
-- Ranges of the bit operations, and masks of contiguous bits as arithmetic.
use Prim.Native.Nat.{ℕ, zero, suc, ◌+◌, ◌-◌, ◌*◌, ◌/◌, ◌%◌, ◌^◌, ◌≤◌, ◌<◌}
use Prim.Native.Nat.{bit_and, bit_or, bit_xor, differ}
use Prim.Native.Nat.{bit_and-bitwise, bit_or-bitwise, bit_xor-bitwise}
use mathlib.Core.Path.{◌≡◌, ap, ◌∙◌}
use native.Mathlib.Nat.{pow-suc, pow-le-pow_right, one-le-pow, mod-lt, div-add-mod'}
use native.Mathlib.Omega.{arith}
use matar.Base.Digit.{bit_and_lowest, bit_or_lowest, bit_xor_lowest, digit-bit_or, eq_of_digits}

-- The operations stay inside a width.
bit_and-zero_below : (n a : ℕ) → a ≤ n → bit_and a 0 ≡ 0
bit_and-zero_below n zero h = simp bit_and-bitwise
bit_and-zero_below zero (suc a) h = absurd (omega arith)
bit_and-zero_below (suc n) (suc a) h =
    omega (arith, bit_and_lowest (suc a) 0, bit_and-zero_below n (suc a / 2) (omega arith))

pub bit_and-zero : (a : ℕ) → bit_and a 0 ≡ 0
bit_and-zero a = bit_and-zero_below a a (omega arith)

bit_and-le_below : (w a b : ℕ) → b < 2 ^ w → bit_and a b ≤ b
bit_and-le_below zero a b h =
    let none_set : b ≡ 0 = omega arith in rw none_set (omega (arith, bit_and-zero a))
bit_and-le_below (suc w) a b h = omega (
  arith,
  pow-suc 2 w,
  bit_and_lowest a b,
  bit_and-le_below w (a / 2) (b / 2) (omega (arith, pow-suc 2 w)),
)

bit_or-zero_below : (n a : ℕ) → a ≤ n → bit_or a 0 ≡ a
bit_or-zero_below n zero h = simp bit_or-bitwise
bit_or-zero_below zero (suc a) h = absurd (omega arith)
bit_or-zero_below (suc n) (suc a) h =
    omega (arith, bit_or_lowest (suc a) 0, bit_or-zero_below n (suc a / 2) (omega arith))

pub bit_or-zero : (a : ℕ) → bit_or a 0 ≡ a
bit_or-zero a = bit_or-zero_below a a (omega arith)

lt-two_pow : (n : ℕ) → n < 2 ^ n
lt-two_pow zero = omega arith
lt-two_pow (suc n) = omega (arith, pow-suc 2 n, lt-two_pow n)

pub bit_and-le_right : (a b : ℕ) → bit_and a b ≤ b
bit_and-le_right a b = bit_and-le_below b a b (lt-two_pow b)

pub bit_or-lt : (w a b : ℕ) → a < 2 ^ w → b < 2 ^ w → bit_or a b < 2 ^ w
bit_or-lt zero zero b ha hb = simp bit_or-bitwise hb
bit_or-lt zero (suc a) b ha hb = absurd (omega arith)
bit_or-lt (suc w) a b ha hb = omega (
  arith,
  pow-suc 2 w,
  bit_or_lowest a b,
  bit_or-lt w (a / 2) (b / 2) (omega (arith, pow-suc 2 w)) (omega (arith, pow-suc 2 w)),
)

bit_xor-lt_top : (b : ℕ) → b < 1 → bit_xor 0 b < 1
bit_xor-lt_top b h = simp bit_xor-bitwise h

-- `|` and `&` are symmetric, digit by digit.
word_of : (a b : ℕ) → (a < 2 ^ (a + b)) × (b < 2 ^ (a + b))
word_of a b = (
  omega (
    arith,
    lt-two_pow a,
    pow-le-pow_right {n = 2} (omega arith) {i = a} {j = a + b} (omega arith),
  ),
  omega (
    arith,
    lt-two_pow b,
    pow-le-pow_right {n = 2} (omega arith) {i = b} {j = a + b} (omega arith),
  ),
)

pub bit_or_comm : (a b : ℕ) → bit_or a b ≡ bit_or b a
bit_or_comm a b =
    let w = word_of a b in
    eq_of_digits (a + b) (bit_or a b) (bit_or b a) (bit_or-lt (a + b) a b w.0 w.1)
      (bit_or-lt (a + b) b a w.1 w.0) (λ n h. omega (arith, digit-bit_or a b n, digit-bit_or b a n))

differ-lt : (x y : ℕ) → x < 2 → y < 2 → differ x y < 2
differ-lt zero y hx hy = hy
differ-lt (suc x) zero hx hy = hx
differ-lt (suc x) (suc y) hx hy = differ-lt x y (omega arith) (omega arith)

pub bit_xor-lt : (w a b : ℕ) → a < 2 ^ w → b < 2 ^ w → bit_xor a b < 2 ^ w
bit_xor-lt zero zero b ha hb = bit_xor-lt_top b hb
bit_xor-lt zero (suc a) b ha hb = absurd (omega arith)
bit_xor-lt (suc w) a b ha hb = omega (
  arith,
  pow-suc 2 w,
  bit_xor_lowest a b,
  differ-lt (a % 2) (b % 2) (omega arith) (omega arith),
  bit_xor-lt w (a / 2) (b / 2) (omega (arith, pow-suc 2 w)) (omega (arith, pow-suc 2 w)),
)

zero-bit_and : (b : ℕ) → bit_and 0 b ≡ 0
zero-bit_and b = simp bit_and-bitwise

pub zero-bit_or : (b : ℕ) → bit_or 0 b ≡ b
zero-bit_or b = simp bit_or-bitwise

times_two : (q k : ℕ) → q * 2 ^ suc k ≡ 2 * (q * 2 ^ k)
times_two q k = omega (arith, ap (λ (t : ℕ). q * t) (pow-suc 2 k))

-- `&` works on the fields above and below bit `k` apart.
pub bit_and_split :
    (k q r p s : ℕ)
    → r < 2 ^ k
    → s < 2 ^ k
    → bit_and (q * 2 ^ k + r) (p * 2 ^ k + s) ≡ bit_and q p * 2 ^ k + bit_and r s
bit_and_split zero q r p s hr hs =
    let r_zero : r ≡ 0 = omega arith in
    let s_zero : s ≡ 0 = omega arith in
    let q_alone : q * 2 ^ 0 + 0 ≡ q = omega arith in
    let p_alone : p * 2 ^ 0 + 0 ≡ p = omega arith in
    rw (r_zero, s_zero, q_alone, p_alone) (omega (arith, zero-bit_and 0))
bit_and_split (suc k) q r p s hr hs =
    let left : (q * 2 ^ suc k + r) / 2 ≡ q * 2 ^ k + r / 2 = omega (arith, times_two q k) in
    let right : (p * 2 ^ suc k + s) / 2 ≡ p * 2 ^ k + s / 2 = omega (arith, times_two p k) in
    let upper : bit_and ((q * 2 ^ suc k + r) / 2) ((p * 2 ^ suc k + s) / 2)
        ≡ bit_and q p * 2 ^ k + bit_and (r / 2) (s / 2) =
      rw (left, right)
        (bit_and_split k q (r / 2) p (s / 2) (omega (arith, pow-suc 2 k))
          (omega (arith, pow-suc 2 k))) in
    omega (
      arith,
      bit_and_lowest (q * 2 ^ suc k + r) (p * 2 ^ suc k + s),
      bit_and_lowest r s,
      upper,
      times_two q k,
      times_two p k,
      times_two (bit_and q p) k,
    )

-- `|` of fields that do not overlap is their sum.
pub bit_or_join : (k q r : ℕ) → r < 2 ^ k → bit_or (q * 2 ^ k) r ≡ q * 2 ^ k + r
bit_or_join zero q r h =
    let r_zero : r ≡ 0 = omega arith in rw r_zero (omega (arith, bit_or-zero (q * 2 ^ 0)))
bit_or_join (suc k) q r h =
    let left : q * 2 ^ suc k / 2 ≡ q * 2 ^ k = omega (arith, times_two q k) in
    let upper : bit_or (q * 2 ^ suc k / 2) (r / 2) ≡ q * 2 ^ k + r / 2 =
      rw left (bit_or_join k q (r / 2) (omega (arith, pow-suc 2 k))) in
    omega (arith, bit_or_lowest (q * 2 ^ suc k) r, upper, times_two q k)

-- A mask of all ones at a width keeps every bit.
pub bit_and_ones : (k r : ℕ) → r < 2 ^ k → bit_and r (2 ^ k - 1) ≡ r
bit_and_ones zero r h = omega (arith, bit_and-zero r)
bit_and_ones (suc k) r h =
    let halved : (2 ^ suc k - 1) / 2 ≡ 2 ^ k - 1 = omega (arith, pow-suc 2 k, one-le-pow k 2) in
    let upper : bit_and (r / 2) ((2 ^ suc k - 1) / 2) ≡ r / 2 =
      rw halved (bit_and_ones k (r / 2) (omega (arith, pow-suc 2 k))) in
    omega (arith, pow-suc 2 k, one-le-pow k 2, bit_and_lowest r (2 ^ suc k - 1), upper)

-- A mask of the low `k` bits is a remainder.
pub bit_and_low : (k a : ℕ) → bit_and a (2 ^ k - 1) ≡ a % 2 ^ k
bit_and_low k a =
    let below : a % 2 ^ k < 2 ^ k = mod-lt a (one-le-pow k 2 (omega arith)) in
    let split =
      bit_and_split k (a / 2 ^ k) (a % 2 ^ k) 0 (2 ^ k - 1) below (omega (arith, one-le-pow k 2)) in
    let whole : a / 2 ^ k * 2 ^ k + a % 2 ^ k ≡ a = div-add-mod' a (2 ^ k) in
    let mask : 0 * 2 ^ k + (2 ^ k - 1) ≡ 2 ^ k - 1 = omega arith in
    rw (whole, mask, bit_and-zero (a / 2 ^ k), bit_and_ones k (a % 2 ^ k) below) at split
    ∙ omega arith

-- A mask of the bits from `k` up to the width `k + m` clears those below.
pub bit_and_high :
    (k m a : ℕ) → a / 2 ^ k < 2 ^ m → bit_and a ((2 ^ m - 1) * 2 ^ k) ≡ a / 2 ^ k * 2 ^ k
bit_and_high k m a h =
    let below : a % 2 ^ k < 2 ^ k = mod-lt a (one-le-pow k 2 (omega arith)) in
    let split =
      bit_and_split k (a / 2 ^ k) (a % 2 ^ k) (2 ^ m - 1) 0 below (one-le-pow k 2 (omega arith)) in
    let whole : a / 2 ^ k * 2 ^ k + a % 2 ^ k ≡ a = div-add-mod' a (2 ^ k) in
    let mask : (2 ^ m - 1) * 2 ^ k + 0 ≡ (2 ^ m - 1) * 2 ^ k = omega arith in
    rw (whole, mask, bit_and_ones m (a / 2 ^ k) h, bit_and-zero (a % 2 ^ k)) at split ∙ omega arith
