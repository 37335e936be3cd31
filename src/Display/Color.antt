-- ===== src/Display/Color.antt =====
-- `Color` and `ObjectPixel` of include/io/display/registers.hh.
use matar.Base.{
  ℕ, ◌+◌, ◌*◌, ◌/◌, ◌%◌, ◌^◌, ◌<◌, ◌≡◌, ◌∙◌, Bool, false, arith, ◌==◌, min, flag, field, to_nat,
  bit_or, ◌<<<◌, bit_or_join, bit_or_comm,
}

pub record Color : Type 0 where
  pub red : ℕ
  pub green : ℕ
  pub blue : ℕ
  pub alpha : Bool

abbrev pub transparent_rgb555 : ℕ
transparent_rgb555 = 0x8000

unfoldable pub of_raw : ℕ → Color
of_raw raw = record {
  red = field 0 5 raw;
  green = field 5 5 raw;
  blue = field 10 5 raw;
  alpha = flag 15 raw;
}

unfoldable pub raw : Color → ℕ
raw c =
    bit_or (bit_or (bit_or (c.red % 2 ^ 5) ((c.green % 2 ^ 5) <<< 5)) ((c.blue % 2 ^ 5) <<< 10))
      (to_nat c.alpha <<< 15)

unfoldable pub blend_part : ℕ → ℕ → ℕ → ℕ → ℕ
blend_part mine other eva evb = min 31 ((mine * eva + other * evb) / 16)

unfoldable pub blend : Color → Color → ℕ → ℕ → Color
blend c o eva evb = record {
  red = blend_part c.red o.red eva evb;
  green = blend_part c.green o.green eva evb;
  blue = blend_part c.blue o.blue eva evb;
  alpha = false;
}

pub record ObjectPixel : Type 0 where
  pub priority : ℕ
  pub color : Color
  pub is_window : Bool
  pub is_alpha : Bool

unfoldable pub reset : ObjectPixel
reset = record {
  priority = 4;
  color = of_raw transparent_rgb555;
  is_window = false;
  is_alpha = false;
}

to_nat-bit : (n : ℕ) → n < 2 → to_nat (n == 1) ≡ n
to_nat-bit n h = ground arith

-- A colour keeps the 16 bits that it is made of.
pub raw-of_raw : (x : ℕ) → x < 2 ^ 16 → raw (of_raw x) ≡ x
unfolding raw of_raw
raw-of_raw x h =
    let r = x % 2 ^ 5 in
    let g = x / 2 ^ 5 % 2 ^ 5 in
    let b = x / 2 ^ 10 % 2 ^ 5 in
    let top = x / 2 ^ 15 % 2 in
    let red : x / 2 ^ 0 % 2 ^ 5 % 2 ^ 5 ≡ r = omega arith in
    let green : g % 2 ^ 5 ≡ g = omega arith in
    let blue : b % 2 ^ 5 ≡ b = omega arith in
    let low : bit_or r (g * 2 ^ 5) ≡ g * 2 ^ 5 + r =
      bit_or_comm r (g * 2 ^ 5) ∙ bit_or_join 5 g r (omega arith) in
    let mid : bit_or (g * 2 ^ 5 + r) (b * 2 ^ 10) ≡ b * 2 ^ 10 + (g * 2 ^ 5 + r) =
      bit_or_comm (g * 2 ^ 5 + r) (b * 2 ^ 10) ∙ bit_or_join 10 b (g * 2 ^ 5 + r) (omega arith) in
    let all = b * 2 ^ 10 + (g * 2 ^ 5 + r) in
    let high : bit_or all (top * 2 ^ 15) ≡ top * 2 ^ 15 + all =
      bit_or_comm all (top * 2 ^ 15) ∙ bit_or_join 15 top all (omega arith) in
    rw (red, green, blue, low, mid, to_nat-bit top (omega arith), high) (omega arith)
