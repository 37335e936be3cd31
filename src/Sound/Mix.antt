-- ===== src/Sound/Mix.antt =====
-- The sample that `Sound::sample` of src/io/sound/sound.cc mixes, in integers: a signed value is a
-- difference of two numbers. What the resampler is given is `level - bias`.
use matar.Base.{
  ℕ, ◌+◌, ◌-◌, ◌*◌, ◌^◌, ◌≡◌, Bool, false, ltb, if◌then◌else◌, arith, min, flag, field,
}
use matar.Sound.{Sound}

-- A signed byte as a positive and a negative part.
unfoldable pub positive : ℕ → ℕ
positive x = if ltb x 128 then x else 0

unfoldable pub negative : ℕ → ℕ
negative x = if ltb x 128 then 0 else 256 - x

abbrev pub out_max : ℕ
out_max = 2 ^ 10 - 1

-- `dma_value * (2 << volume)` of one part, or nothing where the channel is off on this side.
unfoldable pub scaled : Bool → ℕ → ℕ → ℕ
scaled on volume part = if on then part * (2 * 2 ^ volume) else 0

unfoldable pub bias_of : Sound → ℕ
bias_of s = field 1 9 s.sound_bias * 2

-- `clamp(value + bias, 0, OUT_MAX)`: the subtraction stops at 0.
unfoldable pub biased_level : Bool → Bool → Sound → ℕ
biased_level on_a on_b s =
    let part = λ (sign : ℕ → ℕ).
      scaled on_a (field 2 1 s.dma_ctrl) (sign s.dma_value_a)
      + scaled on_b (field 3 1 s.dma_ctrl) (sign s.dma_value_b) in
    min ((part positive + bias_of s) - part negative) out_max

unfoldable pub left_level : Sound → ℕ
left_level s = biased_level (flag 9 s.dma_ctrl) (flag 13 s.dma_ctrl) s

unfoldable pub right_level : Sound → ℕ
right_level s = biased_level (flag 8 s.dma_ctrl) (flag 12 s.dma_ctrl) s

-- With both channels off on a side, it is silent there.
silent_level : (s : Sound) → biased_level false false s ≡ bias_of s
unfolding biased_level scaled bias_of
silent_level s = omega arith
