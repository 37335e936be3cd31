-- ===== src/Display/Blend.antt =====
-- `BlendControl` of include/io/display/registers.hh: a target is its eight bits.
use matar.Base.{ℕ, ◌<<<◌, bit_and, bit_or}

pub record BlendControl : Type 0 where
  pub top : ℕ
  pub bottom : ℕ

unfoldable pub read : BlendControl → ℕ
read b = bit_or (b.top <<< 8) b.bottom

unfoldable pub write : ℕ → BlendControl
write raw = record { top = bit_and (raw <<< 8) 0xFF; bottom = bit_and raw 0xFF }
