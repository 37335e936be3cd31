-- ===== src/Display.antt =====
-- The display: include/io/display/display.hh and include/io/display/registers.hh; the lines and frames of
-- src/io/display/display.cc are in Display/Timing. A register struct is its 16 or 8 bits, and a field is
-- a range of them. The rendering is in Display/Render, and one pixel of a line, from the colours of its
-- layers, in Display/Compose. An array is a function of its index.
pub mod Blend
pub mod Color
pub mod Compose
pub mod Registers
pub mod Render
pub mod Timing
pub mod Window
pub mod Frame
pub mod Schedule
mod Tests
use matar.Base.{ℕ, Bool, leb, if◌then◌else◌, field}
use matar.Memory.{Memory}
use matar.Display.Blend.{BlendControl}
use matar.Display.Color.{ObjectPixel}

pub record Vec2 : Type 0 where
  pub x : ℕ
  pub y : ℕ

-- Signed words are their bit patterns, `a` to `d` of 16 bits, the points of 32.
pub record RotationScaling : Type 0 where
  pub a : ℕ
  pub b : ℕ
  pub c : ℕ
  pub d : ℕ
  pub ref : Vec2
  pub internal : Vec2

abbrev pub lcd_width : ℕ
lcd_width = 240

abbrev pub lcd_height : ℕ
lcd_height = 160

pub record Display : Type 0 where
  pub pram : Memory
  pub vram : Memory
  pub oam : Memory
  pub lcd_control : ℕ
  pub lcd_status : ℕ
  pub vertical_counter : ℕ
  pub bg_control : ℕ → ℕ
  pub bg_offset : ℕ → Vec2
  pub bg2_rot_scale : RotationScaling
  pub bg3_rot_scale : RotationScaling
  pub win0_top_left : Vec2
  pub win0_bot_right : Vec2
  pub win1_top_left : Vec2
  pub win1_bot_right : Vec2
  pub win0 : ℕ
  pub win1 : ℕ
  pub win_out : ℕ
  pub win_obj : ℕ
  pub mosaic_size : ℕ
  pub blend_control : BlendControl
  pub alpha_coeff : ℕ
  pub brightness_coeff : ℕ
  pub scanline_buffers : ℕ → ℕ → Color.Color
  pub object_buffer : ℕ → ℕ → ObjectPixel
  pub frame_buffer : ℕ → ℕ

-- Where the tiles of objects begin in video memory, by the mode.
unfoldable pub obj_offset : Display → ℕ
obj_offset d = if leb 3 (field 0 3 d.lcd_control) then 0x14000 else 0x10000
