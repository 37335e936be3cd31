-- ===== src/Display/Render.antt =====
-- The rendering of src/io/display/render.cc. A layer is drawn into its line of the scanline buffers; what
-- it reads, the memories and the registers, does not change while it is drawn. A signed word is its bit
-- pattern of 32 bits. A read past the end of video memory, which the source does not guard against, reads
-- the byte that the model's memory has there.
pub mod Bitmap
pub mod Text
pub mod RotScale
pub mod Object
pub mod Line
pub mod Pixels
pub mod Inside
mod Tests
use matar.Base.{ℕ, zero, suc, ◌+◌, ◌-◌, ◌*◌, ◌/◌, ◌^◌, ltb, leb, if◌then◌else◌, put, u32}
use matar.Display.{Display, Vec2, RotationScaling}
use matar.Display.Color.{Color}

abbrev pub tile_block_size : ℕ
tile_block_size = 16 * 1024

abbrev pub screen_block_size : ℕ
screen_block_size = 2 * 1024

abbrev pub tile_size_4bit_depth : ℕ
tile_size_4bit_depth = 32

abbrev pub tile_size_8bit_depth : ℕ
tile_size_8bit_depth = 64

-- `int16_t` to `int32_t`, on bit patterns.
unfoldable pub widen : ℕ → ℕ
widen x = if ltb x (2 ^ 15) then x else x + 2 ^ 32 - 2 ^ 16

-- `x >> 8` of an `int32_t`.
unfoldable pub shift_fraction : ℕ → ℕ
shift_fraction x = if ltb x (2 ^ 31) then x / 2 ^ 8 else x / 2 ^ 8 + 2 ^ 32 - 2 ^ 24

unfoldable pub pixel_to_texel : Vec2 → ℕ → ℕ → ℕ → Vec2
pixel_to_texel ref x a c = record {
  x = shift_fraction (u32 (ref.x + x * a));
  y = shift_fraction (u32 (ref.y + x * c));
}

abbrev pub texel_at : RotationScaling → ℕ → Vec2
texel_at r x = pixel_to_texel r.internal x (widen r.a) (widen r.c)

-- `for (x = 0; x < n; x++)`, with an assignment to the pixel at `x`.
pub draw_line : ℕ → (ℕ → Color) → (ℕ → Color) → ℕ → Color
draw_line zero pixel line = line
draw_line (suc n) pixel line = put (draw_line n pixel line) n (pixel n)

-- A line of the scanline buffers.
unfoldable pub store_line : ℕ → (ℕ → Color) → Display → Display
store_line layer line d = record d { scanline_buffers = put d.scanline_buffers layer line }
