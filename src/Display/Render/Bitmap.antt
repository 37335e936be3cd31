-- ===== src/Display/Render/Bitmap.antt =====
-- render_bitmap_mode_line of src/io/display/render.cc; the parameter of the template is an argument.
use matar.Base.{ℕ, ◌+◌, ◌*◌, false, not, ◌&&◌, ◌==◌, if◌then◌else◌, flag, u32}
use matar.Memory as Memory
use matar.Display.{Display, lcd_width}
use matar.Display.Color.{Color, of_raw}
use matar.Display.Compose.{fetch_color}
use matar.Display.Render.{texel_at, draw_line, store_line}

-- `idx` in its three steps: the pixel, its two bytes except in mode 4, and the second frame except in
-- mode 3.
unfoldable pub bitmap_index : ℕ → Display → ℕ → ℕ
bitmap_index mode d x =
    let texel = texel_at d.bg2_rot_scale x in
    let width = if mode == 5 then 160 else lcd_width in
    let pixel = u32 (texel.y * width + texel.x) in
    let bytes = if mode == 4 then pixel else u32 (pixel * 2) in
    if not (mode == 3) && flag 4 d.lcd_control then u32 (bytes + 0xA000) else bytes

unfoldable pub bitmap_pixel : ℕ → Display → ℕ → Color
bitmap_pixel mode d x =
    let idx = bitmap_index mode d x in
    if mode == 4
    then fetch_color (Memory.read_byte idx d.vram) 0 false d
    else of_raw (Memory.read_halfword idx d.vram)

unfoldable pub render_bitmap_mode_line : ℕ → Display → Display
render_bitmap_mode_line mode d =
    store_line 2 (draw_line lcd_width (bitmap_pixel mode d) (d.scanline_buffers 2)) d
