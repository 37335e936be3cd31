-- ===== src/Display/Render/Line.antt =====
-- Display::render_line of src/io/display/display.cc.
pub mod Layers
pub mod Frame
use matar.Base.{ℕ, zero, suc, ◌+◌, ◌*◌, Bool, ◌==◌, if◌then◌else◌, put, flag, field}
use matar.Display.{Display, lcd_width}
use matar.Display.Color.{Color}
use matar.Display.Compose.{Rendered, enable_bg, compose}
use matar.Display.Render.{draw_line, store_line}
use matar.Display.Render.Bitmap.{bitmap_pixel, render_bitmap_mode_line}
use matar.Display.Render.Text.{text_line, render_text_layer_line}
use matar.Display.Render.RotScale.{rot_scale_pixel, render_rot_scale_layer_line}
use matar.Display.Render.Object.{ObjectBuffer, render_objects_line}

-- One line of a background that is on.
abbrev when_on : ℕ → (Display → Display) → Display → Display
when_on bg render d = record d {
  scanline_buffers = if enable_bg bg d then (render d).scanline_buffers else d.scanline_buffers;
}

unfoldable pub text_when_on : ℕ → Display → Display
text_when_on bg d = when_on bg (render_text_layer_line bg) d

unfoldable pub rot_scale_when_on : ℕ → Display → Display
rot_scale_when_on bg d = when_on bg (render_rot_scale_layer_line bg) d

unfoldable pub bitmap_when_on : ℕ → Display → Display
bitmap_when_on mode d = when_on 2 (render_bitmap_mode_line mode) d

-- The switch over the mode, for the drawing; `backgrounds` of Display/Compose is the list it makes.
unfoldable pub render_backgrounds : Display → Display
render_backgrounds d =
    let mode = field 0 3 d.lcd_control in
    let two = text_when_on 1 (text_when_on 0 d) in
    record d {
      scanline_buffers =
          if mode == 0
          then (text_when_on 3 (text_when_on 2 two)).scanline_buffers
          else if mode == 1
          then (rot_scale_when_on 2 two).scanline_buffers
          else if mode == 2
          then (rot_scale_when_on 3 (rot_scale_when_on 2 d)).scanline_buffers
          else if mode == 3
          then (bitmap_when_on 3 d).scanline_buffers
          else if mode == 4
          then (bitmap_when_on 4 d).scanline_buffers
          else if mode == 5
          then (bitmap_when_on 5 d).scanline_buffers
          else d.scanline_buffers;
    }

unfoldable pub draw_objects : Display → Display
draw_objects d = record d {
  object_buffer =
      if flag 12 d.lcd_control then (render_objects_line d).object_buffer else d.object_buffer;
}

-- `frame_buffer[x + y * LCD_WIDTH]`, for `x` from 0 on.
pub draw_row : ℕ → ℕ → (ℕ → ℕ) → (ℕ → ℕ) → ℕ → ℕ
draw_row zero y pixel frame = frame
draw_row (suc n) y pixel frame = put (draw_row n y pixel frame) (n + y * lcd_width) (pixel n)

unfoldable pub rendered_at : (ℕ → ℕ → Color) → ObjectBuffer → ℕ → ℕ → Rendered
rendered_at lines objects x y = record { scanline = λ bg. lines bg x; object = objects x y }

-- The drawing changes the two buffers only, so that the registers and memories are those of before.
unfoldable pub render_line : Display → Display
render_line d =
    let y = d.vertical_counter in
    let lines = (render_backgrounds d).scanline_buffers in
    let objects = (draw_objects d).object_buffer in
    let blank = flag 7 d.lcd_control in
    record d {
      scanline_buffers = if blank then d.scanline_buffers else lines;
      object_buffer = if blank then d.object_buffer else objects;
      frame_buffer =
          draw_row lcd_width y
            (λ x. if blank then 0xFFFF else compose d (rendered_at lines objects x y) x y)
            d.frame_buffer;
    }
