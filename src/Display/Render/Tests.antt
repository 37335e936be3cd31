-- ===== src/Display/Render/Tests.antt =====
-- Runs of the rendering.
use matar.Base.{
  ℕ, ◌+◌, ◌-◌, ◌*◌, ◌≡◌, ◌≢◌, refl, true, ◌&&◌, ltb, leb, if◌then◌else◌, flag, put, arith, inl,
}
use matar.Memory as Memory
use matar.Display.{Display}
use matar.Display.Color.{raw, of_raw}
use matar.Display.Compose.{fetch_color, read_color_index}
use matar.Display.Render.Text.{
  text_line, text_color, walk_tiles, draw_tile, next_tile, start_walk, start_pos, screen_pos,
  screen_index,
}
use matar.Display.Render.Text.Columns.{text_texel, text_line-texel}
use matar.Display.Render.RotScale.{rot_scale_pixel}
use matar.Display.Render.Inside.{text_line-inside, rot_scale_pixel-inside}
use matar.Display.Render.Object.{read_oam_attributes, render_one_object, render_objects_line}
use matar.Display.Render.Object.Front.{IsFront, render_objects_line-IsFront}
use matar.Display.Render.Object.Below.{render_one_object-below}
use matar.Display.Render.Line.{render_line}
use matar.Display.Render.Line.Frame.{line_pixel, render_line-frame}
use matar.Samples.{display, memory}

-- Background 0 of mode 0 and the objects are on; the background is 3 pixels to the left, on an area two
-- screens wide.
abbrev pictured : Display
pictured = record display {
  lcd_control = 0x1100;
  bg_control = λ bg. 0x4000;
  bg_offset = λ bg. record { x = 509; y = 2 };
}

text_line-texel_example :
    text_line 0 pictured 5
    ≡ (if ltb 5 240 then text_texel 0 pictured 5 else pictured.scanline_buffers 0 5)
text_line-texel_example = text_line-texel 0 pictured 5

-- Column 5 is the third pixel of the first tile of the first screen, past the wrap of the area.
text_line_at_5 : raw (text_line 0 pictured 5) ≡ 3597
unfolding text_line walk_tiles draw_tile next_tile start_walk start_pos screen_pos screen_index
    text_color read_color_index fetch_color Memory.read_halfword Memory.read_byte raw of_raw
text_line_at_5 = refl

abbrev low_object : Display
low_object = record pictured { oam = record { size = 0x400; byte_at = put (λ i. 0) 0 130 } }

render_objects_line-IsFront_example :
    IsFront pictured 5 159 128
      (pictured.object_buffer 5 159)
      ((render_objects_line pictured).object_buffer 5 159)
    × (159 ≢ pictured.vertical_counter
        → (render_objects_line pictured).object_buffer 5 159 ≡ pictured.object_buffer 5 159)
render_objects_line-IsFront_example = render_objects_line-IsFront pictured 5 159 (omega arith)

render_line-frame_example : (render_line pictured).frame_buffer (159 * 240 + 5) ≡ (
    if leb (pictured.vertical_counter * 240) (159 * 240 + 5)
      && ltb (159 * 240 + 5) (240 + pictured.vertical_counter * 240)
    then (if flag 7 pictured.lcd_control
        then 0xFFFF
        else line_pixel pictured (159 * 240 + 5 - pictured.vertical_counter * 240))
    else pictured.frame_buffer (159 * 240 + 5))
render_line-frame_example = render_line-frame pictured (159 * 240 + 5)

-- Another memory that has the same bytes up to the size.
abbrev longer : ℕ → Memory.Memory
longer size = record { size = size; byte_at = λ i. if ltb i size then i + 1 else 0 }

longer-agree :
    (size i : ℕ)
    → ltb i size ≡ true
    → Memory.read_byte i (memory size) ≡ Memory.read_byte i (longer size)
unfolding Memory.read_byte
longer-agree size i h = rw h refl

text_line-inside_example :
    text_line 0 pictured 5
    ≡ text_line 0 (record pictured { pram = longer 0x400; vram = longer 0x18000 }) 5
text_line-inside_example =
    text_line-inside pictured (longer 0x400) (longer 0x18000) 0 5
      (λ i h. longer-agree 0x400 i (ground arith)) (λ i h. longer-agree 0x18000 i (ground arith))
      (inl refl)

rot_scale_pixel-inside_example :
    rot_scale_pixel 2 pictured 5
    ≡ rot_scale_pixel 2 (record pictured { pram = longer 0x400; vram = longer 0x18000 }) 5
rot_scale_pixel-inside_example =
    rot_scale_pixel-inside pictured (longer 0x400) (longer 0x18000) 2 5
      (λ i h. longer-agree 0x400 i (ground arith)) (λ i h. longer-agree 0x18000 i (ground arith))

render_one_object-below_example :
    render_one_object 0 low_object low_object.object_buffer ≡ low_object.object_buffer
unfolding read_oam_attributes Memory.read_halfword Memory.read_byte
render_one_object-below_example =
    render_one_object-below 0 low_object low_object.object_buffer (omega arith) (omega arith)
      (omega arith) refl
