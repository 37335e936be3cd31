-- ===== src/Display/Render/Object.antt =====
-- The objects of src/io/display/render.cc: read_oam_attributes, object_size, read_rotation_params and
-- render_one_object. A signed `int` is its bit pattern of 32 bits.
pub mod Columns
pub mod Front
pub mod Below
use matar.Base.{
  ℕ, zero, suc, ◌+◌, ◌-◌, ◌*◌, ◌/◌, ◌%◌, ◌^◌, Bool, true, false, not, ◌&&◌, ◌||◌, ◌==◌, ltb, leb,
  if◌then◌else◌, put, flag, field, u32, sub32,
}
use matar.Memory as Memory
use matar.Bits.{get_bit}
use matar.Display.{Display, Vec2, lcd_width, lcd_height}
use matar.Display.Color.{Color, ObjectPixel, raw, transparent_rgb555}
use matar.Display.Compose.{fetch_color, read_color_index}
use matar.Display.Render.{tile_size_4bit_depth, tile_size_8bit_depth, widen, shift_fraction}

abbrev pub oam_attrs_size : ℕ
oam_attrs_size = 6

abbrev pub oam_entry_size : ℕ
oam_entry_size = 8

abbrev pub obj_start_text_mode : ℕ
obj_start_text_mode = 0x10000

abbrev pub alpha : ℕ
alpha = 1

abbrev pub window : ℕ
window = 2

abbrev pub prohibited : ℕ
prohibited = 3

-- `a < b` of two `int`.
unfoldable pub int_lt : ℕ → ℕ → Bool
int_lt a b = ltb (u32 (a + 2 ^ 31)) (u32 (b + 2 ^ 31))

-- An `int8_t` and a signed field of 9 bits, as `int`.
unfoldable pub widen8 : ℕ → ℕ
widen8 x = if ltb x (2 ^ 7) then x else x + 2 ^ 32 - 2 ^ 8

unfoldable pub widen9 : ℕ → ℕ
widen9 x = if ltb x (2 ^ 8) then x else x + 2 ^ 32 - 2 ^ 9

pub record OamAttributes : Type 0 where
  pub attr0 : ℕ
  pub attr1 : ℕ
  pub attr2 : ℕ

unfoldable pub read_oam_attributes : ℕ → Display → OamAttributes
read_oam_attributes idx d =
    let attr_address = oam_entry_size * idx in
    record {
      attr0 = Memory.read_halfword attr_address d.oam;
      attr1 = Memory.read_halfword (attr_address + 2) d.oam;
      attr2 = Memory.read_halfword (attr_address + 4) d.oam;
    }

abbrev pub rot_scale_flag : OamAttributes → Bool
rot_scale_flag o = flag 8 o.attr0

abbrev pub double_size_or_obj_disable : OamAttributes → Bool
double_size_or_obj_disable o = flag 9 o.attr0

abbrev pub mode : OamAttributes → ℕ
mode o = field 10 2 o.attr0

abbrev pub colors256 : OamAttributes → Bool
colors256 o = flag 13 o.attr0

abbrev pub trans_params : OamAttributes → ℕ
trans_params o = field 9 5 o.attr1

abbrev pub number : OamAttributes → ℕ
number o = field 0 10 o.attr2

abbrev pub priority : OamAttributes → ℕ
priority o = field 10 2 o.attr2

abbrev pub palette : OamAttributes → ℕ
palette o = field 12 4 o.attr2

abbrev size_of : ℕ → ℕ → Vec2
size_of x y = record { x = x; y = y }

-- One row of the table of sizes.
unfoldable pub choose_size : Vec2 → Vec2 → Vec2 → Vec2 → ℕ → Vec2
choose_size a b c d size =
    if size == 0 then a else if size == 1 then b else if size == 2 then c else d

unfoldable pub object_size : OamAttributes → Vec2
unfolding choose_size
object_size o =
    let shape = field 14 2 o.attr0 in
    let size = field 14 2 o.attr1 in
    if shape == 0
    then choose_size (size_of 8 8) (size_of 16 16) (size_of 32 32) (size_of 64 64) size
    else if shape == 1
    then choose_size (size_of 16 8) (size_of 32 8) (size_of 32 16) (size_of 64 32) size
    else if shape == 2
    then choose_size (size_of 8 16) (size_of 8 32) (size_of 16 32) (size_of 32 64) size
    else size_of 8 8

pub record RotationParams : Type 0 where
  pub a : ℕ
  pub b : ℕ
  pub c : ℕ
  pub d : ℕ

unfoldable pub read_rotation_params : OamAttributes → Display → RotationParams
read_rotation_params o d =
    let address = oam_attrs_size + trans_params o * (4 * oam_entry_size) in
    record {
      a = widen (Memory.read_halfword (address + 0 * oam_entry_size) d.oam);
      b = widen (Memory.read_halfword (address + 1 * oam_entry_size) d.oam);
      c = widen (Memory.read_halfword (address + 2 * oam_entry_size) d.oam);
      d = widen (Memory.read_halfword (address + 3 * oam_entry_size) d.oam);
    }

-- `obj_pos`, moved by a screen beyond its edges.
unfoldable pub object_pos : OamAttributes → Vec2
object_pos o =
    let x = widen9 (field 0 9 o.attr1) in
    let y = widen8 (field 0 8 o.attr0) in
    record {
      x = if int_lt x lcd_width then x else sub32 x 512;
      y = if int_lt y lcd_height then y else sub32 y 256;
    }

unfoldable pub display_size : OamAttributes → Vec2
display_size o =
    if rot_scale_flag o && double_size_or_obj_disable o
    then record { x = (object_size o).x * 2; y = (object_size o).y * 2 }
    else object_size o

-- The early returns: the mode, the disabled objects, those that do not cover the line, and the numbers
-- that the bitmap modes leave out.
unfoldable pub is_drawn : OamAttributes → Display → Bool
is_drawn o d =
    let y = d.vertical_counter in
    let pos = object_pos o in
    not (mode o == prohibited)
    && (not (not (rot_scale_flag o) && double_size_or_obj_disable o)
        && (not (int_lt y pos.y || not (int_lt y (u32 (pos.y + (display_size o).y))))
            && not (ltb 2 (field 0 3 d.lcd_control) && ltb (number o) 512)))

-- The pixel of the object's picture that is shown in a column, and whether there is one.
unfoldable pub rotated_pos : OamAttributes → Display → ℕ → Vec2
rotated_pos o d x =
    let p = read_rotation_params o d in
    let size = object_size o in
    let pos = object_pos o in
    let ref_x = sub32 (sub32 x pos.x) ((display_size o).x / 2) in
    let ref_y = sub32 (sub32 d.vertical_counter pos.y) ((display_size o).y / 2) in
    record {
      x = u32 (shift_fraction (u32 (p.a * ref_x + p.b * ref_y)) + size.x / 2);
      y = u32 (shift_fraction (u32 (p.c * ref_x + p.d * ref_y)) + size.y / 2);
    }

unfoldable pub plain_pos : OamAttributes → Display → ℕ → Vec2
plain_pos o d x =
    let size = object_size o in
    let pos = object_pos o in
    let across = sub32 x pos.x in
    let down = sub32 d.vertical_counter pos.y in
    record {
      x = if get_bit (trans_params o) 3 then sub32 (size.x - 1) across else across;
      y = if get_bit (trans_params o) 4 then sub32 (size.y - 1) down else down;
    }

unfoldable pub tile_pos : OamAttributes → Display → ℕ → Vec2
tile_pos o d x = if rot_scale_flag o then rotated_pos o d x else plain_pos o d x

unfoldable pub is_outside : OamAttributes → Vec2 → Bool
is_outside o p =
    let size = object_size o in
    int_lt p.x 0 || (not (int_lt p.x size.x) || (int_lt p.y 0 || not (int_lt p.y size.y)))

unfoldable pub object_color : OamAttributes → Display → Vec2 → Color
object_color o d p =
    let tile_base = obj_start_text_mode + number o * 32 in
    let tile_size = if colors256 o then tile_size_8bit_depth else tile_size_4bit_depth in
    let tiles_in_one_row =
      if flag 6 d.lcd_control then (object_size o).x / 8 else 1024 / tile_size in
    let tile_address = tile_base + tile_size * (p.x / 8 + p.y / 8 * tiles_in_one_row) in
    let color_index = read_color_index tile_address (p.x % 8) (p.y % 8) (colors256 o) d in
    fetch_color color_index (if colors256 o then 0 else palette o) true d

-- The body of the loop, on the pixel of the object buffer in its column.
unfoldable pub draw_column : OamAttributes → Display → ℕ → ObjectPixel → ObjectPixel
draw_column o d x old =
    let p = tile_pos o d x in
    let color = object_color o d p in
    if leb old.priority (priority o) && not (mode o == window)
    then old
    else if rot_scale_flag o && is_outside o p
    then old
    else if raw color == transparent_rgb555
    then old
    else if mode o == window
    then record old { is_window = true }
    else record old { color = color; priority = priority o; is_alpha = mode o == alpha }

abbrev pub ObjectBuffer : Type 0
ObjectBuffer = ℕ → ℕ → ObjectPixel

unfoldable pub put_pixel : ℕ → ℕ → ObjectPixel → ObjectBuffer → ObjectBuffer
put_pixel x y pixel buffer = put buffer x (put (buffer x) y pixel)

-- `for (x = pos.x; x < pos.x + display_size.x && x < LCD_WIDTH; x++)`: the rounds are the columns of the
-- object, and a negative column is passed over.
unfoldable pub draw_columns : ℕ → OamAttributes → Display → ℕ → ObjectBuffer → ObjectBuffer
draw_columns zero o d x buffer = buffer
draw_columns (suc rounds) o d x buffer = elim (int_lt x lcd_width) [
  | false ↦ buffer
  | true ↦ draw_columns rounds o d (u32 (x + 1)) (
      if int_lt x 0
      then buffer
      else put_pixel x d.vertical_counter (draw_column o d x (buffer x d.vertical_counter)) buffer)
]

-- The object of a number, over an object buffer.
unfoldable pub render_one_object : ℕ → Display → ObjectBuffer → ObjectBuffer
render_one_object idx d buffer =
    let o = read_oam_attributes idx d in
    if is_drawn o d then draw_columns (display_size o).x o d (object_pos o).x buffer else buffer

-- The objects from number 0 on.
unfoldable pub render_objects : ℕ → Display → ObjectBuffer → ObjectBuffer
render_objects zero d buffer = buffer
render_objects (suc n) d buffer = render_one_object n d (render_objects n d buffer)

unfoldable pub render_objects_line : Display → Display
render_objects_line d = record d { object_buffer = render_objects 128 d d.object_buffer }
