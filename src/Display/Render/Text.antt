-- ===== src/Display/Render/Text.antt =====
-- render_text_layer_line of src/io/display/render.cc; the parameter of the template is an argument. The
-- inner loop runs at most 8 rounds, over the rest of a tile, and the outer one at most 240, since each
-- draws a pixel.
pub mod Area
pub mod Tiles
pub mod Columns
use matar.Base.{
  ℕ, zero, suc, ◌+◌, ◌-◌, ◌*◌, ◌/◌, ◌%◌, ◌^◌, Bool, true, false, ◌&&◌, ◌||◌, ◌==◌, ltb,
  if◌then◌else◌, put, bit_xor, flag, field, u32,
}
use matar.Memory as Memory
use matar.Display.{Display, Vec2, lcd_width}
use matar.Display.Color.{Color}
use matar.Display.Compose.{fetch_color, read_color_index}
use matar.Display.Render.{
  tile_block_size, screen_block_size, tile_size_4bit_depth, tile_size_8bit_depth, store_line,
}

abbrev pub screen_size : ℕ → Display → ℕ
screen_size layer d = field 14 2 (d.bg_control layer)

abbrev pub colors256 : ℕ → Display → Bool
colors256 layer d = flag 7 (d.bg_control layer)

-- The switch over the screen size: the position in the area of screens, and the screen it is on.
unfoldable pub screen_pos : ℕ → Vec2 → Vec2
screen_pos size p =
    if size == 0
    then record { x = p.x % 256; y = p.y % 256 }
    else if size == 1
    then record { x = p.x % 512; y = p.y % 256 }
    else if size == 2
    then record { x = p.x % 256; y = p.y % 512 }
    else record { x = p.x % 512; y = p.y % 512 }

unfoldable pub screen_index : ℕ → Vec2 → ℕ
screen_index size p =
    if size == 0
    then 0
    else if size == 1
    then p.x / 256
    else if size == 2
    then p.y / 256
    else p.x / 256 + p.y / 256 * 2

unfoldable pub start_pos : ℕ → Display → Vec2
start_pos layer d =
    screen_pos (screen_size layer d)
      (record { x = (d.bg_offset layer).x; y = u32 ((d.bg_offset layer).y + d.vertical_counter) })

-- The colour of a pixel of a tile: the entry of the map, the tile it names, and the palette. `row` is the
-- line in the area of screens.
unfoldable pub text_color : ℕ → Display → ℕ → ℕ → ℕ → ℕ → Color
text_color layer d row index tile_x pixel_x =
    let tile_base = field 2 2 (d.bg_control layer) * tile_block_size in
    let map_base = field 8 5 (d.bg_control layer) * screen_block_size in
    let color_256 = colors256 layer d in
    let tile_data_size = if color_256 then tile_size_8bit_depth else tile_size_4bit_depth in
    let tile_y = row % 256 / 8 in
    let pixel_y = row % 8 in
    let map_index = map_base + index * screen_block_size + (tile_x + tile_y * 32) * 2 in
    let map = Memory.read_halfword map_index d.vram in
    let tile_address = tile_base + field 0 10 map * tile_data_size in
    let color_index =
      read_color_index tile_address (if flag 10 map then 7 - pixel_x else pixel_x)
        (if flag 11 map then 7 - pixel_y else pixel_y) color_256 d in
    fetch_color color_index (if color_256 then 0 else field 12 4 map) false d

-- The variables of the loops.
pub record Walk : Type 0 where
  pub x : ℕ
  pub pixel_x : ℕ
  pub tile_x : ℕ
  pub index : ℕ
  pub line : ℕ → Color

-- `while (pixel_in_tile.x < TILE_SIZE && x < LCD_WIDTH)`
unfoldable pub draw_tile : ℕ → (ℕ → Color) → Walk → Walk
draw_tile zero color w = w
draw_tile (suc rounds) color w =
    let drawn = draw_tile rounds color (record w {
      x = w.x + 1;
      pixel_x = w.pixel_x + 1;
      line = put w.line w.x (color w.pixel_x);
    }) in
    if ltb w.pixel_x 8 && ltb w.x lcd_width then drawn else w

-- The step to the next tile, which is on the next screen after the last of a row.
unfoldable pub next_tile : ℕ → Walk → Walk
next_tile size w =
    if w.tile_x + 1 == 32
    then record w {
      pixel_x = 0;
      tile_x = 0;
      index = if (size == 1) || (size == 3) then bit_xor w.index 1 else w.index;
    }
    else record w { pixel_x = 0; tile_x = w.tile_x + 1 }

-- `while (x < LCD_WIDTH)`
unfoldable pub walk_tiles : ℕ → ℕ → Display → ℕ → Walk → Walk
walk_tiles zero layer d row w = w
walk_tiles (suc rounds) layer d row w = elim (ltb w.x lcd_width) [
  | true ↦
      let drawn = draw_tile 8 (text_color layer d row w.index w.tile_x) w in
      walk_tiles rounds layer d row (next_tile (screen_size layer d) drawn)
  | false ↦ w
]

unfoldable pub start_walk : ℕ → Display → Walk
start_walk layer d =
    let pos = start_pos layer d in
    record {
      x = 0;
      pixel_x = pos.x % 8;
      tile_x = pos.x % 256 / 8;
      index = screen_index (screen_size layer d) pos;
      line = d.scanline_buffers layer;
    }

unfoldable pub text_line : ℕ → Display → ℕ → Color
text_line layer d = (walk_tiles lcd_width layer d (start_pos layer d).y (start_walk layer d)).line

unfoldable pub render_text_layer_line : ℕ → Display → Display
render_text_layer_line layer d = store_line layer (text_line layer d) d
