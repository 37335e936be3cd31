-- ===== src/Display/Render/RotScale.antt =====
-- render_rot_scale_layer_line of src/io/display/render.cc; the parameter of the template is an argument.
use matar.Base.{
  ℕ, ◌+◌, ◌-◌, ◌*◌, ◌/◌, ◌%◌, ◌^◌, Bool, true, false, not, ◌&&◌, ◌||◌, ◌==◌, leb, if◌then◌else◌,
  ◌<<<◌, bit_and, flag, field,
}
use matar.Memory as Memory
use matar.Display.{Display, RotationScaling, Vec2, lcd_width}
use matar.Display.Color.{Color}
use matar.Display.Compose.{fetch_color, read_color_index}
use matar.Display.Render.{
  tile_block_size, screen_block_size, tile_size_8bit_depth, texel_at, draw_line, store_line,
}

abbrev pub scaling : ℕ → Display → RotationScaling
scaling layer d = if layer == 2 then d.bg2_rot_scale else d.bg3_rot_scale

unfoldable pub area_size : ℕ → Display → ℕ
area_size layer d = 128 <<< field 14 2 (d.bg_control layer)

-- `v < 0 || v >= size`
unfoldable pub overflows : ℕ → ℕ → Bool
overflows size v = leb (2 ^ 31) v || leb size v

unfoldable pub area_overflow : ℕ → Vec2 → Bool
area_overflow size texel = overflows size texel.x || overflows size texel.y

unfoldable pub wrap_texel : ℕ → Vec2 → Vec2
wrap_texel size texel =
    if area_overflow size texel
    then record { x = bit_and texel.x (size - 1); y = bit_and texel.y (size - 1) }
    else texel

-- The colour of a texel inside the area.
unfoldable pub rot_scale_color : ℕ → Display → Vec2 → Color
rot_scale_color layer d texel =
    let tile_base = field 2 2 (d.bg_control layer) * tile_block_size in
    let map_base = field 8 5 (d.bg_control layer) * screen_block_size in
    let n_tiles = area_size layer d / 8 in
    let map_address = map_base + (texel.x / 8 + texel.y / 8 * n_tiles) in
    let tile_address = tile_base + Memory.read_byte map_address d.vram * tile_size_8bit_depth in
    let color_index = read_color_index tile_address (texel.x % 8) (texel.y % 8) true d in
    fetch_color color_index 0 false d

unfoldable pub rot_scale_pixel : ℕ → Display → ℕ → Color
rot_scale_pixel layer d x =
    let size = area_size layer d in
    let texel = texel_at (scaling layer d) x in
    if area_overflow size texel && not (flag 13 (d.bg_control layer))
    then fetch_color 0 0 false d
    else rot_scale_color layer d (wrap_texel size texel)

unfoldable pub render_rot_scale_layer_line : ℕ → Display → Display
render_rot_scale_layer_line layer d =
    store_line layer (draw_line lcd_width (rot_scale_pixel layer d) (d.scanline_buffers layer)) d
