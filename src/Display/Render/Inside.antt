-- ===== src/Display/Render/Inside.antt =====
-- The reads of the palette and of video memory in src/io/display/display.cc and src/io/display/render.cc: they
-- stay inside the two memories, so what a memory would give past its end makes no difference.
use matar.Base.{
  ℕ, ◌+◌, ◌-◌, ◌*◌, ◌/◌, ◌%◌, ◌^◌, ◌<◌, ◌≤◌, ◌≡◌, refl, Bool, true, false, if◌then◌else◌, flag,
  field, arith, ◌⊎◌, inl, inr, bit_and, u32, bit_and-le_right, zero, suc,
}
use matar.Memory.{Memory, read_byte, read_halfword}
use matar.Display.{Display, Vec2}
use matar.Display.Compose.{read_color_index, fetch_color}
use matar.Display.Render.{texel_at}
use matar.Display.Render.Text.{
  text_line, text_color, colors256, screen_size, screen_pos, screen_index,
}
use matar.Display.Render.Text.Columns.{text_texel, text_line-texel}
use matar.Display.Render.Text.Area.{area_pos}
use matar.Display.Render.RotScale.{
  area_size, rot_scale_color, rot_scale_pixel, wrap_texel, area_overflow, overflows, scaling,
}
use matar.Memory.ReadBack.{read_byte-lt}

-- Two memories that have the same bytes below a size.
abbrev pub Agree : ℕ → Memory → Memory → Type 0
Agree size m n = (i : ℕ) → i < size → read_byte i m ≡ read_byte i n

halfword-Agree :
    (size : ℕ) (m n : Memory) (i : ℕ)
    → Agree size m n
    → i + 1 < size
    → read_halfword i m ≡ read_halfword i n
unfolding read_halfword
halfword-Agree size m n i same h = rw (same i (omega arith), same (i + 1) h) refl

screen_index-lt : (size : ℕ) (p : Vec2) → screen_index size (screen_pos size p) < 4
unfolding screen_index screen_pos
screen_index-lt size p = ground arith

abbrev map_place : ℕ → ℕ → ℕ → ℕ → ℕ
map_place block k x y = block * 2048 + (x / 8 + y / 8 * (128 * 2 ^ k / 8))

map_place-lt :
    (block k x y : ℕ)
    → block < 32
    → k < 4
    → x < 128 * 2 ^ k
    → y < 128 * 2 ^ k
    → map_place block k x y < 0x18000
map_place-lt block zero x y hb hk hx hy = omega arith
map_place-lt block (suc zero) x y hb hk hx hy = omega arith
map_place-lt block (suc (suc zero)) x y hb hk hx hy = omega arith
map_place-lt block (suc (suc (suc zero))) x y hb hk hx hy = omega arith
map_place-lt block (suc (suc (suc (suc k)))) x y hb hk hx hy = absurd (omega arith)

area-pos : (k : ℕ) → k < 4 → 0 < 128 * 2 ^ k
area-pos zero h = omega arith
area-pos (suc zero) h = omega arith
area-pos (suc (suc zero)) h = omega arith
area-pos (suc (suc (suc zero))) h = omega arith
area-pos (suc (suc (suc (suc k)))) h = absurd (omega arith)

-- A coordinate that has been wrapped, or needs not be, is inside the area.
bit_and-lt : (x size : ℕ) → 0 < size → bit_and x (size - 1) < size
bit_and-lt x size h = omega (arith, bit_and-le_right x (size - 1))

wrap_texel-lt :
    (size : ℕ) (t : Vec2)
    → 0 < size
    → ((wrap_texel size t).x < size) × ((wrap_texel size t).y < size)
unfolding wrap_texel area_overflow overflows
wrap_texel-lt size t h = ground (arith, bit_and-lt t.x size h, bit_and-lt t.y size h)

-- An index is that of one of 256 colours, or of one of the 16 of a palette.
palette_cases :
    (bpp8 : Bool) (i bank : ℕ)
    → i < (if bpp8 then 256 else 16)
    → bank < 16
    → (i < 256) × ((if bpp8 then 0 else bank) < 16) × (((if bpp8 then 0 else bank) ≡ 0) ⊎ (i < 16))
palette_cases true i bank h b = (h, omega arith, inl refl)
palette_cases false i bank h b = (omega arith, b, inr h)

module _ (d : Display) (pram vram : Memory) (p : Agree 0x400 d.pram pram)
    (v : Agree 0x18000 d.vram vram) where
  abbrev other : Display
  other = record d { pram = pram; vram = vram }

  fetch_color-agree :
      (index bank : ℕ) (obj : Bool)
      → index < 256
      → bank < 16
      → (bank ≡ 0) ⊎ (index < 16)
      → fetch_color index bank obj d ≡ fetch_color index bank obj other
  unfolding fetch_color
  fetch_color-agree index bank obj hi hb small =
      let address = 2 * index + 0x20 * bank + (if obj then 0x200 else 0) in
      let inside : address + 1 < 0x400 = ground (arith, small) in
      rw (halfword-Agree 0x400 d.pram pram address p inside) refl

  read_color_index-agree :
      (address x y : ℕ) (bpp8 : Bool)
      → x < 8
      → y < 8
      → address + (if bpp8 then 64 else 32) ≤ 0x18000
      → read_color_index address x y bpp8 d ≡ read_color_index address x y bpp8 other
  unfolding read_color_index
  read_color_index-agree address x y true hx hy h =
      rw (v (address + (y * 8 + x)) (omega arith)) refl
  read_color_index-agree address x y false hx hy h =
      rw (v (address + (y * 8 + x) / 2) (omega arith)) refl

  read_color_index-lt :
      (address x y : ℕ) (bpp8 : Bool)
      → read_color_index address x y bpp8 d < (if bpp8 then 256 else 16)
  unfolding read_color_index read_byte
  read_color_index-lt address x y bpp8 = ground arith

  text_color-agree :
      (layer row index tile_x pixel_x : ℕ)
      → (colors256 layer d ≡ false) ⊎ (field 2 2 (d.bg_control layer) < 3)
      → index < 4
      → tile_x < 32
      → pixel_x < 8
      → text_color layer d row index tile_x pixel_x
        ≡ text_color layer other row index tile_x pixel_x
  unfolding text_color
  text_color-agree layer row index tile_x pixel_x few hi ht hp =
      let base = field 2 2 (d.bg_control layer) * 16384 in
      let map_index =
        field 8 5 (d.bg_control layer) * 2048 + index * 2048 + (tile_x + row % 256 / 8 * 32) * 2 in
      let map = read_halfword map_index d.vram in
      let bpp8 = colors256 layer d in
      let address = base + field 0 10 map * (if bpp8 then 64 else 32) in
      let x = if flag 10 map then 7 - pixel_x else pixel_x in
      let y = if flag 11 map then 7 - row % 8 else row % 8 in
      let color_index = read_color_index address x y bpp8 d in
      let mapped = halfword-Agree 0x18000 d.vram vram map_index v (omega arith) in
      let inside : address + (if bpp8 then 64 else 32) ≤ 0x18000 = ground (arith, few) in
      let hx : x < 8 = ground arith in
      let hy : y < 8 = ground arith in
      let same = read_color_index-agree address x y bpp8 hx hy inside in
      let ok =
        palette_cases bpp8 color_index (field 12 4 map) (read_color_index-lt address x y bpp8)
          (omega arith) in
      let fetched =
        fetch_color-agree color_index (if bpp8 then 0 else field 12 4 map) false ok.0 ok.1 ok.2 in
      rw (← mapped, ← same) fetched

  -- The pixel of a text layer at a position.
  text_texel-inside :
      (layer c : ℕ)
      → (colors256 layer d ≡ false) ⊎ (field 2 2 (d.bg_control layer) < 3)
      → text_texel layer d c ≡ text_texel layer other c
  unfolding text_texel
  text_texel-inside layer c few =
      let size = screen_size layer d in
      let y = u32 ((d.bg_offset layer).y + d.vertical_counter) in
      let pos = area_pos size (d.bg_offset layer).x y c in
      text_color-agree layer pos.y (screen_index size pos) (pos.x % 256 / 8) (pos.x % 8) few
        (screen_index-lt size _) (omega arith) (omega arith)

  rot_scale_color-agree :
      (layer : ℕ) (texel : Vec2)
      → texel.x < area_size layer d
      → texel.y < area_size layer d
      → rot_scale_color layer d texel ≡ rot_scale_color layer other texel
  unfolding rot_scale_color area_size
  rot_scale_color-agree layer texel hx hy =
      let k = field 14 2 (d.bg_control layer) in
      let block = field 8 5 (d.bg_control layer) in
      let map_address = map_place block k texel.x texel.y in
      let address = field 2 2 (d.bg_control layer) * 16384 + read_byte map_address d.vram * 64 in
      let color_index = read_color_index address (texel.x % 8) (texel.y % 8) true d in
      let mapped =
        v map_address (map_place-lt block k texel.x texel.y (omega arith) (omega arith) hx hy) in
      let same =
        read_color_index-agree address (texel.x % 8) (texel.y % 8) true (omega arith) (omega arith)
          (omega (arith, read_byte-lt map_address d.vram)) in
      let small = read_color_index-lt address (texel.x % 8) (texel.y % 8) true in
      rw (← mapped, ← same) (fetch_color-agree color_index 0 false small (omega arith) (inl refl))

  area_size-pos : (layer : ℕ) → 0 < area_size layer d
  unfolding area_size
  area_size-pos layer = area-pos (field 14 2 (d.bg_control layer)) (omega arith)

  rot_scale_pixel-agree : (layer c : ℕ) → rot_scale_pixel layer d c ≡ rot_scale_pixel layer other c
  unfolding rot_scale_pixel area_size fetch_color
  rot_scale_pixel-agree layer c =
      let inside =
        wrap_texel-lt (area_size layer d) (texel_at (scaling layer d) c) (area_size-pos layer) in
      rw (rot_scale_color-agree layer _ inside.0 inside.1) refl

-- A text layer of 16 colours a tile, or of 256 colours whose tiles do not begin in the last of the four blocks, draws its line from bytes inside the palette and video memory: the line is the same whatever stands past their ends.
pub text_line-inside :
    (d : Display) (pram vram : Memory) (layer c : ℕ)
    → Agree 0x400 d.pram pram
    → Agree 0x18000 d.vram vram
    → (colors256 layer d ≡ false) ⊎ (field 2 2 (d.bg_control layer) < 3)
    → text_line layer d c ≡ text_line layer (record d { pram = pram; vram = vram }) c
text_line-inside d pram vram layer c p v few =
    rw
      (
        text_line-texel layer d c,
        text_line-texel layer (record d { pram = pram; vram = vram }) c,
        text_texel-inside d pram vram p v layer c few,
      )
      refl

-- A layer that is rotated and scaled reads each of its pixels inside the palette and video memory, wherever its texels lie: the pixel is the same whatever stands past their ends.
pub rot_scale_pixel-inside :
    (d : Display) (pram vram : Memory) (layer c : ℕ)
    → Agree 0x400 d.pram pram
    → Agree 0x18000 d.vram vram
    → rot_scale_pixel layer d c ≡ rot_scale_pixel layer (record d { pram = pram; vram = vram }) c
rot_scale_pixel-inside d pram vram layer c p v = rot_scale_pixel-agree d pram vram p v layer c
