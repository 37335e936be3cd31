-- ===== src/Display/Render/Text/Columns.antt =====
-- The line that the loops of render_text_layer_line of src/io/display/render.cc draw, against the pixel that
-- each position has in the area of screens.
use matar.Base.{
  ℕ, zero, suc, ◌+◌, ◌-◌, ◌/◌, ◌%◌, ◌<◌, ◌≤◌, ◌≡◌, refl, ◌||◌, ◌==◌, ltb, if◌then◌else◌, arith, inl,
  inr, Bool-cases, bit_xor, u32,
}
use matar.Display.{Display}
use matar.Display.Color.{Color}
use matar.Display.Render.Text.Area.{IsAt, area_pos, pixel-lt, IsAt-within, IsAt-next}
use matar.Display.Render.Text.{
  Walk, draw_tile, next_tile, walk_tiles, start_walk, text_line, text_color, start_pos, screen_pos,
  screen_index, screen_size,
}
use matar.Display.Render.Text.Tiles.{Shows, filled, draw_tile-line, draw_tile-x, draw_tile-kept}

-- The pixel of a column, from its position alone.
unfoldable pub text_texel : ℕ → Display → ℕ → Color
text_texel layer d c =
    let size = screen_size layer d in
    let y = u32 ((d.bg_offset layer).y + d.vertical_counter) in
    let pos = area_pos size (d.bg_offset layer).x y c in
    text_color layer d pos.y (screen_index size pos) (pos.x % 256 / 8) (pos.x % 8)

module _ (layer : ℕ) (d : Display) where
  abbrev size : ℕ
  size = screen_size layer d

  abbrev a : ℕ
  a = (d.bg_offset layer).x

  abbrev y : ℕ
  y = u32 ((d.bg_offset layer).y + d.vertical_counter)

  abbrev row : ℕ
  row = (start_pos layer d).y

  abbrev Stands : Walk → Type 0
  Stands w = IsAt size a y w.x w.pixel_x w.tile_x w.index

  row-area_pos : (c : ℕ) → (area_pos size a y c).y ≡ row
  unfolding start_pos screen_pos
  row-area_pos c = ground arith

  Shows-tile :
      (w : Walk)
      → Stands w
      → Shows (text_color layer d row w.index w.tile_x) (text_texel layer d) w.pixel_x w.x
  unfolding text_texel
  Shows-tile w at p c e lo hi =
      let there = IsAt-within size a y w.x w.pixel_x w.tile_x w.index p c at e lo hi in
      rw (there.screen, there.pixel, there.tile, row-area_pos c) refl

  after : Walk → Walk
  after w = next_tile size (draw_tile 8 (text_color layer d row w.index w.tile_x) w)

  after-line :
      (w : Walk) (j : ℕ)
      → Stands w
      → (after w).line j ≡ filled w.x (w.x + (8 - w.pixel_x)) (text_texel layer d) w.line j
  unfolding after next_tile
  after-line w j at =
      let drawn_line =
        draw_tile-line 8 (text_color layer d row w.index w.tile_x) (text_texel layer d) w j
          (omega (arith, pixel-lt at)) (omega arith) (Shows-tile w at) in
      ground (arith, drawn_line)

  after-x :
      (w : Walk)
      → Stands w
      → w.x ≤ 240
      → (after w).x ≡ (if ltb (w.x + (8 - w.pixel_x)) 240 then w.x + (8 - w.pixel_x) else 240)
  unfolding after next_tile
  after-x w at b =
      let moved =
        draw_tile-x 8 (text_color layer d row w.index w.tile_x) w (omega (arith, pixel-lt at))
          (omega arith) b in
      ground (arith, moved)

  after-place :
      (w : Walk)
      → ((after w).pixel_x ≡ 0)
        × ((after w).tile_x ≡ (if w.tile_x + 1 == 32 then 0 else w.tile_x + 1))
        × ((after w).index ≡ (
            if w.tile_x + 1 == 32
            then (if (size == 1) || (size == 3) then bit_xor w.index 1 else w.index)
            else w.index))
  unfolding after next_tile
  after-place w =
      let kept = draw_tile-kept 8 (text_color layer d row w.index w.tile_x) w in
      rw (kept.0, kept.1) (ground arith)

  after-Stands : (w : Walk) → size < 4 → Stands w → w.x ≤ 240 → (after w).x < 240 → Stands (after w)
  after-Stands w h at b more =
      let moved = after-x w at b in
      let x : (after w).x ≡ w.x + (8 - w.pixel_x) = ground (arith, moved, more) in
      let place = after-place w in
      rw (x, place.0, place.1, place.2) (IsAt-next size a y w.x w.pixel_x w.tile_x w.index h at)

  walk_tiles-none : (w : Walk) → walk_tiles 0 layer d row w ≡ w
  unfolding walk_tiles
  walk_tiles-none w = refl

  walk_tiles-more :
      (rounds : ℕ) (w : Walk)
      → w.x < 240
      → walk_tiles (suc rounds) layer d row w ≡ walk_tiles rounds layer d row (after w)
  unfolding walk_tiles after
  walk_tiles-more rounds w h = ground arith

  walk_tiles-over : (rounds : ℕ) (w : Walk) → 240 ≤ w.x → walk_tiles (suc rounds) layer d row w ≡ w
  unfolding walk_tiles
  walk_tiles-over rounds w h = ground arith

  walk_tiles-line :
      (rounds : ℕ) (w : Walk) (j : ℕ)
      → size < 4
      → (w.x < 240 → Stands w)
      → w.x ≤ 240
      → 240 ≤ w.x + rounds
      → (walk_tiles rounds layer d row w).line j ≡ filled w.x 240 (text_texel layer d) w.line j
  walk_tiles-line zero w j h at b enough = ground (arith, walk_tiles-none w)
  walk_tiles-line (suc rounds) w j h at b enough = elim (Bool-cases (ltb w.x 240)) [
    | inl more ↦
        let here = at (ground arith) in
        let next = after w in
        let x = after-x w here b in
        let line = after-line w j here in
        let small = pixel-lt here in
        let rest =
          walk_tiles-line rounds next j h (λ left. after-Stands w h here b left) (ground (arith, x))
            (ground (arith, x, small)) in
        let step = walk_tiles-more rounds w (ground arith) in
        ground (arith, rest, line, x, small, step)
    | inr over ↦ let step = walk_tiles-over rounds w (ground arith) in ground (arith, step)
  ]

  start_walk-Stands : Stands (start_walk layer d)
  unfolding start_walk start_pos
  start_walk-Stands =
      let first : a + 0 ≡ a = omega arith in
      record { pixel = rw first refl; tile = rw first refl; screen = rw first refl }

  -- The loops draw at each column the pixel of its own position in the area of screens.
  pub text_line-texel :
      (j : ℕ)
      → text_line layer d j
        ≡ (if ltb j 240 then text_texel layer d j else d.scanline_buffers layer j)
  unfolding text_line start_walk
  text_line-texel j =
      let walked =
        walk_tiles-line 240 (start_walk layer d) j (omega arith) (λ h. start_walk-Stands)
          (omega arith) (omega arith) in
      ground (arith, walked)
