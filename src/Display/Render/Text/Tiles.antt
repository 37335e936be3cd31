-- ===== src/Display/Render/Text/Tiles.antt =====
-- The inner loop of render_text_layer_line of src/io/display/render.cc: the pixels of one tile of a
-- line.
use matar.Base.{
  ℕ, zero, suc, ◌+◌, ◌-◌, ◌<◌, ◌≤◌, ◌≡◌, ◌&&◌, ltb, if◌then◌else◌, put, arith, inl, inr, Bool-cases,
}
use matar.Display.Color.{Color}
use matar.Display.Render.Text.{Walk, draw_tile}

-- The colours of a tile are those that a line is to have, from the columns where both stand.
abbrev pub Shows : (ℕ → Color) → (ℕ → Color) → ℕ → ℕ → Type 0
Shows color spec pixel_x x =
    (p c : ℕ) → p + x ≡ c + pixel_x → pixel_x ≤ p → p < 8 → color p ≡ spec c

-- The columns from `x` to `far` on a line.
abbrev pub filled : ℕ → ℕ → (ℕ → Color) → (ℕ → Color) → ℕ → Color
filled x far spec line j =
    if ltb j x then line j else if ltb j far && ltb j 240 then spec j else line j

abbrev drawn : (ℕ → Color) → Walk → Walk
drawn color w = record w {
  x = w.x + 1;
  pixel_x = w.pixel_x + 1;
  line = put w.line w.x (color w.pixel_x);
}

pub draw_tile-line :
    (rounds : ℕ) (color spec : ℕ → Color) (w : Walk) (j : ℕ)
    → w.pixel_x ≤ 8
    → 8 ≤ w.pixel_x + rounds
    → Shows color spec w.pixel_x w.x
    → (draw_tile rounds color w).line j ≡ filled w.x (w.x + (8 - w.pixel_x)) spec w.line j
unfolding draw_tile
draw_tile-line zero color spec w j full h shows = ground arith
draw_tile-line (suc rounds) color spec w j full h shows = elim (Bool-cases (ltb w.pixel_x 8)) [
  | inl more ↦
      let rest =
        draw_tile-line rounds color spec (drawn color w) j (ground arith) (omega (arith, h))
          (λ p c e a b. shows p c (omega (arith, e)) (omega (arith, a)) b) in
      let here : color w.pixel_x ≡ spec w.x =
        shows w.pixel_x w.x (omega arith) (omega arith) (ground arith) in
      ground (arith, rest, here, h)
  | inr last ↦ ground arith
]

pub draw_tile-x :
    (rounds : ℕ) (color : ℕ → Color) (w : Walk)
    → w.pixel_x ≤ 8
    → 8 ≤ w.pixel_x + rounds
    → w.x ≤ 240
    → (draw_tile rounds color w).x
      ≡ (if ltb (w.x + (8 - w.pixel_x)) 240 then w.x + (8 - w.pixel_x) else 240)
unfolding draw_tile
draw_tile-x zero color w full h b = ground arith
draw_tile-x (suc rounds) color w full h b = ground (arith, draw_tile-x rounds color (drawn color w))

pub draw_tile-kept :
    (rounds : ℕ) (color : ℕ → Color) (w : Walk)
    → ((draw_tile rounds color w).tile_x ≡ w.tile_x) × ((draw_tile rounds color w).index ≡ w.index)
unfolding draw_tile
draw_tile-kept zero color w = ground arith
draw_tile-kept (suc rounds) color w = ground (arith, draw_tile-kept rounds color (drawn color w))
