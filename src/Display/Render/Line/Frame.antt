-- ===== src/Display/Render/Line/Frame.antt =====
-- What render_line of src/io/display/display.cc leaves in the frame buffer: each pixel of the line from the
-- layers and objects at its column.
use matar.Base.{
  ℕ, zero, suc, ◌+◌, ◌-◌, ◌*◌, ◌<◌, ◌≡◌, refl, Bool, true, false, ◌&&◌, ltb, leb, if◌then◌else◌,
  flag, List, [], ◌∷◌, arith, inl, inr, Bool-cases, if_both, ◌∙◌,
}
use matar.Display.{Display}
use matar.Display.Color.{Color, ObjectPixel}
use matar.Display.Compose.{
  Rendered, Pixel, compose, pick_layers, sort_layers, insert_layer, is_visible, layer_pixel,
  bg_priority, backgrounds, window_at,
}
use matar.Display.Render.Object.Front.{shown, render_objects-shown}
use matar.Display.Render.Object.{render_objects_line}
use matar.Display.Render.Line.Layers.{All, layer_texel, backgrounds-Draws, lines_of}
use matar.Display.Render.Line.{render_backgrounds, draw_objects, draw_row, rendered_at, render_line}

module _ (P : ℕ → Type 0) (d : Display) where
  All-insert_layer : (bg : ℕ) (xs : List ℕ) → P bg → All P xs → All P (insert_layer d bg xs)
  unfolding insert_layer
  All-insert_layer bg [] p all = (p, tt)
  All-insert_layer bg (x ∷ rest) p all =
      if_both (All P) (leb (bg_priority d bg) (bg_priority d x)) _ _ (p, (all.0, all.1))
        (all.0, All-insert_layer bg rest p all.1)

  All-sort_layers : (xs : List ℕ) → All P xs → All P (sort_layers d xs)
  unfolding sort_layers
  All-sort_layers [] all = tt
  All-sort_layers (x ∷ rest) all =
      All-insert_layer x (sort_layers d rest) all.0 (All-sort_layers rest all.1)

is_visible-agree :
    (window : ℕ) (r s : Rendered) (bg : ℕ)
    → r.scanline bg ≡ s.scanline bg
    → is_visible window r bg ≡ is_visible window s bg
unfolding is_visible
is_visible-agree window r s bg e = rw e refl

layer_pixel-agree :
    (is_top : Bool) (d : Display) (r s : Rendered) (bg : ℕ)
    → r.scanline bg ≡ s.scanline bg
    → layer_pixel is_top d r bg ≡ layer_pixel is_top d s bg
unfolding layer_pixel
layer_pixel-agree is_top d r s bg e = rw e refl

-- The pixel in front depends only on what the backgrounds of the list have there.
pick_layers-agree :
    (window : ℕ) (d : Display) (r s : Rendered) (xs : List ℕ) (found : Bool) (top bottom : Pixel)
    → All (λ bg. r.scanline bg ≡ s.scanline bg) xs
    → pick_layers window d r xs found top bottom ≡ pick_layers window d s xs found top bottom
unfolding pick_layers
pick_layers-agree window d r s [] found top bottom same = refl
pick_layers-agree window d r s (bg ∷ rest) found top bottom same =
    let visible = is_visible-agree window r s bg same.0 in
    let first = layer_pixel-agree true d r s bg same.0 in
    let second = layer_pixel-agree false d r s bg same.0 in
    let hidden = pick_layers-agree window d r s rest found top bottom same.1 in
    let next = pick_layers-agree window d r s rest true (layer_pixel true d r bg) bottom same.1 in
    rw (visible, hidden, next, first, second) refl

draw_row-pixel :
    (n y : ℕ) (pixel frame : ℕ → ℕ) (i : ℕ)
    → draw_row n y pixel frame i
      ≡ (if leb (y * 240) i && ltb i (n + y * 240) then pixel (i - y * 240) else frame i)
unfolding draw_row
draw_row-pixel zero y pixel frame i = ground arith
draw_row-pixel (suc n) y pixel frame i = ground (arith, draw_row-pixel n y pixel frame i)

-- A pixel of the line, from the layers that show there and the objects on top of what the line had.
pub line_pixel : Display → ℕ → ℕ
line_pixel d c =
    let y = d.vertical_counter in
    let old = d.object_buffer c y in
    compose d
      (record {
        scanline = layer_texel d c;
        object = if flag 12 d.lcd_control then shown 128 d c y old else old;
      })
      c y

compose-agree :
    (d : Display) (f g : ℕ → Color) (object : ObjectPixel) (x y : ℕ)
    → All (λ bg. f bg ≡ g bg) (backgrounds d)
    → compose d (record { scanline = f; object = object }) x y
      ≡ compose d (record { scanline = g; object = object }) x y
unfolding compose
compose-agree d f g object x y same =
    let window = window_at d object x y in
    let sorted = sort_layers d (backgrounds d) in
    let same_sorted = All-sort_layers (λ bg. f bg ≡ g bg) d (backgrounds d) same in
    rw
      (pick_layers-agree window d (record { scanline = f; object = object })
        (record { scanline = g; object = object }) sorted false _ _ same_sorted)
      refl

objects_drawn :
    (d : Display) (c : ℕ)
    → c < 240
    → (draw_objects d).object_buffer c d.vertical_counter ≡ (
        if flag 12 d.lcd_control
        then shown 128 d c d.vertical_counter (d.object_buffer c d.vertical_counter)
        else d.object_buffer c d.vertical_counter)
unfolding draw_objects render_objects_line
objects_drawn d c h =
    ground (arith, render_objects-shown 128 d d.object_buffer c d.vertical_counter h)

composed_line :
    (d : Display) (c : ℕ)
    → c < 240
    → compose d
        (rendered_at
          (lines_of (render_backgrounds d))
          (draw_objects d).object_buffer
          c
          d.vertical_counter)
        c
        d.vertical_counter
      ≡ line_pixel d c
unfolding rendered_at line_pixel
composed_line d c h = rw (objects_drawn d c h) (
    compose-agree d (λ bg. lines_of (render_backgrounds d) bg c) (layer_texel d c) _ c
      d.vertical_counter (backgrounds-Draws d c h))

-- A line that is not blanked by force gets, in each of its 240 places of the frame, the pixel composed of its layers, each as it is at that column, and of the objects; a blanked line is white; and no other place of the frame changes.
pub render_line-frame :
    (d : Display) (i : ℕ)
    → (render_line d).frame_buffer i ≡ (
        if leb (d.vertical_counter * 240) i && ltb i (240 + d.vertical_counter * 240)
        then (if flag 7 d.lcd_control then 0xFFFF else line_pixel d (i - d.vertical_counter * 240))
        else d.frame_buffer i)
unfolding render_line
render_line-frame d i =
    let y = d.vertical_counter in
    let c = i - y * 240 in
    draw_row-pixel 240 y _ d.frame_buffer i
    ∙ elim (Bool-cases (leb (y * 240) i && ltb i (240 + y * 240))) [
      | inl inside ↦ rw (inside, composed_line d c (ground arith)) refl
      | inr outside ↦ rw outside refl
    ]
