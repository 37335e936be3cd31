-- ===== src/Display/Render/Line/Layers.antt =====
-- The layers that render_line of src/io/display/display.cc draws: the lines of the scanline buffers for each
-- mode.
use matar.Base.{
  ℕ, ◌<◌, ◌≡◌, refl, Bool, true, false, ◌&&◌, ◌||◌, ◌==◌, if◌then◌else◌, field, List, [], ◌∷◌,
  arith, ==_iff, ==_same, if_cases,
}
use mathlib.Core.List.{◌++◌}
use matar.Display.{Display}
use matar.Display.Color.{Color}
use matar.Display.Compose.{enable_bg, push_if, backgrounds, read_color_index, fetch_color}
use matar.Display.Render.{store_line}
use matar.Display.Render.Pixels.{draw_line-pixel}
use matar.Display.Render.Bitmap.{bitmap_pixel, render_bitmap_mode_line}
use matar.Display.Render.Text.{render_text_layer_line, text_color, screen_pos, screen_index}
use matar.Display.Render.Text.Columns.{text_texel, text_line-texel}
use matar.Display.Render.RotScale.{
  render_rot_scale_layer_line, rot_scale_pixel, rot_scale_color, area_size,
}
use matar.Display.Render.Line.{text_when_on, rot_scale_when_on, bitmap_when_on, render_backgrounds}

-- What a background that is on has at a column, by the mode.
unfoldable pub layer_texel : Display → ℕ → ℕ → Color
layer_texel d c bg =
    let mode = field 0 3 d.lcd_control in
    if mode == 0
    then text_texel bg d c
    else if mode == 1
    then (if bg == 2 then rot_scale_pixel 2 d c else text_texel bg d c)
    else if mode == 2
    then rot_scale_pixel bg d c
    else bitmap_pixel mode d c

abbrev with_lines : (ℕ → ℕ → Color) → Display → Display
with_lines s d = record d { scanline_buffers = s }

text_texel-with_lines :
    (s : ℕ → ℕ → Color) (d : Display) (bg c : ℕ)
    → text_texel bg (with_lines s d) c ≡ text_texel bg d c
unfolding text_texel text_color screen_pos screen_index read_color_index fetch_color
text_texel-with_lines s d bg c = refl

rot_scale_pixel-with_lines :
    (s : ℕ → ℕ → Color) (d : Display) (bg c : ℕ)
    → rot_scale_pixel bg (with_lines s d) c ≡ rot_scale_pixel bg d c
unfolding rot_scale_pixel rot_scale_color area_size read_color_index fetch_color
rot_scale_pixel-with_lines s d bg c = refl

-- Each drawing of a layer sets its line, if it is on, and leaves the others.
module _ (d : Display) (b c : ℕ) (h : c < 240) (s : ℕ → ℕ → Color) where
  text_when_on-line :
      (bg : ℕ)
      → (text_when_on bg (with_lines s d)).scanline_buffers b c
        ≡ (if (b == bg) && enable_bg bg d then text_texel bg d c else s b c)
  unfolding text_when_on render_text_layer_line store_line enable_bg
  text_when_on-line bg =
      ground (arith, text_line-texel bg (with_lines s d) c, text_texel-with_lines s d bg c)

  rot_scale_when_on-line :
      (bg : ℕ)
      → (rot_scale_when_on bg (with_lines s d)).scanline_buffers b c
        ≡ (if (b == bg) && enable_bg bg d then rot_scale_pixel bg d c else s b c)
  unfolding rot_scale_when_on render_rot_scale_layer_line store_line enable_bg
  rot_scale_when_on-line bg = ground (
    arith,
    draw_line-pixel 240 (rot_scale_pixel bg (with_lines s d)) (s bg) c,
    rot_scale_pixel-with_lines s d bg c,
  )

  bitmap_when_on-line :
      (mode : ℕ)
      → (bitmap_when_on mode d).scanline_buffers b c
        ≡ (if (b == 2) && enable_bg 2 d then bitmap_pixel mode d c else d.scanline_buffers b c)
  unfolding bitmap_when_on render_bitmap_mode_line store_line enable_bg
  bitmap_when_on-line mode =
      ground (arith, draw_line-pixel 240 (bitmap_pixel mode d) (d.scanline_buffers 2) c)

abbrev pub lines_of : Display → ℕ → ℕ → Color
lines_of d = d.scanline_buffers

abbrev pub All {ℓ} : {A : Type ℓ} → (A → Type 0) → List A → Type 0
All P [] = Unit {0}
All P (x ∷ xs) = P x × All P xs

All-push_if :
    (P : ℕ → Type 0) (on : Bool) (bg : ℕ) (rest : List ℕ)
    → (on ≡ true → P bg)
    → All P rest
    → All P (push_if on bg ++ rest)
unfolding push_if
All-push_if P true bg rest p others = (p refl, others)
All-push_if P false bg rest p others = others

All-push_last : (P : ℕ → Type 0) (on : Bool) (bg : ℕ) → (on ≡ true → P bg) → All P (push_if on bg)
unfolding push_if
All-push_last P true bg p = (p refl, tt)
All-push_last P false bg p = tt

module _ (d : Display) (c : ℕ) (h : c < 240) where
  abbrev pub Draws : ℕ → Type 0
  Draws b = lines_of (render_backgrounds d) b c ≡ layer_texel d c b

  abbrev ModeIs : ℕ → Type 0
  ModeIs m = (field 0 3 d.lcd_control == m) ≡ true

  abbrev s0 : ℕ → ℕ → Color
  s0 = lines_of (text_when_on 0 d)

  abbrev s1 : ℕ → ℕ → Color
  s1 = lines_of (text_when_on 1 (with_lines s0 d))

  abbrev s2 : ℕ → ℕ → Color
  s2 = lines_of (text_when_on 2 (with_lines s1 d))

  abbrev r2 : (ℕ → ℕ → Color) → ℕ → ℕ → Color
  r2 s = lines_of (rot_scale_when_on 2 (with_lines s d))

  -- The backgrounds of the modes 0, 1 and 2, one after the other.
  mode_lem : (m : ℕ) → ModeIs m → field 0 3 d.lcd_control ≡ m
  mode_lem m e = (==_iff (field 0 3 d.lcd_control) m).0 e

  text_layers :
      (b : ℕ)
      → b < 4
      → enable_bg b d ≡ true
      → lines_of (text_when_on 3 (with_lines s2 d)) b c ≡ text_texel b d c
  text_layers b lt on =
      let l0 = text_when_on-line d b c h d.scanline_buffers 0 in
      let l1 = text_when_on-line d b c h s0 1 in
      let l2 = text_when_on-line d b c h s1 2 in
      let l3 = text_when_on-line d b c h s2 3 in rw l3 (ground (arith, l0, l1, l2, on))

  mixed_layers :
      (b : ℕ)
      → b < 3
      → enable_bg b d ≡ true
      → r2 s1 b c ≡ (if b == 2 then rot_scale_pixel 2 d c else text_texel b d c)
  mixed_layers b lt on =
      let l0 = text_when_on-line d b c h d.scanline_buffers 0 in
      let l1 = text_when_on-line d b c h s0 1 in
      rw (rot_scale_when_on-line d b c h s1 2) (ground (arith, l0, l1, on))

  rot_scale_layers :
      (b : ℕ)
      → (b == 2) || (b == 3) ≡ true
      → enable_bg b d ≡ true
      → lines_of (rot_scale_when_on 3 (with_lines (r2 d.scanline_buffers) d)) b c
        ≡ rot_scale_pixel b d c
  rot_scale_layers b which on =
      let l2 = rot_scale_when_on-line d b c h d.scanline_buffers 2 in
      rw (rot_scale_when_on-line d b c h (r2 d.scanline_buffers) 3) (ground (arith, l2, on, which))

  text_modes : (b : ℕ) → ModeIs 0 → b < 4 → enable_bg b d ≡ true → Draws b
  unfolding render_backgrounds text_when_on layer_texel
  text_modes b m lt on = rw (mode_lem 0 m) (text_layers b lt on)

  mixed_modes : (b : ℕ) → ModeIs 1 → b < 3 → enable_bg b d ≡ true → Draws b
  unfolding render_backgrounds text_when_on rot_scale_when_on layer_texel
  mixed_modes b m lt on = rw (mode_lem 1 m) (mixed_layers b lt on)

  rot_scale_modes :
      (b : ℕ) → ModeIs 2 → (b == 2) || (b == 3) ≡ true → enable_bg b d ≡ true → Draws b
  unfolding render_backgrounds rot_scale_when_on layer_texel
  rot_scale_modes b m which on = rw (mode_lem 2 m) (rot_scale_layers b which on)

  bitmap_modes :
      (mode : ℕ)
      → ModeIs mode
      → (mode == 3) || (mode == 4) || (mode == 5) ≡ true
      → enable_bg 2 d ≡ true
      → Draws 2
  unfolding render_backgrounds layer_texel
  bitmap_modes mode m which on =
      let lines = d.scanline_buffers in
      let l3 = bitmap_when_on-line d 2 c h lines 3 in
      let l4 = bitmap_when_on-line d 2 c h lines 4 in
      let l5 = bitmap_when_on-line d 2 c h lines 5 in
      rw (mode_lem mode m) (ground (arith, l3, l4, l5, which, on))

  -- Every background of the list has been drawn at every column.
  pub backgrounds-Draws : All Draws (backgrounds d)
  unfolding backgrounds
  backgrounds-Draws =
      let mode = field 0 3 d.lcd_control in
      let on = λ (bg : ℕ). enable_bg bg d in
      let L = All Draws in
      if_cases L (mode == 0) _ _
        (λ m. All-push_if Draws (on 0) 0 _ (text_modes 0 m (omega arith)) (
          All-push_if Draws (on 1) 1 _ (text_modes 1 m (omega arith)) (
            All-push_if Draws (on 2) 2 _ (text_modes 2 m (omega arith))
              (All-push_last Draws (on 3) 3 (text_modes 3 m (omega arith))))))
        (λ not0.
          if_cases L (mode == 1) _ _
            (λ m. All-push_if Draws (on 0) 0 _ (mixed_modes 0 m (omega arith)) (
              All-push_if Draws (on 1) 1 _ (mixed_modes 1 m (omega arith))
                (All-push_last Draws (on 2) 2 (mixed_modes 2 m (omega arith)))))
            (λ not1.
              if_cases L (mode == 2) _ _
                (λ m.
                  All-push_if Draws (on 2) 2 _ (rot_scale_modes 2 m refl)
                    (All-push_last Draws (on 3) 3 (rot_scale_modes 3 m refl)))
                (λ not2.
                  if_cases L ((mode == 3) || (mode == 4) || (mode == 5)) _ _
                    (λ m. All-push_last Draws (on 2) 2 (bitmap_modes mode (==_same mode) m))
                    (λ none. tt))))
