-- ===== src/Display/Render/Pixels.antt =====
-- The pixels that a drawn line has: the loops of src/io/display/render.cc over a line.
use matar.Base.{ℕ, zero, suc, ◌≡◌, ltb, if◌then◌else◌, arith}
use matar.Display.Color.{Color}
use matar.Display.Render.{draw_line}

-- A loop over the pixels of a line writes each of them once.
pub draw_line-pixel :
    (n : ℕ) (pixel line : ℕ → Color) (j : ℕ)
    → draw_line n pixel line j ≡ (if ltb j n then pixel j else line j)
unfolding draw_line
draw_line-pixel zero pixel line j = ground arith
draw_line-pixel (suc n) pixel line j = ground (arith, draw_line-pixel n pixel line j)
