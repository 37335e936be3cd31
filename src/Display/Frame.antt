-- ===== src/Display/Frame.antt =====
-- The line counter over the lines and frames of src/io/display/display.cc.
use matar.Base.{ℕ, zero, suc, ◌+◌, ◌%◌, ◌<◌, ◌≡◌, leb, arith, flag}
use matar.Dma.{Dma}
use matar.Display.Render.Line.{render_line}
use matar.Display.Timing.{
  Screen, hblank_begin, hblank_end, begin_line, match_line, advance_lines, vblank_begin, vblank_end,
  raise_when, schedule, notify_dma, draw, set_status,
}

-- The end of a line counts the lines of a frame around.
pub vertical_counter-hblank_end :
    (at : ℕ) (dma : Dma) (s : Screen)
    → s.display.vertical_counter < 228
    → (hblank_end at dma s).display.vertical_counter ≡ (s.display.vertical_counter + 1) % 228
unfolding hblank_end begin_line match_line advance_lines vblank_begin vblank_end draw render_line
    raise_when schedule notify_dma
vertical_counter-hblank_end at dma s h = ground arith

-- A line of 1232 cycles from the beginning of its blank at a time, and a number of such lines.
pub line : ℕ → Dma → Screen → Screen
line at dma s = hblank_end (at + 226) dma (hblank_begin at dma s)

pub lines : ℕ → ℕ → Dma → Screen → Screen
lines zero at dma s = s
lines (suc n) at dma s = lines n (at + 1232) dma (line at dma s)

vertical_counter-hblank_begin :
    (at : ℕ) (dma : Dma) (s : Screen)
    → (hblank_begin at dma s).display.vertical_counter ≡ s.display.vertical_counter
unfolding hblank_begin schedule notify_dma raise_when set_status
vertical_counter-hblank_begin at dma s = ground arith

vertical_counter-line :
    (at : ℕ) (dma : Dma) (s : Screen)
    → s.display.vertical_counter < 228
    → (line at dma s).display.vertical_counter ≡ (s.display.vertical_counter + 1) % 228
unfolding line
vertical_counter-line at dma s h =
    let kept = vertical_counter-hblank_begin at dma s in
    let counted =
      vertical_counter-hblank_end (at + 226) dma (hblank_begin at dma s) (omega (arith, kept)) in
    omega (arith, kept, counted)

-- From a line of the frame, the counter is after any number of lines that number on, around the 228 lines of a frame.
pub vertical_counter-lines :
    (n at : ℕ) (dma : Dma) (s : Screen)
    → s.display.vertical_counter < 228
    → (lines n at dma s).display.vertical_counter ≡ (s.display.vertical_counter + n) % 228
unfolding lines
vertical_counter-lines zero at dma s h = omega arith
vertical_counter-lines (suc n) at dma s h =
    let once = vertical_counter-line at dma s h in
    let others = vertical_counter-lines n (at + 1232) dma (line at dma s) (omega (arith, once)) in
    omega (arith, once, others)

-- The status tells the blank: its lowest bit is set on lines 160 to 227, and no line is beyond.
pub record IsInFrame (s : Screen) : Type 0 where
  pub in_frame : s.display.vertical_counter < 228
  pub blank : flag 0 s.display.lcd_status ≡ leb 160 s.display.vertical_counter

hblank_begin-IsInFrame :
    (at : ℕ) (dma : Dma) (s : Screen) → IsInFrame s → IsInFrame (hblank_begin at dma s)
unfolding hblank_begin schedule notify_dma raise_when set_status
hblank_begin-IsInFrame at dma s i = ground (arith, i.in_frame, i.blank)

hblank_end-IsInFrame :
    (at : ℕ) (dma : Dma) (s : Screen) → IsInFrame s → IsInFrame (hblank_end at dma s)
unfolding hblank_end begin_line match_line advance_lines vblank_begin vblank_end draw render_line
    raise_when schedule notify_dma
hblank_end-IsInFrame at dma s i = ground (arith, i.in_frame, i.blank)

-- If the status tells the blank and the line is in the frame, both hold after any number of lines.
pub lines-IsInFrame :
    (n at : ℕ) (dma : Dma) (s : Screen) → IsInFrame s → IsInFrame (lines n at dma s)
unfolding lines line
lines-IsInFrame zero at dma s i = i
lines-IsInFrame (suc n) at dma s i = lines-IsInFrame n (at + 1232) dma (line at dma s) (
    hblank_end-IsInFrame (at + 226) dma (hblank_begin at dma s) (hblank_begin-IsInFrame at dma s i))
