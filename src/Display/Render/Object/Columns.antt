-- ===== src/Display/Render/Object/Columns.antt =====
-- The loop of render_one_object of src/io/display/render.cc over its columns: the pixels it leaves.
use matar.Base.{
  ℕ, zero, suc, ◌+◌, ◌^◌, ◌<◌, ◌≤◌, ◌≡◌, refl, Bool, true, false, ◌&&◌, ◌||◌, ◌==◌, ltb,
  if◌then◌else◌, arith, inl, inr, Bool-cases, ==_iff, u32, sub32,
}
use matar.Display.{Display}
use matar.Display.Render.Object.{
  OamAttributes, ObjectBuffer, read_oam_attributes, draw_columns, draw_column, put_pixel, int_lt,
  object_pos, object_size, display_size, choose_size, is_drawn, render_one_object, widen9,
}

-- The columns that a loop of some rounds reaches from a column.
abbrev reaches : ℕ → ℕ → ℕ → Bool
reaches rounds x c = ltb (sub32 c x) rounds

abbrev IsNear : ℕ → ℕ → Type 0
IsNear rounds x = u32 (x + 1024) + rounds ≤ 2048

IsNear-next : (rounds x : ℕ) → x < 2 ^ 32 → IsNear (suc rounds) x → IsNear rounds (u32 (x + 1))
IsNear-next rounds x hx near = omega arith

reaches-next :
    (rounds x c : ℕ)
    → c < 240
    → x < 2 ^ 32
    → IsNear (suc rounds) x
    → reaches (suc rounds) x c ≡ (c == x) || reaches rounds (u32 (x + 1)) c
reaches-next rounds x c hc hx near = ground (arith, near)

reaches-here :
    (rounds x : ℕ) → x < 2 ^ 32 → IsNear (suc rounds) x → reaches rounds (u32 (x + 1)) x ≡ false
reaches-here rounds x hx near = ground (arith, near)

reaches-over :
    (rounds x c : ℕ)
    → c < 240
    → x < 2 ^ 32
    → IsNear rounds x
    → int_lt x 240 ≡ false
    → reaches rounds x c ≡ false
unfolding int_lt
reaches-over rounds x c hc hx near over = ground (arith, near, over)

module _ (o : OamAttributes) (d : Display) where
  abbrev line : ℕ
  line = d.vertical_counter

  -- One column of the loop.
  abbrev step : ℕ → ObjectBuffer → ObjectBuffer
  step x buffer =
      if int_lt x 0 then buffer else put_pixel x line (draw_column o d x (buffer x line)) buffer

  step-pixel :
      (x : ℕ) (buffer : ObjectBuffer) (c y : ℕ)
      → c < 240
      → x < 2 ^ 32
      → step x buffer c y
        ≡ (if (y == line) && (c == x) then draw_column o d c (buffer c y) else buffer c y)
  unfolding put_pixel int_lt
  step-pixel x buffer c y hc hx = elim (Bool-cases (c == x)) [
    | inl same ↦ ground (arith, hx)
    | inr other ↦ ground (arith, hx)
  ]

  draw_columns-done :
      (rounds x : ℕ) (buffer : ObjectBuffer)
      → int_lt x 240 ≡ false
      → draw_columns (suc rounds) o d x buffer ≡ buffer
  unfolding draw_columns
  draw_columns-done rounds x buffer h = ground (arith, h)

  draw_columns-more :
      (rounds x : ℕ) (buffer : ObjectBuffer)
      → int_lt x 240 ≡ true
      → draw_columns (suc rounds) o d x buffer
        ≡ draw_columns rounds o d (u32 (x + 1)) (step x buffer)
  unfolding draw_columns
  draw_columns-more rounds x buffer h = ground (arith, h)

  draw_columns-none : (x : ℕ) (buffer : ObjectBuffer) → draw_columns 0 o d x buffer ≡ buffer
  unfolding draw_columns
  draw_columns-none x buffer = refl

  -- Where the columns stay clear of the ends of `int`, each is drawn once.
  draw_columns-pixel :
      (rounds x : ℕ) (buffer : ObjectBuffer) (c y : ℕ)
      → c < 240
      → x < 2 ^ 32
      → IsNear rounds x
      → draw_columns rounds o d x buffer c y
        ≡ (if (y == line) && reaches rounds x c then draw_column o d c (buffer c y) else buffer c y)
  draw_columns-pixel zero x buffer c y hc hx near = rw (draw_columns-none x buffer) (ground arith)
  draw_columns-pixel (suc rounds) x buffer c y hc hx near = elim (Bool-cases (int_lt x 240)) [
    | inl more ↦
        let rest =
          draw_columns-pixel rounds (u32 (x + 1)) (step x buffer) c y hc (omega arith)
            (IsNear-next rounds x hx near) in
        let one = step-pixel x buffer c y hc hx in
        let here = reaches-here rounds x hx near in
        rw (draw_columns-more rounds x buffer more, reaches-next rounds x c hc hx near)
          (elim (Bool-cases (c == x)) [
            | inl same ↦
                let gone : reaches rounds (u32 (x + 1)) c ≡ false = rw ((==_iff c x).0 same) here in
                rw (rest, gone, one, same) (ground arith)
            | inr other ↦ rw (rest, one, other) (ground arith)
          ])
    | inr over ↦
        rw (draw_columns-done rounds x buffer over, reaches-over (suc rounds) x c hc hx near over)
          (ground arith)
  ]

object_pos-lt : (o : OamAttributes) → (object_pos o).x < 2 ^ 32
unfolding object_pos widen9 int_lt
object_pos-lt o = ground arith

display_size-le : (o : OamAttributes) → (display_size o).x ≤ 128
unfolding display_size object_size choose_size
display_size-le o = ground arith

object_pos-near : (o : OamAttributes) → u32 ((object_pos o).x + 1024) ≤ 1920
unfolding object_pos widen9 int_lt
object_pos-near o = ground arith

-- Whether an object is drawn at a pixel.
abbrev pub covers : ℕ → Display → ℕ → ℕ → Bool
covers i d c y =
    let o = read_oam_attributes i d in
    is_drawn o d && ((y == d.vertical_counter) && ltb (sub32 c (object_pos o).x) (display_size o).x)

-- An object draws the columns of the current line that it covers, and no other pixel of the screen.
pub render_one_object-pixel :
    (i : ℕ) (d : Display) (buffer : ObjectBuffer) (c y : ℕ)
    → c < 240
    → render_one_object i d buffer c y ≡ (
        if covers i d c y
        then draw_column (read_oam_attributes i d) d c (buffer c y)
        else buffer c y)
unfolding render_one_object
render_one_object-pixel i d buffer c y h =
    let o = read_oam_attributes i d in
    let drawn =
      draw_columns-pixel o d (display_size o).x (object_pos o).x buffer c y h (object_pos-lt o)
        (omega (arith, object_pos-near o, display_size-le o)) in
    ground (arith, drawn)
