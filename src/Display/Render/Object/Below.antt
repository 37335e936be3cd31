-- ===== src/Display/Render/Object/Below.antt =====
-- The objects of src/io/display/render.cc in the lower part of the screen.
use matar.Base.{ℕ, ◌+◌, ◌-◌, ◌^◌, ◌<◌, ◌≤◌, ◌≡◌, refl, true, false, not, ◌&&◌, field, arith, u32}
use matar.Display.{Display}
use matar.Display.Render.Object.{
  OamAttributes, ObjectBuffer, read_oam_attributes, rot_scale_flag, double_size_or_obj_disable,
  object_pos, object_size, choose_size, display_size, int_lt, widen8, is_drawn, render_one_object,
}

object_pos-below :
    (o : OamAttributes)
    → 128 ≤ field 0 8 o.attr0
    → (object_pos o).y ≡ field 0 8 o.attr0 + 2 ^ 32 - 2 ^ 8
unfolding object_pos widen8 int_lt
object_pos-below o h = ground (arith, h)

display_size-single :
    (o : OamAttributes)
    → rot_scale_flag o && double_size_or_obj_disable o ≡ false
    → (display_size o).y ≤ 64
unfolding display_size object_size choose_size
display_size-single o h = ground (arith, h)

is_drawn-below :
    (o : OamAttributes) (d : Display)
    → d.vertical_counter < 160
    → 128 ≤ field 0 8 o.attr0
    → field 0 8 o.attr0 < 160
    → rot_scale_flag o && double_size_or_obj_disable o ≡ false
    → is_drawn o d ≡ false
unfolding is_drawn int_lt
is_drawn-below o d hy low high single =
    let pos = object_pos-below o low in
    let size = display_size-single o single in
    let past : not (int_lt d.vertical_counter (u32 ((object_pos o).y + (display_size o).y)))
        ≡ true =
      rw pos (ground (arith, size, hy, high)) in
    ground (arith, past)

-- An object of single size whose position is one of the lines 128 to 159 is not drawn on any line of the screen.
pub render_one_object-below :
    (i : ℕ) (d : Display) (buffer : ObjectBuffer)
    → d.vertical_counter < 160
    → 128 ≤ field 0 8 (read_oam_attributes i d).attr0
    → field 0 8 (read_oam_attributes i d).attr0 < 160
    → rot_scale_flag (read_oam_attributes i d)
        && double_size_or_obj_disable (read_oam_attributes i d)
      ≡ false
    → render_one_object i d buffer ≡ buffer
unfolding render_one_object
render_one_object-below i d buffer hy low high single =
    rw (is_drawn-below (read_oam_attributes i d) d hy low high single) refl
