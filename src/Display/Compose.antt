-- ===== src/Display/Compose.antt =====
-- One pixel of a line: the end of Display::render_line of src/io/display/display.cc, from the colours that
-- the layers and the objects have there.
pub mod Front
use matar.Base.{
  ℕ, ◌+◌, ◌-◌, ◌*◌, ◌/◌, ◌%◌, ◌^◌, Bool, true, false, not, ◌&&◌, ◌||◌, List, [], ◌∷◌, ◌==◌, ltb,
  leb, if◌then◌else◌, min, flag, field,
}
use mathlib.Core.List.{◌++◌}
use matar.Memory as Memory
use matar.Display.{Display}
use matar.Display.Color.{Color, ObjectPixel, of_raw, raw, blend, transparent_rgb555}

pub record Pixel : Type 0 where
  pub color : Color
  pub priority : ℕ
  pub blends : Bool

-- What has been rendered for the pixel: the colour of each background, and of the objects.
pub record Rendered : Type 0 where
  pub scanline : ℕ → Color
  pub object : ObjectPixel

unfoldable pub enable_bg : ℕ → Display → Bool
enable_bg bg d = flag (8 + bg) d.lcd_control

unfoldable pub push_if : Bool → ℕ → List ℕ
push_if on bg = if on then bg ∷ [] else []

-- The backgrounds of a mode that are on, from the lowest number.
unfoldable pub backgrounds : Display → List ℕ
backgrounds d =
    let mode = field 0 3 d.lcd_control in
    let on = λ (bg : ℕ). push_if (enable_bg bg d) bg in
    if mode == 0
    then on 0 ++ (on 1 ++ (on 2 ++ on 3))
    else if mode == 1
    then on 0 ++ (on 1 ++ on 2)
    else if mode == 2
    then on 2 ++ on 3
    else if (mode == 3) || (mode == 4) || (mode == 5)
    then on 2
    else []

unfoldable pub bg_priority : Display → ℕ → ℕ
bg_priority d bg = field 0 2 (d.bg_control bg)

-- `std::ranges::stable_sort` of the standard library, by the priorities.
unfoldable pub insert_layer : Display → ℕ → List ℕ → List ℕ
insert_layer d bg [] = bg ∷ []
insert_layer d bg (x ∷ rest) =
    let later = insert_layer d bg rest in
    if leb (bg_priority d bg) (bg_priority d x) then bg ∷ x ∷ rest else x ∷ later

unfoldable pub sort_layers : Display → List ℕ → List ℕ
sort_layers d [] = []
sort_layers d (bg ∷ rest) = insert_layer d bg (sort_layers d rest)

unfoldable pub in_window : ℕ → ℕ → ℕ → Bool
in_window near far at = leb near at && ltb at far

-- The window control that holds at a pixel.
unfoldable pub window_at : Display → ObjectPixel → ℕ → ℕ → ℕ
window_at d object x y =
    let on0 = flag 13 d.lcd_control in
    let on1 = flag 14 d.lcd_control in
    let on_obj = flag 15 d.lcd_control in
    let y_in_win0 = in_window d.win0_top_left.y d.win0_bot_right.y y && on0 in
    let y_in_win1 = in_window d.win1_top_left.y d.win1_bot_right.y y && on1 in
    if not on0 && not on1 && not on_obj
    then 0xFF
    else if y_in_win0 && in_window d.win0_top_left.x d.win0_bot_right.x x
    then d.win0
    else if y_in_win1 && in_window d.win1_top_left.x d.win1_bot_right.x x
    then d.win1
    else if on_obj && object.is_window
    then d.win_obj
    else d.win_out

-- The targets of the blend control: bits 0 to 3 for the backgrounds, 4 the objects, 5 the backdrop.
abbrev pub target : Bool → Display → ℕ
target true d = d.blend_control.top
target false d = d.blend_control.bottom

unfoldable pub backdrop : Bool → Display → Pixel
backdrop is_top d = record {
  color = of_raw (Memory.read_halfword 0 d.pram);
  priority = 4;
  blends = flag 5 (target is_top d);
}

unfoldable pub layer_pixel : Bool → Display → Rendered → ℕ → Pixel
layer_pixel is_top d r bg = record {
  color = r.scanline bg;
  priority = bg_priority d bg;
  blends = flag bg (target is_top d);
}

unfoldable pub is_visible : ℕ → Rendered → ℕ → Bool
is_visible window r bg =
    (field 0 4 window / 2 ^ bg % 2 == 1) && not (raw (r.scanline bg) == transparent_rgb555)

-- The loop over the backgrounds, which ends at the second that is visible.
unfoldable pub pick_layers : ℕ → Display → Rendered → List ℕ → Bool → Pixel → Pixel → Pixel × Pixel
pick_layers window d r [] top_found top bottom = (top, bottom)
pick_layers window d r (bg ∷ rest) top_found top bottom =
    let hidden = pick_layers window d r rest top_found top bottom in
    let first = pick_layers window d r rest true (layer_pixel true d r bg) bottom in
    if not (is_visible window r bg)
    then hidden
    else if not top_found
    then first
    else (top, layer_pixel false d r bg)

abbrev pub object_pixel : Bool → Display → ObjectPixel → Pixel
object_pixel is_top d o = record {
  color = o.color;
  priority = o.priority;
  blends = flag 4 (target is_top d);
}

-- The two pixels in front once the object is among them, and whether the object blends by itself.
unfoldable pub place_object : ℕ → Display → ObjectPixel → Pixel × Pixel → Pixel × Pixel × Bool
place_object window d o (top, bottom) =
    if flag 12 d.lcd_control && flag 4 window && not (raw o.color == transparent_rgb555)
    then if leb o.priority top.priority
      then (object_pixel true d o, top, o.is_alpha)
      else if leb o.priority bottom.priority
      then (top, object_pixel false d o, false)
      else (top, bottom, false)
    else (top, bottom, false)

abbrev pub eva : Display → ℕ
eva d = field 0 5 d.alpha_coeff

abbrev pub evb : Display → ℕ
evb d = field 8 5 d.alpha_coeff

-- The special effect on the two pixels in front.
unfoldable pub shade : ℕ → Display → Pixel × Pixel × Bool → ℕ
shade window d (top, bottom, obj_alpha) =
    let sfx = field 6 2 d.blend_control.top in
    let evy = min d.brightness_coeff 16 in
    if flag 5 window && top.blends
    then if obj_alpha && bottom.blends
      then raw (blend top.color bottom.color (eva d) (evb d))
      else if (sfx == 1) && bottom.blends
      then raw (blend top.color bottom.color (min (eva d) 16) (min (evb d) 16))
      else if sfx == 3
      then raw (blend top.color (of_raw 0) (16 - evy) evy)
      else if sfx == 2
      then raw (blend top.color (of_raw 0x7FFF) (16 - evy) evy)
      else raw top.color
    else raw top.color

-- What the frame buffer gets at a pixel of a line that is not blanked by force.
unfoldable pub compose : Display → Rendered → ℕ → ℕ → ℕ
compose d r x y =
    let window = window_at d r.object x y in
    let layers = sort_layers d (backgrounds d) in
    let front = pick_layers window d r layers false (backdrop true d) (backdrop false d) in
    shade window d (place_object window d r.object front)

unfoldable pub read_color_index : ℕ → ℕ → ℕ → Bool → Display → ℕ
read_color_index address x y bpp8 d =
    if bpp8
    then Memory.read_byte (address + (y * 8 + x)) d.vram
    else let pair = Memory.read_byte (address + (y * 8 + x) / 2) d.vram in
      (if x % 2 == 1 then pair / 2 ^ 4 else pair % 2 ^ 4)

unfoldable pub fetch_color : ℕ → ℕ → Bool → Display → Color
fetch_color index bank obj d =
    if (index == 0) || (not (bank == 0) && (index % 16 == 0))
    then of_raw transparent_rgb555
    else of_raw (
        Memory.read_halfword (2 * index + 0x20 * bank + (if obj then 0x200 else 0)) d.pram % 2 ^ 15)
