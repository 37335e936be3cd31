-- ===== src/Display/Render/Text/Area.antt =====
-- The positions of a line in the area of screens of src/io/display/render.cc: those of one tile, and the
-- step to the next tile.
use matar.Base.{
  ℕ, zero, suc, ◌+◌, ◌-◌, ◌*◌, ◌/◌, ◌%◌, ◌<◌, ◌≤◌, ◌≡◌, refl, ◌||◌, ◌==◌, if◌then◌else◌, arith,
  bit_xor,
}
use matar.Display.{Vec2}
use matar.Display.Render.Text.{screen_pos, screen_index}

abbrev pub area_pos : ℕ → ℕ → ℕ → ℕ → Vec2
area_pos size a y c = screen_pos size (record { x = a + c; y = y })

-- What the loops keep for the column `c`: its pixel in the tile, its tile and its screen.
pub record IsAt (size a y c pixel_x tile_x index : ℕ) : Type 0 where
  pub pixel : (area_pos size a y c).x % 8 ≡ pixel_x
  pub tile : (area_pos size a y c).x % 256 / 8 ≡ tile_x
  pub screen : screen_index size (area_pos size a y c) ≡ index

pub pixel-lt : {size a y c px tx i : ℕ} → IsAt size a y c px tx i → px < 8
pixel-lt at = omega (arith, at.pixel)

pub IsAt-within :
    (size a y x px tx i p c : ℕ)
    → IsAt size a y x px tx i
    → p + x ≡ c + px
    → px ≤ p
    → p < 8
    → IsAt size a y c p tx i
unfolding screen_pos screen_index
IsAt-within size a y x px tx i p c at e lo hi = ground (arith, at.pixel, at.tile, at.screen)

flip : (n : ℕ) → n < 4 → bit_xor n 1 ≡ n + 1 - n % 2 * 2
flip zero h = refl
flip (suc zero) h = refl
flip (suc (suc zero)) h = refl
flip (suc (suc (suc zero))) h = refl
flip (suc (suc (suc (suc n)))) h = absurd (omega arith)

pub IsAt-next :
    (size a y x px tx i : ℕ)
    → size < 4
    → IsAt size a y x px tx i
    → IsAt size a y
        (x + (8 - px))
        0
        (if tx + 1 == 32 then 0 else tx + 1)
        (if tx + 1 == 32 then (if (size == 1) || (size == 3) then bit_xor i 1 else i) else i)
unfolding screen_pos screen_index
IsAt-next size a y x px tx i h at = ground (arith, at.pixel, at.tile, at.screen, flip i)
