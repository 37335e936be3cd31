-- ===== src/Display/Window.antt =====
-- What the registers of the display keep: src/io/display/registers.cc.
use matar.Base.{
  ℕ, ◌-◌, ◌*◌, ◌/◌, ◌%◌, ◌^◌, ◌≤◌, ◌<◌, ◌≡◌, refl, ◌∙◌, arith, ◌⊎◌, bit_or, bit_and, bit_or_join,
  bit_and_low,
}
use matar.Bits.{bit_range}
use matar.Display.{Display, Vec2, lcd_width, lcd_height}
use matar.Display.Blend as Blend
use matar.Display.Registers.{far_edge, read_halfword, write_halfword}

-- A window from its near corner to its far one is inside a screen: the far edges are on it, and
-- behind the near ones unless they are the edges of the screen.
pub record IsOnScreen (near far : Vec2) : Type 0 where
  pub width : far.x ≤ lcd_width
  pub height : far.y ≤ lcd_height
  pub across : (near.x ≤ far.x) ⊎ (far.x ≡ lcd_width)
  pub down : (near.y ≤ far.y) ⊎ (far.y ≡ lcd_height)

far_edge-le : (limit h : ℕ) → far_edge limit h ≤ limit
unfolding far_edge
far_edge-le limit h = ground arith

far_edge-near :
    (limit h : ℕ) → (bit_range 16 h 8 15 ≤ far_edge limit h) ⊎ (far_edge limit h ≡ limit)
unfolding far_edge
far_edge-near limit h = ground arith

-- Whatever is written to WIN0H and WIN0V, window 0 is on the screen; so is window 1 after WIN1H and WIN1V.
pub write_halfword-IsOnScreen :
    (h v : ℕ) (d : Display)
    → IsOnScreen
        (write_halfword 0x4000044 v (write_halfword 0x4000040 h d)).win0_top_left
        (write_halfword 0x4000044 v (write_halfword 0x4000040 h d)).win0_bot_right
      × IsOnScreen
          (write_halfword 0x4000046 v (write_halfword 0x4000042 h d)).win1_top_left
          (write_halfword 0x4000046 v (write_halfword 0x4000042 h d)).win1_bot_right
unfolding write_halfword
write_halfword-IsOnScreen h v d = (on_screen, on_screen)
  where
    on_screen :
        IsOnScreen
          (record { x = bit_range 16 h 8 15; y = bit_range 16 v 8 15 })
          (record { x = far_edge lcd_width h; y = far_edge lcd_height v })
    on_screen = record {
      width = far_edge-le lcd_width h;
      height = far_edge-le lcd_height v;
      across = far_edge-near lcd_width h;
      down = far_edge-near lcd_height v;
    }

-- A write to BLDCNT keeps no first target: the upper byte reads back as zero.
pub read_halfword-blend :
    (h : ℕ) (d : Display)
    → h < 2 ^ 16
    → read_halfword 0x4000050 (write_halfword 0x4000050 h d) ≡ h % 2 ^ 8
unfolding read_halfword write_halfword Blend.read Blend.write
read_halfword-blend h d b =
    let lost : bit_and (h * 2 ^ 8) (2 ^ 8 - 1) ≡ 0 = bit_and_low 8 (h * 2 ^ 8) ∙ omega arith in
    let kept : bit_and h (2 ^ 8 - 1) ≡ h % 2 ^ 8 = bit_and_low 8 h in
    rw (lost, kept) (bit_or_join 8 0 (h % 2 ^ 8) (omega arith) ∙ omega arith)

window_masks : (h : ℕ) → h < 2 ^ 16 → bit_or (bit_range 16 h 8 15 * 2 ^ 8) (bit_range 16 h 0 7) ≡ h
unfolding bit_range
window_masks h b =
    let near : h * 2 ^ 0 % 2 ^ 16 / 2 ^ 8 ≡ h / 2 ^ 8 = omega arith in
    let far : h * 2 ^ 8 % 2 ^ 16 / 2 ^ 8 ≡ h % 2 ^ 8 = omega arith in
    rw (near, far) (bit_or_join 8 (h / 2 ^ 8) (h % 2 ^ 8) (omega arith) ∙ omega arith)

-- The control registers of the screen, the backgrounds, the windows and the alpha read back what was written.
pub read_halfword-written :
    (h : ℕ) (d : Display)
    → h < 2 ^ 16
    → (read_halfword 0x4000000 (write_halfword 0x4000000 h d) ≡ h)
      × (read_halfword 0x4000004 (write_halfword 0x4000004 h d) ≡ h)
      × (read_halfword 0x4000008 (write_halfword 0x4000008 h d) ≡ h)
      × (read_halfword 0x400000A (write_halfword 0x400000A h d) ≡ h)
      × (read_halfword 0x400000C (write_halfword 0x400000C h d) ≡ h)
      × (read_halfword 0x400000E (write_halfword 0x400000E h d) ≡ h)
      × (read_halfword 0x4000048 (write_halfword 0x4000048 h d) ≡ h)
      × (read_halfword 0x400004A (write_halfword 0x400004A h d) ≡ h)
      × (read_halfword 0x4000052 (write_halfword 0x4000052 h d) ≡ h)
unfolding read_halfword write_halfword
read_halfword-written h d b =
    (refl, refl, refl, refl, refl, refl, window_masks h b, window_masks h b, refl)
