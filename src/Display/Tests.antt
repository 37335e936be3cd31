-- ===== src/Display/Tests.antt =====
-- Runs of the display.
use matar.Base.{◌≡◌, refl, true, false, [], ◌∷◌, ◌==◌, if◌then◌else◌, arith}
use matar.Display.Color.{of_raw, raw, reset, transparent_rgb555}
use matar.Display.Compose.{Rendered, backdrop, is_visible, pick_layers}
use matar.Display.Compose.Front.{first_two, visible_layers, pick_layers-first_two}
use matar.Display.Registers.{write_halfword}
use matar.Display.Window.{IsOnScreen, write_halfword-IsOnScreen}
use matar.Display.Frame.{IsInFrame, lines, lines-IsInFrame}
use matar.Samples.{channels, display, screen}

screen-IsInFrame : IsInFrame screen
screen-IsInFrame = record { in_frame = omega arith; blank = refl }

lines-IsInFrame_example : IsInFrame (lines 3 1006 channels screen)
lines-IsInFrame_example = lines-IsInFrame 3 1006 channels screen screen-IsInFrame

write_halfword-IsOnScreen_example :
    IsOnScreen
      (write_halfword 0x4000044 0x2050 (write_halfword 0x4000040 0x10FF display)).win0_top_left
      (write_halfword 0x4000044 0x2050 (write_halfword 0x4000040 0x10FF display)).win0_bot_right
    × IsOnScreen
        (write_halfword 0x4000046 0x2050 (write_halfword 0x4000042 0x10FF display)).win1_top_left
        (write_halfword 0x4000046 0x2050 (write_halfword 0x4000042 0x10FF display)).win1_bot_right
write_halfword-IsOnScreen_example = write_halfword-IsOnScreen 0x10FF 0x2050 display

-- Background 1 shows at the pixel, and background 0 is transparent there.
abbrev rendered : Rendered
rendered = record {
  scanline = λ bg. of_raw (if bg == 1 then 0x1234 else transparent_rgb555);
  object = reset;
}

pick_layers-first_two_example :
    pick_layers 0xFF display rendered
      (0 ∷ 1 ∷ [])
      false
      (backdrop true display)
      (backdrop false display)
    ≡ first_two 0xFF display rendered
        (visible_layers 0xFF rendered (0 ∷ 1 ∷ []))
        (backdrop true display)
        (backdrop false display)
pick_layers-first_two_example =
    pick_layers-first_two 0xFF display rendered (0 ∷ 1 ∷ []) (backdrop true display)
      (backdrop false display)

only_background_1 : visible_layers 0xFF rendered (0 ∷ 1 ∷ []) ≡ 1 ∷ []
unfolding visible_layers is_visible raw of_raw
only_background_1 = refl
