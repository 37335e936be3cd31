-- ===== src/Display/Registers.antt =====
-- The registers of the display: src/io/display/registers.cc. Messages to the log are left out.
use matar.Base.{ℕ, ◌||◌, ◌==◌, ltb, if◌then◌else◌, ◌>>>◌, ◌<<<◌, put, bit_and, bit_or, u32}
use matar.Bits.{bit_range}
use matar.Display.{Display, RotationScaling, lcd_width, lcd_height}
use matar.Display.Blend as Blend

-- The two lambdas of write_halfword. A signed word is its bit pattern.
unfoldable pub ref_low : ℕ → ℕ → ℕ
ref_low original low = bit_or (bit_and original 0xFFFF0000) low

unfoldable pub ref_high : ℕ → ℕ → ℕ
ref_high original high =
    u32 (bit_or (bit_and high 0xFFF <<< 16) (bit_and original 0xFFFF) <<< 4) >>> 4

unfoldable pub set_ref_x : ℕ → RotationScaling → RotationScaling
set_ref_x x r = record r { ref = record r.ref { x = x } }

unfoldable pub set_ref_y : ℕ → RotationScaling → RotationScaling
set_ref_y y r = record r { ref = record r.ref { y = y } }

-- The right or lower edge of a window, from the halfword of its two edges.
unfoldable pub far_edge : ℕ → ℕ → ℕ
far_edge limit halfword =
    let far = bit_range 16 halfword 0 7 in
    let near = bit_range 16 halfword 8 15 in if ltb far near || ltb limit far then limit else far

unfoldable pub read_halfword : ℕ → Display → ℕ
read_halfword address d =
    if address == 0x4000000
    then d.lcd_control
    else if address == 0x4000004
    then d.lcd_status
    else if address == 0x4000008
    then d.bg_control 0
    else if address == 0x400000A
    then d.bg_control 1
    else if address == 0x400000C
    then d.bg_control 2
    else if address == 0x400000E
    then d.bg_control 3
    else if address == 0x4000048
    then bit_or (d.win1 <<< 8) d.win0
    else if address == 0x400004A
    then bit_or (d.win_obj <<< 8) d.win_out
    else if address == 0x4000050
    then Blend.read d.blend_control
    else if address == 0x4000052
    then d.alpha_coeff
    else if address == 0x4000006
    then d.vertical_counter
    else 0xFFFF

unfoldable pub write_halfword : ℕ → ℕ → Display → Display
write_halfword address halfword d =
    if address == 0x4000000
    then record d { lcd_control = halfword }
    else if address == 0x4000004
    then record d { lcd_status = halfword }
    else if address == 0x4000008
    then record d { bg_control = put d.bg_control 0 halfword }
    else if address == 0x400000A
    then record d { bg_control = put d.bg_control 1 halfword }
    else if address == 0x400000C
    then record d { bg_control = put d.bg_control 2 halfword }
    else if address == 0x400000E
    then record d { bg_control = put d.bg_control 3 halfword }
    else if address == 0x4000010
    then record d { bg_offset = put d.bg_offset 0 (record (d.bg_offset 0) { x = halfword }) }
    else if address == 0x4000012
    then record d { bg_offset = put d.bg_offset 0 (record (d.bg_offset 0) { y = halfword }) }
    else if address == 0x4000014
    then record d { bg_offset = put d.bg_offset 1 (record (d.bg_offset 1) { x = halfword }) }
    else if address == 0x4000016
    then record d { bg_offset = put d.bg_offset 1 (record (d.bg_offset 1) { y = halfword }) }
    else if address == 0x4000018
    then record d { bg_offset = put d.bg_offset 2 (record (d.bg_offset 2) { x = halfword }) }
    else if address == 0x400001A
    then record d { bg_offset = put d.bg_offset 2 (record (d.bg_offset 2) { y = halfword }) }
    else if address == 0x400001C
    then record d { bg_offset = put d.bg_offset 3 (record (d.bg_offset 3) { x = halfword }) }
    else if address == 0x400001E
    then record d { bg_offset = put d.bg_offset 3 (record (d.bg_offset 3) { y = halfword }) }
    else if address == 0x4000020
    then record d { bg2_rot_scale = record d.bg2_rot_scale { a = halfword } }
    else if address == 0x4000022
    then record d { bg2_rot_scale = record d.bg2_rot_scale { b = halfword } }
    else if address == 0x4000024
    then record d { bg2_rot_scale = record d.bg2_rot_scale { c = halfword } }
    else if address == 0x4000026
    then record d { bg2_rot_scale = record d.bg2_rot_scale { d = halfword } }
    else if address == 0x4000028
    then record d {
      bg2_rot_scale = set_ref_x (ref_low d.bg2_rot_scale.ref.x halfword) d.bg2_rot_scale;
    }
    else if address == 0x400002A
    then record d {
      bg2_rot_scale = set_ref_x (ref_high d.bg2_rot_scale.ref.x halfword) d.bg2_rot_scale;
    }
    else if address == 0x400002C
    then record d {
      bg2_rot_scale = set_ref_y (ref_low d.bg2_rot_scale.ref.y halfword) d.bg2_rot_scale;
    }
    else if address == 0x400002E
    then record d {
      bg2_rot_scale = set_ref_y (ref_high d.bg2_rot_scale.ref.y halfword) d.bg2_rot_scale;
    }
    else if address == 0x4000030
    then record d { bg3_rot_scale = record d.bg3_rot_scale { a = halfword } }
    else if address == 0x4000032
    then record d { bg3_rot_scale = record d.bg3_rot_scale { b = halfword } }
    else if address == 0x4000034
    then record d { bg3_rot_scale = record d.bg3_rot_scale { c = halfword } }
    else if address == 0x4000036
    then record d { bg3_rot_scale = record d.bg3_rot_scale { d = halfword } }
    else if address == 0x4000038
    then record d {
      bg3_rot_scale = set_ref_x (ref_low d.bg3_rot_scale.ref.x halfword) d.bg3_rot_scale;
    }
    else if address == 0x400003A
    then record d {
      bg3_rot_scale = set_ref_x (ref_high d.bg3_rot_scale.ref.x halfword) d.bg3_rot_scale;
    }
    else if address == 0x400003C
    then record d {
      bg3_rot_scale = set_ref_y (ref_low d.bg3_rot_scale.ref.y halfword) d.bg3_rot_scale;
    }
    else if address == 0x400003E
    then record d {
      bg3_rot_scale = set_ref_y (ref_high d.bg3_rot_scale.ref.y halfword) d.bg3_rot_scale;
    }
    else if address == 0x4000040
    then record d {
      win0_bot_right = record d.win0_bot_right { x = far_edge lcd_width halfword };
      win0_top_left = record d.win0_top_left { x = bit_range 16 halfword 8 15 };
    }
    else if address == 0x4000044
    then record d {
      win0_bot_right = record d.win0_bot_right { y = far_edge lcd_height halfword };
      win0_top_left = record d.win0_top_left { y = bit_range 16 halfword 8 15 };
    }
    else if address == 0x4000042
    then record d {
      win1_bot_right = record d.win1_bot_right { x = far_edge lcd_width halfword };
      win1_top_left = record d.win1_top_left { x = bit_range 16 halfword 8 15 };
    }
    else if address == 0x4000046
    then record d {
      win1_bot_right = record d.win1_bot_right { y = far_edge lcd_height halfword };
      win1_top_left = record d.win1_top_left { y = bit_range 16 halfword 8 15 };
    }
    else if address == 0x4000048
    then record d { win1 = bit_range 16 halfword 8 15; win0 = bit_range 16 halfword 0 7 }
    else if address == 0x400004A
    then record d { win_obj = bit_range 16 halfword 8 15; win_out = bit_range 16 halfword 0 7 }
    else if address == 0x4000050
    then record d { blend_control = Blend.write halfword }
    else if address == 0x4000052
    then record d { alpha_coeff = halfword }
    else if address == 0x400004C
    then record d { mosaic_size = halfword }
    else if address == 0x4000054
    then record d { brightness_coeff = bit_and halfword 0b11111 }
    else d
