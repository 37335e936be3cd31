-- ===== src/Display/Timing.antt =====
-- The lines and frames of src/io/display/display.cc: hblank_begin, hblank_end, vblank_begin and
-- vblank_end. The copy of the frame to a file is left out.
use matar.Base.{
  ℕ, ◌+◌, Bool, true, false, ◌&&◌, ◌==◌, ltb, if◌then◌else◌, flag, field, put_flag, u16, u32, u64,
}
use matar.Scheduler.{TaskType, Scheduler, schedule_at, schedule_from_now}
use matar.System.{Irq, System, raise_irq}
use matar.Dma.{Dma, notify}
use matar.Dma.Control.{Timing}
use matar.Display.{Display, RotationScaling}
use matar.Display.Color.{reset}
use matar.Display.Render.{widen}
use matar.Display.Render.Line.{render_line}

abbrev pub cycles_hdraw : ℕ
cycles_hdraw = 1006

abbrev pub cycles_hblank : ℕ
cycles_hblank = 226

abbrev pub vdraw_lines : ℕ
vdraw_lines = 160

abbrev pub vtotal_lines : ℕ
vtotal_lines = 228

-- The display with what it refers to: the scheduler and the interrupts.
pub record Screen : Type 0 where
  pub display : Display
  pub scheduler : Scheduler
  pub system : System

-- The constructor of Display.
unfoldable pub first_task : Scheduler → Scheduler
first_task s = schedule_from_now TaskType.display_hblank cycles_hdraw s

unfoldable pub set_status : ℕ → Screen → Screen
set_status status s = record s { display = record s.display { lcd_status = status } }

unfoldable pub raise_when : Bool → Irq → Screen → Screen
raise_when test event s = record s { system = if test then raise_irq event s.system else s.system }

unfoldable pub schedule : TaskType → ℕ → Screen → Screen
schedule kind at s = record s { scheduler = schedule_at kind (u64 at) s.scheduler }

unfoldable pub notify_dma : Timing → Dma → ℕ → Screen → Screen
notify_dma timing dma at s = record s { scheduler = notify timing dma at s.scheduler }

unfoldable pub hblank_begin : ℕ → Dma → Screen → Screen
hblank_begin at dma s =
    let status = put_flag 1 true s.display.lcd_status in
    let marked = set_status status s in
    let drawn =
      if ltb s.display.vertical_counter vdraw_lines
      then notify_dma Timing.hblank dma at (raise_when (flag 4 status) Irq.lcd_hblank marked)
      else marked in
    schedule TaskType.display_hdraw (at + cycles_hblank) drawn

-- `internal += (b, d)`
unfoldable pub next_line : RotationScaling → RotationScaling
next_line r = record r {
  internal = record { x = u32 (r.internal.x + widen r.b); y = u32 (r.internal.y + widen r.d) };
}

unfoldable pub first_line : RotationScaling → RotationScaling
first_line r = record r { internal = r.ref }

-- The two references after a line that is drawn.
unfoldable pub advance_lines : Screen → Screen
advance_lines s = record s {
  display = record s.display {
    bg2_rot_scale = next_line s.display.bg2_rot_scale;
    bg3_rot_scale = next_line s.display.bg3_rot_scale;
  };
}

unfoldable pub draw : Screen → Screen
draw s = record s { display = render_line s.display }

unfoldable pub vblank_begin : Screen → Screen
vblank_begin s =
    let status = put_flag 0 true s.display.lcd_status in
    raise_when (flag 3 status) Irq.lcd_vblank (record s {
      display = record s.display {
        lcd_status = status;
        bg2_rot_scale = first_line s.display.bg2_rot_scale;
        bg3_rot_scale = first_line s.display.bg3_rot_scale;
        object_buffer = λ x y. reset;
      };
    })

unfoldable pub vblank_end : Screen → Screen
vblank_end s =
    let status = put_flag 0 false s.display.lcd_status in
    raise_when (flag 5 status && (field 8 8 status == 0)) Irq.lcd_vcounter_match
      (draw (record s { display = record s.display { lcd_status = status; vertical_counter = 0 } }))

-- The line that begins: it is drawn, or it is the first of the blank, or the first of a new frame.
unfoldable pub begin_line : ℕ → Dma → Screen → Screen
begin_line at dma s =
    if ltb s.display.vertical_counter vdraw_lines
    then advance_lines (draw s)
    else if s.display.vertical_counter == vdraw_lines
    then notify_dma Timing.vblank dma at (vblank_begin s)
    else if s.display.vertical_counter == vtotal_lines
    then vblank_end s
    else s

unfoldable pub match_line : Screen → Screen
match_line s =
    raise_when
      (flag 5 s.display.lcd_status
        && (s.display.vertical_counter == field 8 8 s.display.lcd_status))
      Irq.lcd_vcounter_match s

unfoldable pub hblank_end : ℕ → Dma → Screen → Screen
hblank_end at dma s =
    let counted = record s {
      display = record s.display {
        vertical_counter = u16 (s.display.vertical_counter + 1);
        lcd_status = put_flag 1 false s.display.lcd_status;
      };
    } in
    schedule TaskType.display_hblank (at + cycles_hdraw) (match_line (begin_line at dma counted))
