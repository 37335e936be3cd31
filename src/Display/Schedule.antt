-- ===== src/Display/Schedule.antt =====
-- What the display puts into the queue: src/io/display/display.cc.
use matar.Base.{ℕ, ◌+◌, ◌^◌, ◌<◌, List, Bool, true, false, ◌==◌, ltb, if◌then◌else◌, arith, u64}
use matar.Scheduler.{Task, TaskType}
use matar.Scheduler.Growth.{Grows, Grows-trans, schedule_at-Grows}
use matar.Scheduler.Growth as Growth
use matar.Dma.{Dma}
use matar.Dma.Control.{Timing}
use matar.Dma.Schedule.{notify-Grows}
use matar.Display.Render.Line.{render_line}
use matar.Display.Timing.{
  Screen, hblank_begin, hblank_end, begin_line, match_line, advance_lines, vblank_begin, vblank_end,
  raise_when, schedule, notify_dma, draw, set_status, vdraw_lines, vtotal_lines, cycles_hblank,
  cycles_hdraw,
}

module _ (at : ℕ) (h : at < 2 ^ 63) (dma : Dma) where
  Grows-branch :
      (a : List Task) (test : Bool) (x y : Screen)
      → Grows at a x.scheduler.tasks
      → Grows at a y.scheduler.tasks
      → Grows at a (if test then x else y).scheduler.tasks
  Grows-branch a true x y hx hy = hx
  Grows-branch a false x y hx hy = hy

  schedule-Grows :
      (kind : TaskType) (later : ℕ) (s : Screen)
      → later < 2 ^ 62
      → Grows at s.scheduler.tasks (schedule kind (at + later) s).scheduler.tasks
  unfolding schedule
  schedule-Grows kind later s b =
      schedule_at-Grows at kind (u64 (at + later)) s.scheduler (omega (arith, h, b))

  pub hblank_begin-Grows :
      (s : Screen) → Grows at s.scheduler.tasks (hblank_begin at dma s).scheduler.tasks
  unfolding hblank_begin raise_when notify_dma set_status
  hblank_begin-Grows s =
      Grows-trans at
        (Grows-branch s.scheduler.tasks (ltb s.display.vertical_counter vdraw_lines) _ _
          (notify-Grows at h Timing.hblank dma s.scheduler) Growth.same)
        (schedule-Grows TaskType.display_hdraw cycles_hblank _ (omega arith))

  begin_line-Grows : (s : Screen) → Grows at s.scheduler.tasks (begin_line at dma s).scheduler.tasks
  unfolding begin_line advance_lines vblank_begin vblank_end draw render_line raise_when notify_dma
  begin_line-Grows s =
      Grows-branch s.scheduler.tasks (ltb s.display.vertical_counter vdraw_lines) _ _ Growth.same (
        Grows-branch s.scheduler.tasks (s.display.vertical_counter == vdraw_lines) _ _
          (notify-Grows at h Timing.vblank dma s.scheduler)
          (Grows-branch s.scheduler.tasks (s.display.vertical_counter == vtotal_lines) _ s
            Growth.same Growth.same))

  pub hblank_end-Grows :
      (s : Screen) → Grows at s.scheduler.tasks (hblank_end at dma s).scheduler.tasks
  unfolding hblank_end match_line raise_when
  hblank_end-Grows s =
      Grows-trans at (begin_line-Grows _)
        (schedule-Grows TaskType.display_hblank cycles_hdraw _ (omega arith))
