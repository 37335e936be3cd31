-- ===== src/Timer/Schedule.antt =====
-- What the timers put into the queue: src/io/timer/timer.cc.
use matar.Base.{
  ℕ, zero, suc, ◌+◌, ◌-◌, ◌^◌, ◌≤◌, ◌<◌, List, Bool, true, false, ◌==◌, leb, if◌then◌else◌, arith,
}
use matar.Scheduler.{Task, Scheduler}
use matar.Scheduler.Growth.{Grows, Grows-trans, Grows-if, schedule_at-Grows, schedule_at-mem}
use matar.Scheduler.Growth as Growth
use matar.Dma.{Dma}
use matar.Sound.Playback.{Plays-if, dma_playback-Plays}
use matar.Timer.{
  TimerState, Timer, Clockwork, start_stop, count_up, prescaler_shift, timer_max, overflow_cycles,
  task_of, schedule_overflow, reload_and_raise, count_one, play, play_and_schedule, trigger_below,
  trigger_overflow,
}

pub overflow_cycles-le : (t : TimerState) → overflow_cycles t ≤ 2 ^ 26
unfolding overflow_cycles prescaler_shift
overflow_cycles-le t = ground arith

module _ (at : ℕ) (h : at < 2 ^ 63) (d : Dma) where
  schedule_overflow-Grows :
      (id : ℕ) (timers : Timer) (s : Scheduler)
      → Grows at s.tasks (schedule_overflow id at timers s).tasks
  unfolding schedule_overflow
  schedule_overflow-Grows id timers s =
      schedule_at-Grows at (task_of id) _ s (omega (arith, h, overflow_cycles-le (timers id)))

  play-Grows : (id : ℕ) (c : Clockwork) → Grows at c.scheduler.tasks (play id at d c).1.tasks
  unfolding play
  play-Grows id c =
      Plays-if at h d (c.sound, c.scheduler) _ (c.sound, c.scheduler) (leb id 1)
        (dma_playback-Plays at h d id (c.sound, c.scheduler)) Growth.same

  play_and_schedule-Grows :
      (id : ℕ) (c : Clockwork)
      → Grows at c.scheduler.tasks (play_and_schedule id at d c).scheduler.tasks
  unfolding play_and_schedule
  play_and_schedule-Grows id c =
      Grows-trans at (play-Grows id c) (schedule_overflow-Grows id c.timers (play id at d c).1)

  -- A branch between two states of the timers.
  Grows-branch :
      (a : List Task) (test : Bool) (x y : Clockwork)
      → Grows at a x.scheduler.tasks
      → Grows at a y.scheduler.tasks
      → Grows at a (if test then x else y).scheduler.tasks
  Grows-branch a true x y hx hy = hx
  Grows-branch a false x y hx hy = hy

  trigger_below-Grows :
      (above id : ℕ) (c : Clockwork)
      → Grows at c.scheduler.tasks (trigger_below above id at d c).scheduler.tasks
  unfolding trigger_below reload_and_raise count_one
  trigger_below-Grows zero id c =
      Grows-branch _ (start_stop (c.timers id).control) _ c
        (play_and_schedule-Grows id (reload_and_raise id c)) Growth.same
  trigger_below-Grows (suc above) id c =
      let loaded = reload_and_raise id c in
      let overflown = trigger_below-Grows above (id + 1) loaded in
      let next = loaded.timers (id + 1) in
      let counted =
        Grows-branch c.scheduler.tasks (next.counter == timer_max) _ (count_one (id + 1) loaded)
          overflown Growth.same in
      let cascaded =
        Grows-branch c.scheduler.tasks (count_up next.control) _ loaded counted Growth.same in
      Grows-branch c.scheduler.tasks (start_stop (c.timers id).control) _ c
        (Grows-trans at cascaded (play_and_schedule-Grows id _)) Growth.same

  pub trigger_overflow-Grows :
      (id : ℕ) (c : Clockwork)
      → Grows at c.scheduler.tasks (trigger_overflow id at d c).scheduler.tasks
  unfolding trigger_overflow
  trigger_overflow-Grows id c = trigger_below-Grows (3 - id) id c
