-- ===== src/Timer/Liveness.antt =====
-- A running timer goes on running: src/io/timer/timer.cc.
use mathlib.Core.List.{Mem}
use matar.Base.{
  ℕ, zero, suc, ◌+◌, ◌-◌, ◌<◌, ◌≡◌, ◌≢◌, refl, ◌∙◌, Bool, true, false, ◌==◌, if◌then◌else◌, arith,
  u64, ==_false, ==_same,
}
use matar.Scheduler.{Task}
use matar.Scheduler.Growth.{schedule_at-mem}
use matar.Dma.{Dma}
use matar.Timer.{
  TimerState, Clockwork, start_stop, count_up, timer_max, overflow_cycles, task_of,
  schedule_overflow, reload_and_raise, count_one, play, play_and_schedule, trigger_below,
  trigger_overflow,
}

-- The overflow of a timer touches none below it.
module _ (i at : ℕ) (d : Dma) where
  abbrev Keeps : Clockwork → Clockwork → Type 0
  Keeps before after = after.timers i ≡ before.timers i

  Keeps-if :
      (a : Clockwork) (test : Bool) (x y : Clockwork)
      → Keeps a x
      → Keeps a y
      → Keeps a (if test then x else y)
  Keeps-if a true x y hx hy = hx
  Keeps-if a false x y hx hy = hy

  play_and_schedule-Keeps : (id : ℕ) (c : Clockwork) → Keeps c (play_and_schedule id at d c)
  unfolding play_and_schedule
  play_and_schedule-Keeps id c = refl

  reload_and_raise-Keeps : (id : ℕ) (c : Clockwork) → i ≢ id → Keeps c (reload_and_raise id c)
  unfolding reload_and_raise
  reload_and_raise-Keeps id c ne = rw (==_false i id ne) refl

  count_one-Keeps : (id : ℕ) (c : Clockwork) → i ≢ id → Keeps c (count_one id c)
  unfolding count_one
  count_one-Keeps id c ne = rw (==_false i id ne) refl

  -- The state when the cascade of a timer is done, before the sound and the next overflow.
  cascaded : ℕ → ℕ → Clockwork → Clockwork
  cascaded zero id loaded = loaded
  cascaded (suc above) id loaded =
      if count_up (loaded.timers (id + 1)).control
      then if (loaded.timers (id + 1)).counter == timer_max
        then trigger_below above (id + 1) at d loaded
        else count_one (id + 1) loaded
      else loaded

  trigger_below-cascaded :
      (above id : ℕ) (c : Clockwork)
      → trigger_below above id at d c ≡ (
          if start_stop (c.timers id).control
          then play_and_schedule id at d (cascaded above id (reload_and_raise id c))
          else c)
  unfolding trigger_below cascaded
  trigger_below-cascaded zero id c = refl
  trigger_below-cascaded (suc above) id c = refl

  -- A trigger keeps what its cascade keeps.
  trigger_below-Keeps_of :
      (above id : ℕ) (c : Clockwork)
      → i < id
      → Keeps (reload_and_raise id c) (cascaded above id (reload_and_raise id c))
      → Keeps c (trigger_below above id at d c)
  trigger_below-Keeps_of above id c h kept = rw (trigger_below-cascaded above id c) (
      Keeps-if c (start_stop (c.timers id).control) _ c
        (play_and_schedule-Keeps id _ ∙ kept ∙ reload_and_raise-Keeps id c (λ e. omega arith)) refl)

  cascaded-Keeps : (above id : ℕ) (c : Clockwork) → i < suc id → Keeps c (cascaded above id c)
  unfolding cascaded
  cascaded-Keeps zero id c h = refl
  cascaded-Keeps (suc above) id c h =
      let up = c.timers (id + 1) in
      let overflown =
        trigger_below-Keeps_of above (id + 1) c (omega arith)
          (cascaded-Keeps above (id + 1) _ (omega arith)) in
      Keeps-if c (count_up up.control) _ c
        (Keeps-if c (up.counter == timer_max) _ _ overflown
          (count_one-Keeps (id + 1) c (λ e. omega arith)))
        refl

-- The task of the next overflow of a timer that loads its counter again.
abbrev pub next_overflow : ℕ → ℕ → TimerState → Task
next_overflow id at t = record {
  kind = task_of id;
  cycles = u64 (at + overflow_cycles (record t { counter = t.reload }));
}

reload_and_raise-loads :
    (id : ℕ) (c : Clockwork)
    → (reload_and_raise id c).timers id ≡ record (c.timers id) { counter = (c.timers id).reload }
unfolding reload_and_raise
reload_and_raise-loads id c = rw (==_same id) refl

play_and_schedule-mem :
    (id at : ℕ) (d : Dma) (c : Clockwork) (t : TimerState)
    → c.timers id ≡ t
    → Mem
        (record { kind = task_of id; cycles = u64 (at + overflow_cycles t) })
        (play_and_schedule id at d c).scheduler.tasks
unfolding play_and_schedule schedule_overflow
play_and_schedule-mem id at d c t e =
    rw (← e)
      (schedule_at-mem (task_of id) (u64 (at + overflow_cycles (c.timers id))) (play id at d c).1)

-- When a running timer overflows, its next overflow is in the queue, at the time that its reload value and its prescaler give.
pub trigger_overflow-next_overflow :
    (id at : ℕ) (d : Dma) (c : Clockwork)
    → start_stop (c.timers id).control ≡ true
    → Mem (next_overflow id at (c.timers id)) (trigger_overflow id at d c).scheduler.tasks
unfolding trigger_overflow
trigger_overflow-next_overflow id at d c run =
    let before = reload_and_raise id c in
    let state = cascaded id at d (3 - id) id before in
    let kept = cascaded-Keeps id at d (3 - id) id before (omega arith) in
    rw (trigger_below-cascaded id at d (3 - id) id c, run)
      (play_and_schedule-mem id at d state _ (kept ∙ reload_and_raise-loads id c))
