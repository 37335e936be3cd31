-- ===== src/Timer.antt =====
-- The four timers: include/io/timer/timer.hh, include/io/timer/registers.hh, src/io/timer/timer.cc and
-- src/io/timer/registers.cc. `TimerControl` is its 16 bits, and a field is a range of them. Messages
-- to the log are left out.
pub mod Registers
pub mod Cascade
pub mod Schedule
pub mod Kept
pub mod Liveness
mod Tests
use matar.Base.{
  ℕ, zero, suc, ◌+◌, ◌-◌, ◌*◌, ◌^◌, Bool, not, ◌&&◌, ◌==◌, leb, if◌then◌else◌, ◌<<<◌, flag, field,
  put, u16, u64,
}
use matar.Scheduler.{TaskType, Scheduler, schedule_at, get_cycles}
use matar.System.{Irq, System, raise_irq}
use matar.Dma.{Dma}
use matar.Sound.{Sound, dma_playback}

pub record TimerState : Type 0 where
  pub counter : ℕ
  pub reload : ℕ
  pub control : ℕ

-- `timers`, by number.
abbrev pub Timer : Type 0
Timer = ℕ → TimerState

-- The timers with what they refer to: the scheduler, the interrupts and the sound.
pub record Clockwork : Type 0 where
  pub timers : Timer
  pub scheduler : Scheduler
  pub irq : System
  pub sound : Sound

unfoldable pub prescaler : ℕ → ℕ
prescaler control = field 0 2 control

unfoldable pub count_up : ℕ → Bool
count_up control = flag 2 control

unfoldable pub irq_enable : ℕ → Bool
irq_enable control = flag 6 control

unfoldable pub start_stop : ℕ → Bool
start_stop control = flag 7 control

-- The tables `tasks`, `irqs` and `prescalers`.
unfoldable pub task_of : ℕ → TaskType
task_of id =
    if id == 0
    then TaskType.timer0_overflow
    else if id == 1
    then TaskType.timer1_overflow
    else if id == 2
    then TaskType.timer2_overflow
    else TaskType.timer3_overflow

unfoldable pub irq_of : ℕ → Irq
irq_of id =
    if id == 0
    then Irq.timer0_overflow
    else if id == 1
    then Irq.timer1_overflow
    else if id == 2
    then Irq.timer2_overflow
    else Irq.timer3_overflow

unfoldable pub prescaler_shift : ℕ → ℕ
prescaler_shift i = if i == 0 then 0 else if i == 1 then 6 else if i == 2 then 8 else 10

abbrev pub timer_max : ℕ
timer_max = 0xFFFF

-- The shift is of an `int`: 0x10000 << 10 fits.
unfoldable pub overflow_cycles : TimerState → ℕ
overflow_cycles t = (timer_max + 1 - t.counter) <<< prescaler_shift (prescaler t.control)

unfoldable pub schedule_overflow : ℕ → ℕ → Timer → Scheduler → Scheduler
schedule_overflow id at timers s =
    schedule_at (task_of id) (u64 (at + overflow_cycles (timers id))) s

unfoldable pub write_and_eval_ctrl : ℕ → ℕ → Timer × Scheduler → Timer × Scheduler
write_and_eval_ctrl id raw (timers, s) =
    let was_enabled = start_stop (timers id).control in
    let written = record (timers id) { control = raw } in
    let timer =
      if start_stop raw && not was_enabled
      then record written { counter = (timers id).reload }
      else written in
    (
      put timers id timer,
      if start_stop raw && not (count_up raw)
          then schedule_overflow id (get_cycles s) (put timers id timer) s
          else s,
    )

-- The overflow of a timer up to its cascade: the counter is loaded again and the interrupt raised.
unfoldable pub reload_and_raise : ℕ → Clockwork → Clockwork
reload_and_raise id c = record c {
  timers = put c.timers id (record (c.timers id) { counter = (c.timers id).reload });
  irq = if irq_enable (c.timers id).control then raise_irq (irq_of id) c.irq else c.irq;
}

-- The sound takes a sample from timers 0 and 1.
unfoldable pub play : ℕ → ℕ → Dma → Clockwork → Sound × Scheduler
play id at d c =
    if leb id 1 then dma_playback id at d (c.sound, c.scheduler) else (c.sound, c.scheduler)

-- The rest: the sound, and the next overflow is scheduled.
unfoldable pub play_and_schedule : ℕ → ℕ → Dma → Clockwork → Clockwork
play_and_schedule id at d c = record c {
  sound = (play id at d c).0;
  scheduler = schedule_overflow id at c.timers (play id at d c).1;
}

unfoldable pub count_one : ℕ → Clockwork → Clockwork
count_one id c = record c {
  timers = put c.timers id (record (c.timers id) { counter = u16 ((c.timers id).counter + 1) });
}

-- trigger_overflow for a timer with a number of timers above it. The source calls itself for the
-- next timer; that call is made first here and used where the source makes it.
unfoldable pub trigger_below : ℕ → ℕ → ℕ → Dma → Clockwork → Clockwork
trigger_below zero id at d c =
    if start_stop (c.timers id).control
    then play_and_schedule id at d (reload_and_raise id c)
    else c
trigger_below (suc above) id at d c =
    let loaded = reload_and_raise id c in
    let overflown = trigger_below above (id + 1) at d loaded in
    let next = loaded.timers (id + 1) in
    let cascaded =
      if count_up next.control
      then if next.counter == timer_max then overflown else count_one (id + 1) loaded
      else loaded in
    if start_stop (c.timers id).control then play_and_schedule id at d cascaded else c

-- `id != 3` is that a timer stands above.
unfoldable pub trigger_overflow : ℕ → ℕ → Dma → Clockwork → Clockwork
trigger_overflow id at d c = trigger_below (3 - id) id at d c
