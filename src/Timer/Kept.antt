-- ===== src/Timer/Kept.antt =====
-- What a write to the registers of the timers does to the queue: src/io/timer/timer.cc,
-- src/io/timer/registers.cc.
use matar.Base.{ℕ, not, ◌&&◌, ◌==◌, arith, if_both}
use matar.Scheduler.{Scheduler, get_cycles}
use matar.Scheduler.Kept.{IsKept, IsNow, IsKept-same, schedule_at-IsKept}
use matar.Timer.{
  Timer, task_of, write_and_eval_ctrl, schedule_overflow, start_stop, count_up, overflow_cycles,
}
use matar.Timer.Schedule.{overflow_cycles-le}
use matar.Timer.Registers.{write_halfword}

module _ (at : ℕ) {s : Scheduler} (now : IsNow at s) where
  abbrev P : Timer × Scheduler → Type 0
  P r = IsKept at s r.1

  abbrev Q : Scheduler → Type 0
  Q r = IsKept at s r

  schedule_overflow-IsKept :
      (id : ℕ) (t : Timer) → IsKept at s (schedule_overflow id (get_cycles s) t s)
  unfolding schedule_overflow get_cycles
  schedule_overflow-IsKept id t =
      schedule_at-IsKept at (task_of id) (overflow_cycles (t id)) s now
        (omega (arith, overflow_cycles-le (t id)))

  write_and_eval_ctrl-IsKept :
      (id raw : ℕ) (t : Timer) → IsKept at s (write_and_eval_ctrl id raw (t, s)).1
  unfolding write_and_eval_ctrl
  write_and_eval_ctrl-IsKept id raw t =
      if_both Q (start_stop raw && not (count_up raw)) _ _ (schedule_overflow-IsKept id _)
        (IsKept-same at s)

  pub write_halfword-IsKept :
      (address halfword : ℕ) (t : Timer) → IsKept at s (write_halfword address halfword (t, s)).1
  unfolding write_halfword
  write_halfword-IsKept address halfword t =
      let same = IsKept-same at s in
      (if_both P (address == 0x4000100) _ _ same (
        if_both P (address == 0x4000102) _ _ (write_and_eval_ctrl-IsKept 0 halfword t) (
          if_both P (address == 0x4000104) _ _ same (
            if_both P (address == 0x4000106) _ _ (write_and_eval_ctrl-IsKept 1 halfword t) (
              if_both P (address == 0x4000108) _ _ same (
                if_both P (address == 0x400010A) _ _ (write_and_eval_ctrl-IsKept 2 halfword t) (
                  if_both P (address == 0x400010C) _ _ same (
                    if_both P (address == 0x400010E) _ _ (write_and_eval_ctrl-IsKept 3 halfword t)
                      same))))))))
