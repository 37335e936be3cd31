-- ===== src/Timer/Cascade.antt =====
-- What an overflow does to the counters: src/io/timer/timer.cc.
use matar.Base.{
  ℕ, zero, suc, ◌+◌, ◌<◌, ◌≡◌, Bool, true, false, ◌&&◌, ◌==◌, if◌then◌else◌, u16, arith, Bool-cases,
  inl, inr,
}
use matar.System.{Irq, System, raise_irq}
use matar.Dma.{Dma}
use matar.Timer.{
  Timer, Clockwork, irq_of, irq_enable, count_up, start_stop, timer_max, reload_and_raise, play,
  play_and_schedule, count_one, trigger_below, trigger_overflow,
}

-- The counters after an overflow of a running timer `id`, by number. The timer and those above it
-- that count its overflows are an independent description of the cascade: timer `j` receives a
-- tick when timer `j - 1` overflows, and overflows itself when it counts up, runs and is full.
unfoldable pub overflows : ℕ → Timer → ℕ → Bool
overflows id t zero = id == 0
overflows id t (suc j) =
    let below = overflows id t j in
    if id == suc j
    then true
    else below
      && count_up (t (suc j)).control
      && ((t (suc j)).counter == timer_max)
      && start_stop (t (suc j)).control

unfoldable pub counter_after : ℕ → Timer → ℕ → ℕ
counter_after id t zero = if id == 0 then (t 0).reload else (t 0).counter
counter_after id t (suc j) =
    if id == suc j
    then (t (suc j)).reload
    else if overflows id t j && count_up (t (suc j)).control
    then if (t (suc j)).counter == timer_max
      then if start_stop (t (suc j)).control then (t (suc j)).reload else (t (suc j)).counter
      else u16 ((t (suc j)).counter + 1)
    else (t (suc j)).counter

-- The interrupts that an overflow of timer `id` raises, from timer 0 up.
unfoldable pub raise_if : Bool → Irq → System → System
raise_if test event s = if test then raise_irq event s else s

unfoldable pub raised_after : ℕ → Timer → System → System
raised_after id t s = raise_if (overflows id t 3 && irq_enable (t 3).control) Irq.timer3_overflow (
    raise_if (overflows id t 2 && irq_enable (t 2).control) Irq.timer2_overflow (
      raise_if (overflows id t 1 && irq_enable (t 1).control) Irq.timer1_overflow
        (raise_if (overflows id t 0 && irq_enable (t 0).control) Irq.timer0_overflow s)))

-- The timers after an overflow of timer `id`, and the interrupts.
pub record Cascades (id : ℕ) (before after : Clockwork) : Type 0 where
  pub counter0 : (after.timers 0).counter ≡ counter_after id before.timers 0
  pub counter1 : (after.timers 1).counter ≡ counter_after id before.timers 1
  pub counter2 : (after.timers 2).counter ≡ counter_after id before.timers 2
  pub counter3 : (after.timers 3).counter ≡ counter_after id before.timers 3
  pub raised : after.irq ≡ raised_after id before.timers before.irq

module _ (at : ℕ) (d : Dma) (c : Clockwork) (run : start_stop (c.timers 0).control ≡ true) where
  alone : (down : count_up (c.timers 1).control ≡ false) → Cascades 0 c (trigger_overflow 0 at d c)
  unfolding trigger_overflow trigger_below counter_after overflows reload_and_raise count_one
      play_and_schedule play raised_after raise_if irq_of
  alone down = record {
    counter0 = rw (run, down) (grind arith);
    counter1 = rw (run, down) (grind arith);
    counter2 = rw (run, down) (grind arith);
    counter3 = rw (run, down) (grind arith);
    raised = rw (run, down) (grind arith);
  }

  counted :
      (up : count_up (c.timers 1).control ≡ true)
      → (room : ((c.timers 1).counter == timer_max) ≡ false)
      → Cascades 0 c (trigger_overflow 0 at d c)
  unfolding trigger_overflow trigger_below counter_after overflows reload_and_raise count_one
      play_and_schedule play raised_after raise_if irq_of
  counted up room = record {
    counter0 = rw (run, up, room) (grind arith);
    counter1 = rw (run, up, room) (grind arith);
    counter2 = rw (run, up, room) (grind arith);
    counter3 = rw (run, up, room) (grind arith);
    raised = rw (run, up, room) (grind arith);
  }

  stopped :
      (up : count_up (c.timers 1).control ≡ true)
      → (full : ((c.timers 1).counter == timer_max) ≡ true)
      → (off : start_stop (c.timers 1).control ≡ false) → Cascades 0 c (trigger_overflow 0 at d c)
  unfolding trigger_overflow trigger_below counter_after overflows reload_and_raise count_one
      play_and_schedule play raised_after raise_if irq_of
  stopped up full off = record {
    counter0 = rw (run, up, full, off) (grind arith);
    counter1 = rw (run, up, full, off) (grind arith);
    counter2 = rw (run, up, full, off) (grind arith);
    counter3 = rw (run, up, full, off) (grind arith);
    raised = rw (run, up, full, off) (grind arith);
  }

  cascaded :
      (up : count_up (c.timers 1).control ≡ true)
      → (full : ((c.timers 1).counter == timer_max) ≡ true)
      → (on : start_stop (c.timers 1).control ≡ true) → Cascades 0 c (trigger_overflow 0 at d c)
  unfolding trigger_overflow trigger_below counter_after overflows reload_and_raise count_one
      play_and_schedule play raised_after raise_if irq_of
  cascaded up full on = record {
    counter0 = rw (run, up, full, on) (grind arith);
    counter1 = rw (run, up, full, on) (grind arith);
    counter2 = rw (run, up, full, on) (grind arith);
    counter3 = rw (run, up, full, on) (grind arith);
    raised = rw (run, up, full, on) (grind arith);
  }

  overflow_of_0 : Cascades 0 c (trigger_overflow 0 at d c)
  overflow_of_0 = elim (Bool-cases (count_up (c.timers 1).control)) [
    | inr down ↦ alone down
    | inl up ↦ elim (Bool-cases ((c.timers 1).counter == timer_max)) [
      | inr room ↦ counted up room
      | inl full ↦ elim (Bool-cases (start_stop (c.timers 1).control)) [
        | inl on ↦ cascaded up full on
        | inr off ↦ stopped up full off
      ]
    ]
  ]

overflow_of_1 :
    (at : ℕ) (d : Dma) (c : Clockwork)
    → start_stop (c.timers 1).control ≡ true
    → Cascades 1 c (trigger_overflow 1 at d c)
unfolding trigger_overflow trigger_below counter_after overflows reload_and_raise count_one
    play_and_schedule play raised_after raise_if irq_of
overflow_of_1 at d c run = record {
  counter0 = grind arith;
  counter1 = grind arith;
  counter2 = grind arith;
  counter3 = grind arith;
  raised = grind arith;
}

overflow_of_2 :
    (at : ℕ) (d : Dma) (c : Clockwork)
    → start_stop (c.timers 2).control ≡ true
    → Cascades 2 c (trigger_overflow 2 at d c)
unfolding trigger_overflow trigger_below counter_after overflows reload_and_raise count_one
    play_and_schedule play raised_after raise_if irq_of
overflow_of_2 at d c run = record {
  counter0 = grind arith;
  counter1 = grind arith;
  counter2 = grind arith;
  counter3 = grind arith;
  raised = grind arith;
}

overflow_of_3 :
    (at : ℕ) (d : Dma) (c : Clockwork)
    → start_stop (c.timers 3).control ≡ true
    → Cascades 3 c (trigger_overflow 3 at d c)
unfolding trigger_overflow trigger_below counter_after overflows reload_and_raise count_one
    play_and_schedule play raised_after raise_if irq_of
overflow_of_3 at d c run = record {
  counter0 = grind arith;
  counter1 = grind arith;
  counter2 = grind arith;
  counter3 = grind arith;
  raised = grind arith;
}

-- When a running timer overflows, it and each running timer in a row above it that counts up from a full counter load their counters again and raise their interrupt if it is enabled, the next one that counts up counts by one, and no other counter changes.
pub trigger_overflow-Cascades :
    (id at : ℕ) (d : Dma) (c : Clockwork)
    → id < 4
    → start_stop (c.timers id).control ≡ true
    → Cascades id c (trigger_overflow id at d c)
trigger_overflow-Cascades zero at d c h run = overflow_of_0 at d c run
trigger_overflow-Cascades (suc zero) at d c h run = overflow_of_1 at d c run
trigger_overflow-Cascades (suc (suc zero)) at d c h run = overflow_of_2 at d c run
trigger_overflow-Cascades (suc (suc (suc zero))) at d c h run = overflow_of_3 at d c run
trigger_overflow-Cascades (suc (suc (suc (suc id)))) at d c h run = absurd (omega arith)
