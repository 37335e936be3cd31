-- ===== src/Dma/Schedule.antt =====
-- What the DMA puts into the queue: src/io/dma/dma.cc.
use matar.Base.{ℕ, ◌^◌, ◌≤◌, ◌<◌, ◌&&◌, ◌==◌, arith}
use matar.Scheduler.{Scheduler}
use matar.Scheduler.Growth.{
  Grows, Grows-trans, Grows-if, Grows-mem, schedule_at-Grows, schedule_at-mem,
}
use matar.Scheduler.Growth as Growth
use matar.Dma.{
  Channel, Dma, task_of, delay, activate, is_notified, notify_one, notify, sound_xfer_one,
  schedule_sound_xfer,
}
use matar.Dma.Control.{Timing}

pub delay-le-three : (chan : Channel) (s : Scheduler) → delay chan s ≤ 3
unfolding delay
delay-le-three chan s = omega arith

module _ (at : ℕ) (h : at < 2 ^ 63) where
  activate-Grows :
      (id : ℕ) (chan : Channel) (s : Scheduler) → Grows at s.tasks (activate id chan at s).tasks
  activate-Grows id chan s =
      schedule_at-Grows at (task_of id) _ s (omega (arith, h, delay-le-three chan s))

  notify_one-Grows :
      (timing : Timing) (d : Dma) (id : ℕ) (s : Scheduler)
      → Grows at s.tasks (notify_one timing d at id s).tasks
  unfolding notify_one
  notify_one-Grows timing d id s =
      Grows-if at s.tasks (is_notified timing (d id)) _ s (activate-Grows id (d id) s) Growth.same

  pub notify-Grows :
      (timing : Timing) (d : Dma) (s : Scheduler) → Grows at s.tasks (notify timing d at s).tasks
  unfolding notify
  notify-Grows timing d s = Grows-trans at (notify_one-Grows timing d 0 s) (
      Grows-trans at (notify_one-Grows timing d 1 _)
        (Grows-trans at (notify_one-Grows timing d 2 _) (notify_one-Grows timing d 3 _)))

  sound_xfer_one-Grows :
      (fifo_addr : ℕ) (d : Dma) (id : ℕ) (s : Scheduler)
      → Grows at s.tasks (sound_xfer_one fifo_addr d at id s).tasks
  unfolding sound_xfer_one
  sound_xfer_one-Grows fifo_addr d id s =
      Grows-if at s.tasks (is_notified Timing.special (d id) && ((d id).destination == fifo_addr)) _
        s (activate-Grows id (d id) s) Growth.same

  pub schedule_sound_xfer-Grows :
      (fifo_addr : ℕ) (d : Dma) (s : Scheduler)
      → Grows at s.tasks (schedule_sound_xfer fifo_addr d at s).tasks
  unfolding schedule_sound_xfer
  schedule_sound_xfer-Grows fifo_addr d s =
      Grows-trans at (sound_xfer_one-Grows fifo_addr d 1 s) (sound_xfer_one-Grows fifo_addr d 2 _)
