-- ===== src/Sound/Playback.antt =====
-- What the sound puts into the queue: src/io/sound/sound.cc.
use matar.Base.{ℕ, ◌^◌, ◌<◌, Bool, true, false, ◌==◌, leb, flag, to_nat, if◌then◌else◌, arith}
use native.Mathlib.Nat.{div-le_self}
use matar.Scheduler.{Scheduler}
use matar.Scheduler.Growth.{Grows, Grows-trans, Grows-if, schedule_at-Grows}
use matar.Scheduler.Growth as Growth
use matar.Dma.{Dma}
use matar.Dma.Schedule.{schedule_sound_xfer-Grows}
use matar.Sound.{
  Sound, refill, play_a, play_b, dma_playback, schedule_sample, fifo_a_address, fifo_b_address,
}
use matar.Sound.Fifo as Fifo

module _ (at : ℕ) (h : at < 2 ^ 63) (d : Dma) where
  abbrev pub Plays : Sound × Scheduler → Sound × Scheduler → Type 0
  Plays before after = Grows at before.1.tasks after.1.tasks

  refill-Grows :
      (address : ℕ) (fifo : Fifo.SoundFifo) (s : Scheduler)
      → Grows at s.tasks (refill address fifo d at s).tasks
  refill-Grows address fifo s =
      Grows-if at s.tasks (leb (Fifo.size fifo) 16) _ s (schedule_sound_xfer-Grows at h address d s)
        Growth.same

  pub Plays-if :
      (a x y : Sound × Scheduler) (test : Bool)
      → Plays a x
      → Plays a y
      → Plays a (if test then x else y)
  Plays-if a x y true hx hy = hx
  Plays-if a x y false hx hy = hy

  play_a-Plays : (timer_id : ℕ) (s : Sound × Scheduler) → Plays s (play_a timer_id at d s)
  unfolding play_a
  play_a-Plays timer_id s =
      Plays-if s _ _ (to_nat (flag 10 s.0.dma_ctrl) == timer_id)
        (refill-Grows fifo_a_address (Fifo.read s.0.fifo_a).1 s.1) Growth.same

  play_b-Plays : (timer_id : ℕ) (s : Sound × Scheduler) → Plays s (play_b timer_id at d s)
  unfolding play_b
  play_b-Plays timer_id s =
      Plays-if s _ _ (to_nat (flag 14 s.0.dma_ctrl) == timer_id)
        (refill-Grows fifo_b_address (Fifo.read s.0.fifo_b).1 s.1) Growth.same

  pub dma_playback-Plays :
      (timer_id : ℕ) (s : Sound × Scheduler) → Plays s (dma_playback timer_id at d s)
  unfolding dma_playback
  dma_playback-Plays timer_id s =
      Plays-if s _ _ (flag 7 s.0.sound_on_off)
        (Grows-trans at (play_a-Plays timer_id s) (play_b-Plays timer_id _)) Growth.same

-- The rate is one of the four that the bias register selects.
pub schedule_sample-Grows :
    (at : ℕ) (s : Sound) (sch : Scheduler)
    → at < 2 ^ 63
    → Grows at sch.tasks (schedule_sample at s sch).tasks
unfolding schedule_sample
schedule_sample-Grows at s sch h =
    schedule_at-Grows at _ _ sch (omega (arith, h, div-le_self 16780000 s.sampling_rate))
