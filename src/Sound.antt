-- ===== src/Sound.antt =====
-- The sound unit: include/io/sound/sound.hh, include/io/sound/registers.hh and src/io/sound/sound.cc.
-- A register struct is its 16 bits, and a field is a range of them. A sample that is played is a
-- signed byte, kept as its bit pattern. The resampler and the buffer of the host belong to files
-- that are not in the repository, or work in floating point: their calls are left out.
pub mod Fifo
pub mod Registers
pub mod Queue
pub mod Playback
pub mod Mix
mod Tests
use matar.Base.{ℕ, ◌+◌, ◌/◌, ◌≤◌, Bool, List, ◌==◌, leb, if◌then◌else◌, flag, to_nat, u64}
use matar.Scheduler.{TaskType, Scheduler, schedule_at}
use matar.Dma.{Dma, schedule_sound_xfer}
use matar.Sound.Fifo as Fifo
use matar.Sound.Fifo.{SoundFifo}

pub record Sound : Type 0 where
  pub ch1_sweep : ℕ
  pub ch1_envelope : ℕ
  pub ch1_freq_ctrl : ℕ
  pub ch2_envelope : ℕ
  pub ch2_freq_ctrl : ℕ
  pub ch3_wave_select : ℕ
  pub ch3_len_vol : ℕ
  pub ch3_freq_ctrl : ℕ
  pub ch3_wave_pattern : ℕ → ℕ
  pub ch4_envelope : ℕ
  pub ch4_freq_ctrl : ℕ
  pub vol_ctrl : ℕ
  pub dma_ctrl : ℕ
  pub sound_on_off : ℕ
  pub sound_bias : ℕ
  pub fifo_a : SoundFifo
  pub fifo_b : SoundFifo
  pub dma_value_a : ℕ
  pub dma_value_b : ℕ
  pub sampling_rate : ℕ

abbrev pub default_sampling_rate : ℕ
default_sampling_rate = 32768

abbrev pub pwm_frequency : ℕ
pwm_frequency = 16780000

abbrev pub fifo_a_address : ℕ
fifo_a_address = 0x40000A0

abbrev pub fifo_b_address : ℕ
fifo_b_address = 0x40000A4

abbrev pub refill : ℕ → SoundFifo → Dma → ℕ → Scheduler → Scheduler
refill address fifo d at sch =
    if leb (Fifo.size fifo) 16 then schedule_sound_xfer address d at sch else sch

unfoldable pub play_a : ℕ → ℕ → Dma → Sound × Scheduler → Sound × Scheduler
play_a timer_id at d (s, sch) =
    if to_nat (flag 10 s.dma_ctrl) == timer_id
    then (
      record s { dma_value_a = (Fifo.read s.fifo_a).0; fifo_a = (Fifo.read s.fifo_a).1 },
      refill fifo_a_address (Fifo.read s.fifo_a).1 d at sch,
    )
    else (s, sch)

unfoldable pub play_b : ℕ → ℕ → Dma → Sound × Scheduler → Sound × Scheduler
play_b timer_id at d (s, sch) =
    if to_nat (flag 14 s.dma_ctrl) == timer_id
    then (
      record s { dma_value_b = (Fifo.read s.fifo_b).0; fifo_b = (Fifo.read s.fifo_b).1 },
      refill fifo_b_address (Fifo.read s.fifo_b).1 d at sch,
    )
    else (s, sch)

unfoldable pub dma_playback : ℕ → ℕ → Dma → Sound × Scheduler → Sound × Scheduler
dma_playback timer_id at d (s, sch) =
    if flag 7 s.sound_on_off then play_b timer_id at d (play_a timer_id at d (s, sch)) else (s, sch)

-- The part of `Sound::sample` that the rest of the program sees: the next sample is scheduled.
unfoldable pub schedule_sample : ℕ → Sound → Scheduler → Scheduler
schedule_sample at s = schedule_at TaskType.sample_pwm (u64 (at + pwm_frequency / s.sampling_rate))
