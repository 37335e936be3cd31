-- ===== src/Dma.antt =====
-- The DMA channels: include/io/dma/dma.hh, include/io/dma/registers.hh and the part of
-- src/io/dma/dma.cc that schedules; the transfer itself, which goes through the bus, is in
-- Dma/Transfer. Messages to the log are left out.
pub mod Control
pub mod Registers
pub mod Schedule
pub mod Kept
pub mod Transfer
pub mod ReadBack
mod Tests
use matar.Base.{
  ℕ, zero, suc, ◌+◌, ◌-◌, ◌^◌, Bool, true, false, ◌&&◌, ◌==◌, if◌then◌else◌, put, u64, min,
}
use matar.Scheduler.{TaskType, Scheduler, schedule_at, schedule_from_now, get_cycles}
use matar.Dma.Control as Control
use matar.Dma.Control.{Timing, timing_number}

pub record Channel : Type 0 where
  pub timestamp : ℕ
  pub source : ℕ
  pub destination : ℕ
  pub word_count : ℕ
  pub control : ℕ

-- `channels`, by number.
abbrev pub Dma : Type 0
Dma = ℕ → Channel

-- The table `tasks`.
unfoldable pub task_of : ℕ → TaskType
task_of id =
    if id == 0
    then TaskType.dma0_activate
    else if id == 1
    then TaskType.dma1_activate
    else if id == 2
    then TaskType.dma2_activate
    else TaskType.dma3_activate

unfoldable pub write_and_eval_ctrl : ℕ → ℕ → Dma × Scheduler → Dma × Scheduler
write_and_eval_ctrl id raw (d, s) =
    let was_enabled = Control.enable (d id).control in
    let ctrl = Control.write raw in
    if Control.enable ctrl
    then (
      put d id (record (d id) { control = ctrl; timestamp = get_cycles s }),
      if was_enabled && (Control.timing ctrl == timing_number Timing.immediately)
          then schedule_from_now (task_of id) 3 s
          else s,
    )
    else (put d id (record (d id) { control = ctrl }), s)

-- The cycles of the start-up that are left. The difference is of `uint64_t`.
unfoldable pub delay : Channel → Scheduler → ℕ
delay chan s = 3 - min (u64 (get_cycles s + 2 ^ 64 - chan.timestamp)) 3

abbrev pub activate : ℕ → Channel → ℕ → Scheduler → Scheduler
activate id chan at s = schedule_at (task_of id) (u64 (delay chan s + at)) s

unfoldable pub is_notified : Timing → Channel → Bool
is_notified timing chan =
    Control.enable chan.control && (Control.timing chan.control == timing_number timing)

unfoldable pub notify_one : Timing → Dma → ℕ → ℕ → Scheduler → Scheduler
notify_one timing d at id s = if is_notified timing (d id) then activate id (d id) at s else s

-- The loop over the four channels.
unfoldable pub notify : Timing → Dma → ℕ → Scheduler → Scheduler
notify timing d at s =
    notify_one timing d at 3
      (notify_one timing d at 2 (notify_one timing d at 1 (notify_one timing d at 0 s)))

unfoldable pub sound_xfer_one : ℕ → Dma → ℕ → ℕ → Scheduler → Scheduler
sound_xfer_one fifo_addr d at id s =
    if is_notified Timing.special (d id) && ((d id).destination == fifo_addr)
    then activate id (d id) at s
    else s

-- The loop over channels 1 and 2.
unfoldable pub schedule_sound_xfer : ℕ → Dma → ℕ → Scheduler → Scheduler
schedule_sound_xfer fifo_addr d at s =
    sound_xfer_one fifo_addr d at 2 (sound_xfer_one fifo_addr d at 1 s)
