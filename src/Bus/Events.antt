-- ===== src/Bus/Events.antt =====
-- The tasks of the scheduler: IoDevices::scheduler_event of src/io/io.cc, and the loop of src/bus.cc that
-- handles those that are due. The cycles are words of 64 bits.
pub mod Kept
use mathlib.Core.Option.{Option, none, some}
use mathlib.Core.Option
use matar.Base.{ℕ, zero, suc, ◌^◌, Bool, true, false, leb, if◌then◌else◌}
use matar.BusApi.{CpuView}
use matar.Scheduler.{Scheduler, Task, TaskType, top, pop, get_cycles}
use matar.Timer.{Clockwork, trigger_overflow}
use matar.Display.Timing.{Screen, hblank_begin, hblank_end}
use matar.Sound.{schedule_sample}
use matar.Io.{IoDevices, Board}
use matar.Bus.{Contents}
use matar.Dma.Transfer.{start_transfer}

abbrev pub set_board : Board → Contents → Contents
set_board b s = record s { board = b }

-- The timers of a board with what they refer to, and back.
abbrev pub clockwork : Board → Clockwork
clockwork b = record {
  timers = b.io.timer;
  scheduler = b.scheduler;
  irq = b.io.system;
  sound = b.io.sound;
}

abbrev pub put_clockwork : Clockwork → Board → Board
put_clockwork c b = record b {
  io = record b.io { timer = c.timers; system = c.irq; sound = c.sound };
  scheduler = c.scheduler;
}

abbrev pub screen : Board → Screen
screen b = record { display = b.io.display; scheduler = b.scheduler; system = b.io.system }

abbrev pub put_screen : Screen → Board → Board
put_screen c b = record b {
  io = record b.io { display = c.display; system = c.system };
  scheduler = c.scheduler;
}

unfoldable pub overflow : ℕ → ℕ → Board → Board
overflow id at b = put_clockwork (trigger_overflow id at b.io.dma (clockwork b)) b

unfoldable pub begin_blank : ℕ → Board → Board
begin_blank at b = put_screen (hblank_begin at b.io.dma (screen b)) b

unfoldable pub end_blank : ℕ → Board → Board
end_blank at b = put_screen (hblank_end at b.io.dma (screen b)) b

unfoldable pub sample : ℕ → Board → Board
sample at b = record b { scheduler = schedule_sample at b.io.sound b.scheduler }

-- `none` where a transfer aborts the program.
unfoldable pub scheduler_event : CpuView → TaskType → ℕ → Contents → Option Contents
scheduler_event v TaskType.dma0_activate at s = start_transfer v 0 s
scheduler_event v TaskType.dma1_activate at s = start_transfer v 1 s
scheduler_event v TaskType.dma2_activate at s = start_transfer v 2 s
scheduler_event v TaskType.dma3_activate at s = start_transfer v 3 s
scheduler_event v TaskType.timer0_overflow at s = some (set_board (overflow 0 at s.board) s)
scheduler_event v TaskType.timer1_overflow at s = some (set_board (overflow 1 at s.board) s)
scheduler_event v TaskType.timer2_overflow at s = some (set_board (overflow 2 at s.board) s)
scheduler_event v TaskType.timer3_overflow at s = some (set_board (overflow 3 at s.board) s)
scheduler_event v TaskType.display_hdraw at s = some (set_board (end_blank at s.board) s)
scheduler_event v TaskType.display_hblank at s = some (set_board (begin_blank at s.board) s)
scheduler_event v TaskType.sample_pwm at s = some (set_board (sample at s.board) s)

unfoldable pub pop_task : Contents → Contents
pop_task s = set_board (record s.board { scheduler = pop s.board.scheduler }) s

-- The body of the loop over the tasks that are due: the task at the top is handled and then popped.
unfoldable pub handle : CpuView → Task → Contents → Option Contents
handle v t s = Option.map pop_task (scheduler_event v t.kind t.cycles s)

-- How a run of a loop ends.
pub data Outcome (A : Type 0) : Type 0 where
  done : A → Outcome A
  aborted : Outcome A
  out_of_fuel : Outcome A

-- The loop of Bus::step, which handles the tasks up to a time.
unfoldable pub handle_until : ℕ → ℕ → CpuView → Contents → Outcome Contents
handle_until zero current v s = out_of_fuel
handle_until (suc fuel) current v s = elim (top s.board.scheduler) [
  | none ↦ done s
  | some t ↦ elim (leb t.cycles current) [
    | false ↦ done s
    | true ↦ elim (handle v t s) [ none ↦ aborted | some rest ↦ handle_until fuel current v rest ]
  ]
]

unfoldable pub step : ℕ → CpuView → Contents → Outcome Contents
step fuel v s = handle_until fuel (get_cycles s.board.scheduler) v s
