-- ===== src/Bus/Events/Kept.antt =====
-- The loop of src/bus.cc pops a task only after it has been handled, when handling it may have scheduled
-- others: the one that is popped is the one that was handled.
use mathlib.Core.Option.{Option, none, some, some-injective}
use mathlib.Core.Option
use matar.Base.{◌≢◌, ℕ, ◌≡◌, List}
use matar.BusApi.{CpuView}
use matar.Scheduler.{Scheduler, Task}
use matar.Scheduler.Order.{IsOrdered}
use matar.Scheduler.Growth.{Grows}
use matar.Bus.{Contents}
use matar.Bus.Timely.{IsTimely}
use matar.Dma.Control as Control
use matar.Dma.Transfer.{chan, start_transfer}
use matar.Dma.Transfer.Timely.{transfer_accesses, start_transfer-IsTransferred}

abbrev queue : Contents → List Task
queue s = s.board.scheduler.tasks

pub record Handled (at : ℕ) (s : Contents) (o : Option Contents) : Type 0 where
  pub result : Contents
  pub returned : o ≡ some result
  pub grown : Grows at (queue s) (queue result)

-- No channel has the source control that a transfer aborts on.
abbrev pub NoAbort : Contents → Type 0
NoAbort s = (id : ℕ) → Control.src_ctrl (chan id s).control ≢ 3

module _ (v : CpuView) (at : ℕ) (s : Contents) (t : IsTimely at transfer_accesses s) where
  transfer : (id : ℕ) → NoAbort s → Handled at s (start_transfer v id s)
  transfer id safe =
      let done = start_transfer-IsTransferred at v id s t (safe id) in
      record { result = done.result; returned = done.returned; grown = done.grown }

-- What is left when the task at the top has been handled: the other tasks, with what handling it has scheduled, none of it earlier than the task, in order of time.
pub record IsLeft (t : Task) (rest : List Task) (o : Option Contents) : Type 0 where
  pub result : Contents
  pub returned : o ≡ some result
  pub others : Grows t.cycles rest (queue result)
  pub ordered : IsOrdered (queue result)
