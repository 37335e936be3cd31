-- ===== src/Bus/Run.antt =====
-- `Bus::run` of src/bus.cc: the processor of Cpu, Arm and Thumb runs over the bus up to the next task, and
-- the tasks that are due are handled.
use mathlib.Core.Option.{none, some}
use matar.Base.{ℕ, zero, suc, true, false, ltb, leb, if◌then◌else◌}
use matar.BusApi.{CpuView}
use matar.Scheduler.{Scheduler, top, get_cycles}
use matar.System.{any_irq_is_pending}
use matar.Cpu.State.{Machine, view}
use matar.Cpu.Pipeline.{irq_request}
use matar.Step as Cpu
use matar.Bus.{Contents}
use matar.Bus.Instance.{board_bus}
use matar.Bus.Events.{Outcome, done, aborted, out_of_fuel, handle}

-- The processor with its bus.
abbrev pub Console : Type 0
Console = Machine board_bus

abbrev pub clock : Console → Scheduler
clock m = m.bus.board.scheduler

-- One instruction, after the interrupt if one is pending.
unfoldable pub run_instruction : Console → Console
run_instruction m =
    Cpu.step board_bus
      (if any_irq_is_pending m.bus.board.io.system then irq_request board_bus m else m)

-- The inner loop `while (get_cycles() < scheduler.top().cycles)`. The queue is not empty when it is
-- entered, and instructions take no task from it, so its first case is not reached.
unfoldable pub run_to_task : ℕ → Console → Outcome Console
run_to_task zero m = out_of_fuel
run_to_task (suc fuel) m = elim (top (clock m)) [
  | none ↦ done m
  | some t ↦ elim (ltb (get_cycles (clock m)) t.cycles) [
    | true ↦ run_to_task fuel (run_instruction m)
    | false ↦ done m
  ]
]

-- The loop over the tasks that are due, with the time read again for each.
unfoldable pub handle_due : ℕ → CpuView → Contents → Outcome Contents
handle_due zero v s = out_of_fuel
handle_due (suc fuel) v s = elim (top s.board.scheduler) [
  | none ↦ done s
  | some t ↦ elim (leb t.cycles (get_cycles s.board.scheduler)) [
    | false ↦ done s
    | true ↦ elim (handle v t s) [ none ↦ aborted | some rest ↦ handle_due fuel v rest ]
  ]
]

-- One round of the outer loop, each inner loop on the same fuel.
unfoldable pub run_round : ℕ → Console → Outcome Console
run_round fuel m = elim (top (clock m)) [
  | none ↦ done (run_instruction m)
  | some t ↦ elim (run_to_task fuel m) [
    | done n ↦ elim (handle_due fuel (view n.cpu) n.bus) [
      | done s ↦ done (record n { bus = s })
      | aborted ↦ aborted
      | out_of_fuel ↦ out_of_fuel
    ]
    | aborted ↦ aborted
    | out_of_fuel ↦ out_of_fuel
  ]
]

unfoldable pub run : ℕ → ℕ → Console → Outcome Console
run zero until m = out_of_fuel
run (suc fuel) until m = elim (ltb (get_cycles (clock m)) until) [
  | true ↦ elim (run_round fuel m) [
    | done n ↦ run fuel until n
    | aborted ↦ aborted
    | out_of_fuel ↦ out_of_fuel
  ]
  | false ↦ done m
]
