-- ===== src/Scheduler.antt =====
-- include/scheduler.hh: the queue of tasks and the count of cycles. `std::priority_queue` belongs to the
-- standard library: it is a list in order of time here, and among tasks of one time, whose order the
-- standard leaves open, the one scheduled first stands first.
pub mod Order
pub mod Permutation
pub mod Growth
pub mod Kept
mod Tests
use matar.Base.{ℕ, ◌+◌, Bool, true, false, List, [], ◌∷◌, leb, if◌then◌else◌, u64}
use mathlib.Core.Option.{Option, none, some}

pub data TaskType : Type 0 where
  dma0_activate dma1_activate dma2_activate dma3_activate : TaskType
  timer0_overflow timer1_overflow timer2_overflow timer3_overflow : TaskType
  display_hdraw display_hblank sample_pwm : TaskType

pub record Task : Type 0 where
  pub kind : TaskType
  pub cycles : ℕ

pub record Scheduler : Type 0 where
  pub tasks : List Task
  pub cycles : ℕ

-- `tasks.push`: the new task stands behind those of its time.
unfoldable pub enqueue : Task → List Task → List Task
enqueue t [] = t ∷ []
enqueue t (x ∷ rest) =
    let later = enqueue t rest in if leb x.cycles t.cycles then x ∷ later else t ∷ x ∷ rest

unfoldable pub schedule_at : TaskType → ℕ → Scheduler → Scheduler
schedule_at kind cycles s = record s {
  tasks = enqueue (record { kind = kind; cycles = cycles }) s.tasks;
}

unfoldable pub schedule_from_now : TaskType → ℕ → Scheduler → Scheduler
schedule_from_now kind cycles s = schedule_at kind (u64 (s.cycles + cycles)) s

unfoldable pub get_cycles : Scheduler → ℕ
get_cycles s = s.cycles

unfoldable pub add_cycles : ℕ → Scheduler → Scheduler
add_cycles cycles s = record s { cycles = u64 (s.cycles + cycles) }

unfoldable pub empty : Scheduler → Bool
empty s = elim s.tasks [ [] ↦ true | t ∷ rest ↦ false ]

-- `none` where the source reads the top of an empty queue, which has no defined result.
unfoldable pub top : Scheduler → Option Task
top s = elim s.tasks [ [] ↦ none | t ∷ rest ↦ some t ]

-- The rest of an empty queue is left empty; its callers test for it first.
unfoldable pub pop : Scheduler → Scheduler
pop s = record s { tasks = elim s.tasks [ [] ↦ [] | t ∷ rest ↦ rest ] }
