-- ===== src/Scheduler/Order.antt =====
-- The order of the queue of include/scheduler.hh.
use matar.Base.{ℕ, ◌≤◌, List, [], ◌∷◌, arith}
use matar.Scheduler.{Task, TaskType, Scheduler, enqueue, schedule_at}

-- No task of a list comes before a time.
unfoldable pub IsFrom : ℕ → List Task → Type 0
IsFrom n [] = Unit
IsFrom n (t ∷ rest) = (n ≤ t.cycles) × IsFrom n rest

-- The tasks stand in order of time.
unfoldable pub IsOrdered : List Task → Type 0
IsOrdered [] = Unit
IsOrdered (t ∷ rest) = IsFrom t.cycles rest × IsOrdered rest

IsFrom-trans : (n m : ℕ) (ts : List Task) → n ≤ m → IsFrom m ts → IsFrom n ts
unfolding IsFrom
IsFrom-trans n m [] h f = tt
IsFrom-trans n m (t ∷ rest) h f = (omega (arith, f.0), IsFrom-trans n m rest h f.1)

pub enqueue-IsFrom :
    (n : ℕ) (t : Task) (ts : List Task) → n ≤ t.cycles → IsFrom n ts → IsFrom n (enqueue t ts)
unfolding IsFrom enqueue
enqueue-IsFrom n t [] h f = (h, tt)
enqueue-IsFrom n t (x ∷ rest) h f = ground (arith, enqueue-IsFrom n t rest h f.1)

pub enqueue-IsOrdered : (t : Task) (ts : List Task) → IsOrdered ts → IsOrdered (enqueue t ts)
unfolding IsOrdered IsFrom enqueue
enqueue-IsOrdered t [] o = (tt, tt)
enqueue-IsOrdered t (x ∷ rest) o = ground (
  arith,
  enqueue-IsOrdered t rest o.1,
  enqueue-IsFrom x.cycles t rest,
  IsFrom-trans t.cycles x.cycles rest,
)

-- Scheduling a task into a queue in order of time leaves it in order of time.
pub schedule_at-IsOrdered :
    (kind : TaskType) (cycles : ℕ) (s : Scheduler)
    → IsOrdered s.tasks
    → IsOrdered (schedule_at kind cycles s).tasks
unfolding schedule_at
schedule_at-IsOrdered kind cycles s o =
    enqueue-IsOrdered (record { kind = kind; cycles = cycles }) s.tasks o
