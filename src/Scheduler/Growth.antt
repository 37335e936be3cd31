-- ===== src/Scheduler/Growth.antt =====
-- Scheduling into the queue of include/scheduler.hh from some time on: a task that is being handled
-- stays at the top, and the order is kept.
use mathlib.Core.List.{Mem, mem-cons_self, mem-cons_of_mem}
use mathlib.Core.List.Perm
use matar.Base.{ℕ, ◌≤◌, ◌≡◌, refl, ◌∙◌, Bool, true, false, List, ◌∷◌, arith, ap, if◌then◌else◌}
use matar.Scheduler.{Task, TaskType, Scheduler, enqueue, schedule_at}
use matar.Scheduler.Order.{IsOrdered, enqueue-IsOrdered}
use matar.Scheduler.Permutation.{enqueue-perm}

-- A queue comes from another by scheduling tasks at a time or later.
pub data Grows (n : ℕ) (before : List Task) : List Task → Type 0 where
  same : Grows n before before
  more :
      {after : List Task} (t : Task)
      → Grows n before after
      → n ≤ t.cycles
      → Grows n before (enqueue t after)

pub Grows-trans : (n : ℕ) {a b c : List Task} → Grows n a b → Grows n b c → Grows n a c
Grows-trans n g same = g
Grows-trans n g (more t h le) = more t (Grows-trans n g h) le

-- Growth from a time is growth from an earlier one.
pub Grows-from_earlier : (n m : ℕ) {a b : List Task} → n ≤ m → Grows m a b → Grows n a b
Grows-from_earlier n m h same = same
Grows-from_earlier n m h (more t g le) = more t (Grows-from_earlier n m h g) (omega (arith, h, le))

pub schedule_at-Grows :
    (n : ℕ) (kind : TaskType) (cycles : ℕ) (s : Scheduler)
    → n ≤ cycles
    → Grows n s.tasks (schedule_at kind cycles s).tasks
unfolding schedule_at
schedule_at-Grows n kind cycles s h = more (record { kind = kind; cycles = cycles }) same h

-- A test between scheduling and not.
pub Grows-if :
    (n : ℕ) (a : List Task) (test : Bool) (x y : Scheduler)
    → Grows n a x.tasks
    → Grows n a y.tasks
    → Grows n a (if test then x else y).tasks
Grows-if n a true x y hx hy = hx
Grows-if n a false x y hx hy = hy

pub Grows-IsOrdered : (n : ℕ) {a b : List Task} → Grows n a b → IsOrdered a → IsOrdered b
Grows-IsOrdered n same o = o
Grows-IsOrdered n (more t g le) o = enqueue-IsOrdered t _ (Grows-IsOrdered n g o)

-- What an earlier task at the top becomes: it stays there, and the rest grows.
pub record TopStays (n : ℕ) (x : Task) (rest after : List Task) : Type 0 where
  pub others : List Task
  pub top_kept : after ≡ x ∷ others
  pub others_grow : Grows n rest others

enqueue_behind :
    (t x : Task) (rest : List Task)
    → x.cycles ≤ t.cycles
    → enqueue t (x ∷ rest) ≡ x ∷ enqueue t rest
unfolding enqueue
enqueue_behind t x rest h = ground arith

pub Grows-TopStays :
    (n : ℕ) (x : Task) (rest : List Task) {after : List Task}
    → x.cycles ≤ n
    → Grows n (x ∷ rest) after
    → TopStays n x rest after
Grows-TopStays n x rest h same = record { others = rest; top_kept = refl; others_grow = same }
Grows-TopStays n x rest h (more t g le) =
    let before = Grows-TopStays n x rest h g in
    record {
      others = enqueue t before.others;
      top_kept =
          ap (enqueue t) before.top_kept ∙ enqueue_behind t x before.others (omega (arith, h, le));
      others_grow = more t before.others_grow le;
    }

-- No task is lost.
pub Grows-mem : (n : ℕ) {a b : List Task} (t : Task) → Grows n a b → Mem t a → Mem t b
Grows-mem n t same m = m
Grows-mem n t (more u g le) m =
    (Perm.mem_iff (enqueue-perm u _)).1 (mem-cons_of_mem u (Grows-mem n t g m))

-- A scheduled task is in the queue.
pub schedule_at-mem :
    (kind : TaskType) (cycles : ℕ) (s : Scheduler)
    → Mem (record { kind = kind; cycles = cycles }) (schedule_at kind cycles s).tasks
unfolding schedule_at
schedule_at-mem kind cycles s = (Perm.mem_iff (enqueue-perm _ s.tasks)).1 mem-cons_self
