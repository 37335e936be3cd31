-- ===== src/Scheduler/Kept.antt =====
-- What a write to a device may do to the scheduler of include/scheduler.hh: put tasks into its queue
-- from now on, and leave the time.
use matar.Base.{ℕ, ◌+◌, ◌^◌, ◌≤◌, ◌<◌, ◌≡◌, refl, ◌∙◌, arith, u64}
use matar.Scheduler.{Scheduler, TaskType, schedule_at}
use matar.Scheduler.Growth as Growth
use matar.Scheduler.Growth.{Grows, Grows-trans, schedule_at-Grows}

pub record IsKept (at : ℕ) (before after : Scheduler) : Type 0 where
  pub grown : Grows at before.tasks after.tasks
  pub time : after.cycles ≡ before.cycles

-- The time is not before `at`, and far from the end of its 64 bits.
pub record IsNow (at : ℕ) (s : Scheduler) : Type 0 where
  pub late : at ≤ s.cycles
  pub early : s.cycles < 2 ^ 62

pub IsKept-same : (at : ℕ) (s : Scheduler) → IsKept at s s
IsKept-same at s = record { grown = Growth.same; time = refl }

pub IsKept-trans : (at : ℕ) (s t u : Scheduler) → IsKept at s t → IsKept at t u → IsKept at s u
IsKept-trans at s t u a b = record {
  grown = Grows-trans at a.grown b.grown;
  time = b.time ∙ a.time;
}

pub IsNow-kept : (at : ℕ) (s t : Scheduler) → IsKept at s t → IsNow at s → IsNow at t
IsNow-kept at s t k n = record {
  late = omega (arith, k.time, n.late);
  early = omega (arith, k.time, n.early);
}

-- A task some cycles from now.
pub schedule_at-IsKept :
    (at : ℕ) (kind : TaskType) (later : ℕ) (s : Scheduler)
    → IsNow at s
    → later < 2 ^ 62
    → IsKept at s (schedule_at kind (u64 (s.cycles + later)) s)
schedule_at-IsKept at kind later s now h = record {
  grown = schedule_at-Grows at kind _ s (omega (arith, now.late, now.early, h));
  time = unfold schedule_at in refl;
}
