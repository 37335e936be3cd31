-- ===== src/Scheduler/Permutation.antt =====
-- What the queue of include/scheduler.hh holds: scheduling adds a task and loses none.
use mathlib.Core.List.{Perm, Mem, forall_mem-cons, not-mem-nil}
use mathlib.Core.List.Perm
use native.Mathlib.Bridge.{le_prop}
use mathlib.Core.Option.{some, some-injective}
use matar.Base.{ℕ, ◌≤◌, ◌≡◌, ap, List, [], ◌∷◌, leb, arith, inl, inr, Bool-cases}
use matar.Scheduler.{Task, Scheduler, enqueue, top, pop}
use matar.Scheduler.Order.{IsFrom, IsOrdered}

pub enqueue-perm : (t : Task) (ts : List Task) → Perm (enqueue t ts) (t ∷ ts)
unfolding enqueue
enqueue-perm t [] = Perm.refl (t ∷ [])
enqueue-perm t (x ∷ rest) = elim (Bool-cases (leb x.cycles t.cycles)) [
  | inl e ↦ rw e (Perm.trans (Perm.cons x (enqueue-perm t rest)) (Perm.swap t x rest))
  | inr e ↦ rw e (Perm.refl (t ∷ x ∷ rest))
]

IsFrom-mem : (n : ℕ) (ts : List Task) → IsFrom n ts → (t : Task) → Mem t ts → n ≤ t.cycles
unfolding IsFrom
IsFrom-mem n [] f = λ t m. absurd (not-mem-nil m)
IsFrom-mem n (x ∷ rest) f = (forall_mem-cons λ t. le_prop).1 (f.0, IsFrom-mem n rest f.1)

-- What the top of a queue is: the queue holds it and the rest that pop leaves, no task that it
-- holds comes earlier, and the rest is in order of time.
pub record TopIsNext (s : Scheduler) (t : Task) : Type 0 where
  pub held : s.tasks ≡ t ∷ (pop s).tasks
  pub earliest : (u : Task) → Mem u s.tasks → t.cycles ≤ u.cycles
  pub ordered : IsOrdered (pop s).tasks

abbrev queue_of : ℕ → List Task → Scheduler
queue_of now ts = record { tasks = ts; cycles = now }

top_of :
    (now : ℕ) (ts : List Task) (t : Task)
    → IsOrdered ts
    → top (queue_of now ts) ≡ some t
    → TopIsNext (queue_of now ts) t
unfolding top pop IsOrdered IsFrom
top_of now [] t o e = cc
top_of now (x ∷ rest) t o e =
    let same : x ≡ t = some-injective x t e in
    let time : x.cycles ≡ t.cycles = ap (λ (y : Task). y.cycles) same in
    record {
      held = ap (λ (y : Task). y ∷ rest) same;
      earliest = λ u m. omega (arith, time, IsFrom-mem x.cycles (x ∷ rest) (omega arith, o.0) u m);
      ordered = o.1;
    }

-- The top of a queue in order of time is a task that no other precedes, and pop removes it and keeps the rest in order.
pub top-TopIsNext : (s : Scheduler) (t : Task) → IsOrdered s.tasks → top s ≡ some t → TopIsNext s t
top-TopIsNext s t o e = top_of s.cycles s.tasks t o e
