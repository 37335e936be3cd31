-- ===== src/Scheduler/Tests.antt =====
-- Runs of the scheduler.
use matar.Base.{◌≡◌, refl}
use mathlib.Core.Option.{some}
use matar.Scheduler.{TaskType, schedule_at, top, enqueue}
use matar.Samples.{task, clock}

tie_stays_first :
    top (schedule_at TaskType.dma0_activate 100 clock) ≡ some (task TaskType.timer0_overflow 100)
unfolding top schedule_at enqueue
tie_stays_first = refl

earlier_comes_first :
    top (schedule_at TaskType.dma0_activate 99 clock) ≡ some (task TaskType.dma0_activate 99)
unfolding top schedule_at enqueue
earlier_comes_first = refl
