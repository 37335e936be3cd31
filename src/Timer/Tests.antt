-- ===== src/Timer/Tests.antt =====
-- Runs of the timers.
use mathlib.Core.List.{Mem}
use matar.Base.{refl, arith}
use matar.Timer.{start_stop, trigger_overflow}
use matar.Timer.Cascade.{Cascades, trigger_overflow-Cascades}
use matar.Timer.Liveness.{next_overflow, trigger_overflow-next_overflow}
use matar.Samples.{channels, clockwork, timers}

trigger_overflow-Cascades_example : Cascades 0 clockwork (trigger_overflow 0 100 channels clockwork)
unfolding start_stop
trigger_overflow-Cascades_example =
    trigger_overflow-Cascades 0 100 channels clockwork (omega arith) refl

trigger_overflow-next_overflow_example :
    Mem (next_overflow 0 100 (timers 0)) (trigger_overflow 0 100 channels clockwork).scheduler.tasks
unfolding start_stop
trigger_overflow-next_overflow_example =
    trigger_overflow-next_overflow 0 100 channels clockwork refl
