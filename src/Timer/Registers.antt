-- ===== src/Timer/Registers.antt =====
-- The registers of the timers: src/io/timer/registers.cc.
use matar.Base.{ℕ, ◌==◌, if◌then◌else◌, put}
use matar.Scheduler.{Scheduler}
use matar.Timer.{Timer, write_and_eval_ctrl}

unfoldable pub read_halfword : ℕ → Timer → ℕ
read_halfword address t =
    if address == 0x4000100
    then (t 0).counter
    else if address == 0x4000102
    then (t 0).control
    else if address == 0x4000104
    then (t 1).counter
    else if address == 0x4000106
    then (t 1).control
    else if address == 0x4000108
    then (t 2).counter
    else if address == 0x400010A
    then (t 2).control
    else if address == 0x400010C
    then (t 3).counter
    else if address == 0x400010E
    then (t 3).control
    else 0xFFFF

unfoldable pub write_halfword : ℕ → ℕ → Timer × Scheduler → Timer × Scheduler
write_halfword address halfword (t, s) =
    if address == 0x4000100
    then (put t 0 (record (t 0) { reload = halfword }), s)
    else if address == 0x4000102
    then write_and_eval_ctrl 0 halfword (t, s)
    else if address == 0x4000104
    then (put t 1 (record (t 1) { reload = halfword }), s)
    else if address == 0x4000106
    then write_and_eval_ctrl 1 halfword (t, s)
    else if address == 0x4000108
    then (put t 2 (record (t 2) { reload = halfword }), s)
    else if address == 0x400010A
    then write_and_eval_ctrl 2 halfword (t, s)
    else if address == 0x400010C
    then (put t 3 (record (t 3) { reload = halfword }), s)
    else if address == 0x400010E
    then write_and_eval_ctrl 3 halfword (t, s)
    else (t, s)
