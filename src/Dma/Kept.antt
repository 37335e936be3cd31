-- ===== src/Dma/Kept.antt =====
-- What a write to the registers of the DMA does to the queue: src/io/dma/dma.cc, src/io/dma/registers.cc.
use matar.Base.{ℕ, ◌&&◌, ◌==◌, arith, if_both}
use matar.Scheduler.{Scheduler, schedule_from_now}
use matar.Scheduler.Kept.{IsKept, IsNow, IsKept-same, schedule_at-IsKept}
use matar.Dma.{Dma, task_of, write_and_eval_ctrl}
use matar.Dma.Control as Control
use matar.Dma.Control.{Timing, timing_number}
use matar.Dma.Registers.{write_halfword}

module _ (at : ℕ) {s : Scheduler} (now : IsNow at s) where
  abbrev P : Dma × Scheduler → Type 0
  P r = IsKept at s r.1

  abbrev Q : Scheduler → Type 0
  Q r = IsKept at s r

  write_and_eval_ctrl-IsKept :
      (id raw : ℕ) (d : Dma) → IsKept at s (write_and_eval_ctrl id raw (d, s)).1
  unfolding write_and_eval_ctrl schedule_from_now
  write_and_eval_ctrl-IsKept id raw d =
      if_both P (Control.enable (Control.write raw)) _ _
        (if_both Q
          (Control.enable (d id).control
            && (Control.timing (Control.write raw) == timing_number Timing.immediately))
          _ _ (schedule_at-IsKept at (task_of id) 3 s now (omega arith)) (IsKept-same at s))
        (IsKept-same at s)

  pub write_halfword-IsKept :
      (address halfword : ℕ) (d : Dma) → IsKept at s (write_halfword address halfword (d, s)).1
  unfolding write_halfword
  write_halfword-IsKept address halfword d =
      let same = IsKept-same at s in
      (if_both P (address == 0x40000BA) _ _ (write_and_eval_ctrl-IsKept 0 halfword d) (
        if_both P (address == 0x40000C6) _ _ (write_and_eval_ctrl-IsKept 1 halfword d) (
          if_both P (address == 0x40000D2) _ _ (write_and_eval_ctrl-IsKept 2 halfword d) (
            if_both P (address == 0x40000DE) _ _ (write_and_eval_ctrl-IsKept 3 halfword d) (
              if_both P (address == 0x40000B0) _ _ same (
                if_both P (address == 0x40000B2) _ _ same (
                  if_both P (address == 0x40000B4) _ _ same (
                    if_both P (address == 0x40000B6) _ _ same (
                      if_both P (address == 0x40000B8) _ _ same (
                        if_both P (address == 0x40000BC) _ _ same (
                          if_both P (address == 0x40000BE) _ _ same (
                            if_both P (address == 0x40000C0) _ _ same (
                              if_both P (address == 0x40000C2) _ _ same (
                                if_both P (address == 0x40000C4) _ _ same (
                                  if_both P (address == 0x40000C8) _ _ same (
                                    if_both P (address == 0x40000CA) _ _ same (
                                      if_both P (address == 0x40000CC) _ _ same (
                                        if_both P (address == 0x40000CE) _ _ same (
                                          if_both P (address == 0x40000D0) _ _ same (
                                            if_both P (address == 0x40000D4) _ _ same (
                                              if_both P (address == 0x40000D6) _ _ same (
                                                if_both P (address == 0x40000D8) _ _ same (
                                                  if_both P (address == 0x40000DA) _ _ same (
                                                    if_both P (address == 0x40000DC) _ _ same
                                                      same))))))))))))))))))))))))
