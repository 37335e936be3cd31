-- ===== src/Io/Kept.antt =====
-- What an I/O write does to the queue and the cycle map: src/io/io.cc.
use matar.Base.{ℕ, ◌+◌, ◌%◌, ◌^◌, ◌==◌, ◌||◌, if_both, u32, ◌>>>◌}
use matar.Scheduler.Kept.{IsKept, IsNow, IsKept-same, IsKept-trans, IsNow-kept}
use matar.Bus.Cycles.Quick.{IsQuickMap}
use matar.System.Kept as SystemKept
use matar.Dma.Kept as DmaKept
use matar.Timer.Kept as TimerKept
use matar.Io.{
  Board, page, is_display, is_sound, is_dma, write_display, write_sound, write_dma, write_timer,
  write_system, write_halfword, write_byte, write_word,
}

-- The time is right for a task of time `at`, and every access is quick.
pub record IsReady (at : ℕ) (b : Board) : Type 0 where
  pub now : IsNow at b.scheduler
  pub quick : IsQuickMap b.cycle_map

pub record IsBoardKept (at : ℕ) (before after : Board) : Type 0 where
  pub kept : IsKept at before.scheduler after.scheduler
  pub quick : IsQuickMap after.cycle_map

pub IsReady-kept : (at : ℕ) (a b : Board) → IsBoardKept at a b → IsReady at a → IsReady at b
IsReady-kept at a b k r = record { now = IsNow-kept at _ _ k.kept r.now; quick = k.quick }

module _ (at : ℕ) where
  pub write_halfword-IsBoardKept :
      (address halfword : ℕ) (b : Board)
      → IsReady at b
      → IsBoardKept at b (write_halfword address halfword b)
  unfolding write_halfword write_display write_sound write_dma write_timer write_system
  write_halfword-IsBoardKept address halfword b r =
      let P = IsBoardKept at b in
      let still = IsKept-same at b.scheduler in
      if_both P (is_display (page address)) _ _ (record { kept = still; quick = r.quick })
        (if_both P (is_sound (page address)) _ _ (record { kept = still; quick = r.quick })
          (if_both P (is_dma (page address)) _ _
            (record {
              kept = DmaKept.write_halfword-IsKept at r.now address halfword b.io.dma;
              quick = r.quick;
            })
            (if_both P (page address == 0x100) _ _
              (record {
                kept = TimerKept.write_halfword-IsKept at r.now address halfword b.io.timer;
                quick = r.quick;
              })
              (if_both P ((page address == 0x200) || (page address == 0x300)) _ _
                (record {
                  kept = IsKept-same at b.scheduler;
                  quick =
                      SystemKept.write_halfword-IsQuickMap address halfword b.io.system b.cycle_map
                        r.quick;
                })
                (record { kept = still; quick = r.quick })))))

  pub write_byte-IsBoardKept :
      (address byte : ℕ) (b : Board) → IsReady at b → IsBoardKept at b (write_byte address byte b)
  unfolding write_byte
  write_byte-IsBoardKept address byte b r =
      if_both (IsBoardKept at b) (address % 2 == 1) _ _ (write_halfword-IsBoardKept _ _ b r)
        (write_halfword-IsBoardKept _ _ b r)

  pub write_word-IsBoardKept :
      (address word : ℕ) (b : Board) → IsReady at b → IsBoardKept at b (write_word address word b)
  unfolding write_word
  write_word-IsBoardKept address word b r =
      let first = write_halfword-IsBoardKept address (word % 2 ^ 16) b r in
      let second =
        write_halfword-IsBoardKept (u32 (address + 2)) ((word >>> 16) % 2 ^ 16) _
          (IsReady-kept at b _ first r) in
      record { kept = IsKept-trans at _ _ _ first.kept second.kept; quick = second.quick }
