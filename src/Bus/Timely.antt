-- ===== src/Bus/Timely.antt =====
-- The time and the queue under the accesses of src/bus.cc: an access spends at most 18 cycles, and a write
-- puts tasks into the queue from the time it is made.
use matar.Base.{ℕ, suc, ◌+◌, ◌*◌, ◌^◌, ◌≤◌, ◌<◌, arith, ◌==◌, leb, if_both}
use matar.BusApi.{CpuAccess, CpuView, sequential, non_sequential}
use matar.Scheduler.{add_cycles}
use matar.Scheduler.Growth as Growth
use matar.Scheduler.Growth.{Grows, Grows-trans}
use matar.Scheduler.Kept.{IsKept-same}
use matar.Bus.Cycles.{CycleCount}
use matar.Bus.Cycles.Quick.{IsQuick, IsQuickMap}
use matar.Io.Kept.{IsReady, IsBoardKept, write_halfword-IsBoardKept, write_word-IsBoardKept}
use matar.Bus.{Contents, region, spend, cycles16, cycles32, spend16, spend32, bios_size}
use matar.Bus.Read.{Width, halfword, word, is_rom, read_bios, read_region, read_halfword, read_word}
use matar.Bus.Write.{write_region_halfword, write_region_word, write_halfword, write_word}

-- The task of time `at` is due, `k` accesses end before cycle 2 ^ 62, and every access is quick.
pub record IsTimely (at k : ℕ) (s : Contents) : Type 0 where
  pub late : at ≤ s.board.scheduler.cycles
  pub early : s.board.scheduler.cycles + 18 * k < 2 ^ 62
  pub quick : IsQuickMap s.board.cycle_map

-- A state comes from another: the queue has grown, and there is time for `k` accesses more.
pub record IsAdvanced (at k : ℕ) (before after : Contents) : Type 0 where
  pub grown : Grows at before.board.scheduler.tasks after.board.scheduler.tasks
  pub timely : IsTimely at k after

IsReady-timely : (at k : ℕ) (s : Contents) → IsTimely at k s → IsReady at s.board
IsReady-timely at k s t = record {
  now = record { late = t.late; early = omega (arith, t.early) };
  quick = t.quick;
}

IsAdvanced-kept :
    (at k : ℕ) (s t : Contents)
    → IsTimely at k s
    → IsBoardKept at s.board t.board
    → IsAdvanced at k s t
IsAdvanced-kept at k s t timely b = record {
  grown = b.kept.grown;
  timely = record {
    late = omega (arith, timely.late, b.kept.time);
    early = omega (arith, timely.early, b.kept.time);
    quick = b.quick;
  };
}

pub IsAdvanced-trans :
    (at j k : ℕ) (s t u : Contents)
    → IsAdvanced at j s t
    → IsAdvanced at k t u
    → IsAdvanced at k s u
IsAdvanced-trans at j k s t u a b = record {
  grown = Grows-trans at a.grown b.grown;
  timely = b.timely;
}

spend-IsAdvanced :
    (at k cycles : ℕ) (s : Contents)
    → cycles ≤ 18
    → IsTimely at (suc k) s
    → IsAdvanced at k s (spend cycles s)
unfolding spend add_cycles
spend-IsAdvanced at k cycles s h t = record {
  grown = Growth.same;
  timely = record {
    late = omega (arith, h, t.late, t.early);
    early = omega (arith, h, t.late, t.early);
    quick = t.quick;
  };
}

cycles16-le : (access : CpuAccess) (c : CycleCount) → IsQuick c → cycles16 access c ≤ 18
unfolding cycles16
cycles16-le sequential c q = q.quick_s16
cycles16-le non_sequential c q = q.quick_n16

cycles32-le : (access : CpuAccess) (c : CycleCount) → IsQuick c → cycles32 access c ≤ 18
unfolding cycles32
cycles32-le sequential c q = q.quick_s32
cycles32-le non_sequential c q = q.quick_n32

module _ (at k address : ℕ) (access : CpuAccess) (s : Contents) (t : IsTimely at (suc k) s) where
  spend16-IsAdvanced : IsAdvanced at k s (spend16 address access s)
  unfolding spend16
  spend16-IsAdvanced = spend-IsAdvanced at k _ s (cycles16-le access _ (t.quick (region address))) t

  spend32-IsAdvanced : IsAdvanced at k s (spend32 address access s)
  unfolding spend32
  spend32-IsAdvanced = spend-IsAdvanced at k _ s (cycles32-le access _ (t.quick (region address))) t

-- A read leaves the devices, and a write goes to them at the I/O addresses only.
module _ (at : ℕ) (s : Contents) (r : IsReady at s.board) where
  abbrev Kept : Contents → Type 0
  Kept t = IsBoardKept at s.board t.board

  read_region-Kept : (w : Width) (v : CpuView) (address : ℕ) → Kept (read_region w v address s).1
  unfolding read_region read_bios
  read_region-Kept w v address =
      let P = λ (x : ℕ × Contents). Kept x.1 in
      let still : Kept s = record { kept = IsKept-same at s.board.scheduler; quick = r.quick } in
      if_both P (region address == 0) _ _
        (if_both P (leb bios_size address) _ _ still (
          if_both P (leb bios_size v.program_counter) _ _ still
            (record { kept = still.kept; quick = r.quick })))
        still

  write_region_word-Kept : (address x : ℕ) → Kept (write_region_word address x s)
  unfolding write_region_word
  write_region_word-Kept address x =
      let k = IsKept-same at s.board.scheduler in
      if_both Kept (region address == 2) _ _ (record { kept = k; quick = r.quick })
        (if_both Kept (region address == 3) _ _ (record { kept = k; quick = r.quick })
          (if_both Kept (region address == 4) _ _ (write_word-IsBoardKept at _ x s.board r) (
            if_both Kept (region address == 5) _ _ (record { kept = k; quick = r.quick })
              (if_both Kept (region address == 6) _ _ (record { kept = k; quick = r.quick })
                (if_both Kept (region address == 7) _ _ (record { kept = k; quick = r.quick })
                  (if_both Kept (is_rom (region address)) _ _ (record { kept = k; quick = r.quick })
                    (record { kept = k; quick = r.quick })))))))

  write_region_halfword-Kept : (address x : ℕ) → Kept (write_region_halfword address x s)
  unfolding write_region_halfword
  write_region_halfword-Kept address x =
      let k = IsKept-same at s.board.scheduler in
      if_both Kept (region address == 2) _ _ (record { kept = k; quick = r.quick })
        (if_both Kept (region address == 3) _ _ (record { kept = k; quick = r.quick })
          (if_both Kept (region address == 4) _ _ (write_halfword-IsBoardKept at _ x s.board r) (
            if_both Kept (region address == 5) _ _ (record { kept = k; quick = r.quick })
              (if_both Kept (region address == 6) _ _ (record { kept = k; quick = r.quick })
                (if_both Kept (region address == 7) _ _ (record { kept = k; quick = r.quick })
                  (if_both Kept (is_rom (region address)) _ _ (record { kept = k; quick = r.quick })
                    (record { kept = k; quick = r.quick })))))))

module _ (at k address : ℕ) (access : CpuAccess) (s : Contents) (t : IsTimely at (suc k) s) where
  pub read_word-IsAdvanced : (v : CpuView) → IsAdvanced at k s (read_word v address access s).1
  unfolding read_word
  read_word-IsAdvanced v =
      let spent = spend32-IsAdvanced at k address access s t in
      let u = spend32 address access s in
      IsAdvanced-trans at k k s u _ spent (
        IsAdvanced-kept at k u _ spent.timely
          (read_region-Kept at u (IsReady-timely at k u spent.timely) word v address))

  pub read_halfword-IsAdvanced :
      (v : CpuView) → IsAdvanced at k s (read_halfword v address access s).1
  unfolding read_halfword
  read_halfword-IsAdvanced v =
      let spent = spend16-IsAdvanced at k address access s t in
      let u = spend16 address access s in
      IsAdvanced-trans at k k s u _ spent (
        IsAdvanced-kept at k u _ spent.timely
          (read_region-Kept at u (IsReady-timely at k u spent.timely) halfword v address))

  pub write_word-IsAdvanced : (x : ℕ) → IsAdvanced at k s (write_word address x access s)
  unfolding write_word
  write_word-IsAdvanced x =
      let spent = spend32-IsAdvanced at k address access s t in
      let u = spend32 address access s in
      IsAdvanced-trans at k k s u _ spent (
        IsAdvanced-kept at k u _ spent.timely
          (write_region_word-Kept at u (IsReady-timely at k u spent.timely) address x))

  pub write_halfword-IsAdvanced : (x : ℕ) → IsAdvanced at k s (write_halfword address x access s)
  unfolding write_halfword
  write_halfword-IsAdvanced x =
      let spent = spend16-IsAdvanced at k address access s t in
      let u = spend16 address access s in
      IsAdvanced-trans at k k s u _ spent (
        IsAdvanced-kept at k u _ spent.timely
          (write_region_halfword-Kept at u (IsReady-timely at k u spent.timely) address x))
