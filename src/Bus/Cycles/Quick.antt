-- ===== src/Bus/Cycles/Quick.antt =====
-- No access takes more than 18 cycles, whatever is written to the waitstate register.
use matar.Base.{ℕ, ◌≤◌, ◌==◌, ◌||◌, arith, field, if_both}
use matar.Bus.Cycles.{
  CycleCount, CycleMap, every, make_cycle_map, update_cycle_map, rom_count, waitstate_first,
  waitstate_second, waitstate_first-le,
}

pub record IsQuick (c : CycleCount) : Type 0 where
  pub quick_n16 : c.n16 ≤ 18
  pub quick_n32 : c.n32 ≤ 18
  pub quick_s16 : c.s16 ≤ 18
  pub quick_s32 : c.s32 ≤ 18

abbrev pub IsQuickMap : CycleMap → Type 0
IsQuickMap map = (region : ℕ) → IsQuick (map region)

every-IsQuick : (n : ℕ) → n ≤ 18 → IsQuick (every n)
every-IsQuick n h = record { quick_n16 = h; quick_n32 = h; quick_s16 = h; quick_s32 = h }

waitstate_second-le : (slow i : ℕ) → 1 ≤ slow → slow ≤ 8 → waitstate_second slow i ≤ 8
unfolding waitstate_second
waitstate_second-le slow i l h = ground arith

rom_count-IsQuick : (first second : ℕ) → first ≤ 8 → second ≤ 8 → IsQuick (rom_count first second)
unfolding rom_count
rom_count-IsQuick first second h k = record {
  quick_n16 = omega arith;
  quick_n32 = omega arith;
  quick_s16 = omega arith;
  quick_s32 = omega arith;
}

window-IsQuick :
    (first slow second : ℕ)
    → 1 ≤ slow
    → slow ≤ 8
    → IsQuick (rom_count (waitstate_first first) (waitstate_second slow second))
window-IsQuick first slow second l h =
    rom_count-IsQuick _ _ (waitstate_first-le first) (waitstate_second-le slow second l h)

pub make_cycle_map-IsQuickMap : IsQuickMap make_cycle_map
unfolding make_cycle_map
make_cycle_map-IsQuickMap region =
    if_both IsQuick (region == 2) _ _
      (record {
        quick_n16 = omega arith;
        quick_n32 = omega arith;
        quick_s16 = omega arith;
        quick_s32 = omega arith;
      })
      (if_both IsQuick ((region == 5) || (region == 6) || (region == 7)) _ _
        (record {
          quick_n16 = omega arith;
          quick_n32 = omega arith;
          quick_s16 = omega arith;
          quick_s32 = omega arith;
        })
        (every-IsQuick 1 (omega arith)))

pub update_cycle_map-IsQuickMap :
    (waitcnt : ℕ) (map : CycleMap) → IsQuickMap map → IsQuickMap (update_cycle_map waitcnt map)
unfolding update_cycle_map
update_cycle_map-IsQuickMap waitcnt map h region =
    let rom0 =
      window-IsQuick (field 2 2 waitcnt) 2 (field 4 1 waitcnt) (omega arith) (omega arith) in
    let rom1 =
      window-IsQuick (field 5 2 waitcnt) 4 (field 7 1 waitcnt) (omega arith) (omega arith) in
    let rom2 =
      window-IsQuick (field 8 2 waitcnt) 8 (field 10 1 waitcnt) (omega arith) (omega arith) in
    let sram =
      every-IsQuick (waitstate_first (field 0 2 waitcnt))
        (omega (arith, waitstate_first-le (field 0 2 waitcnt))) in
    (if_both IsQuick (region == 0xD) _ _ rom2 (
      if_both IsQuick (region == 0xC) _ _ rom2 (
        if_both IsQuick (region == 0xB) _ _ rom1 (
          if_both IsQuick (region == 0xA) _ _ rom1 (
            if_both IsQuick (region == 0x9) _ _ rom0 (
              if_both IsQuick (region == 0x8) _ _ rom0
                (if_both IsQuick (region == 0xE) _ _ sram (h region))))))))
