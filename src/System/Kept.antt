-- ===== src/System/Kept.antt =====
-- What a write to the system registers does to the cycle map: src/io/system/registers.cc.
use matar.Base.{ℕ, ◌==◌, if_both}
use matar.Bus.Cycles.{CycleMap}
use matar.Bus.Cycles.Quick.{IsQuickMap, update_cycle_map-IsQuickMap}
use matar.System.{System, write_halfword}

pub write_halfword-IsQuickMap :
    (address halfword : ℕ) (s : System) (map : CycleMap)
    → IsQuickMap map
    → IsQuickMap (write_halfword address halfword (s, map)).1
unfolding write_halfword
write_halfword-IsQuickMap address halfword s map h =
    let P = λ (r : System × CycleMap). IsQuickMap r.1 in
    (if_both P (address == 0x4000200) _ _ h (
      if_both P (address == 0x4000202) _ _ h (
        if_both P (address == 0x4000204) _ _ (update_cycle_map-IsQuickMap halfword map h) (
          if_both P (address == 0x4000208) _ _ h
            (if_both P (address == 0x4000300) _ _ h (if_both P (address == 0x4000301) _ _ h h))))))
