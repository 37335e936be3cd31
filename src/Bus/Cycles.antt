-- ===== src/Bus/Cycles.antt =====
-- The cycles of an access, by region and kind: CycleCount of include/bus.hh, make_cycle_map and
-- update_cycle_map of src/bus.cc.
pub mod Quick
use matar.Base.{ℕ, ◌+◌, ◌*◌, ◌≤◌, ◌<◌, ◌≡◌, refl, ◌||◌, ◌==◌, if◌then◌else◌, arith, field, put}

pub record CycleCount : Type 0 where
  pub n16 : ℕ
  pub n32 : ℕ
  pub s16 : ℕ
  pub s32 : ℕ

abbrev pub CycleMap : Type 0
CycleMap = ℕ → CycleCount

abbrev pub every : ℕ → CycleCount
every n = record { n16 = n; n32 = n; s16 = n; s32 = n }

-- The regions 5, 6 and 7 are palette, video and object memory; 2 is the work memory on the board.
unfoldable pub make_cycle_map : CycleMap
make_cycle_map region =
    if region == 2
    then record { n16 = 3; n32 = 6; s16 = 3; s32 = 6 }
    else if (region == 5) || (region == 6) || (region == 7)
    then record { n16 = 1; n32 = 2; s16 = 1; s32 = 2 }
    else every 1

-- The four tables of update_cycle_map.
unfoldable pub waitstate_first : ℕ → ℕ
waitstate_first i = if i == 0 then 4 else if i == 1 then 3 else if i == 2 then 2 else 8

unfoldable pub waitstate_second : ℕ → ℕ → ℕ
waitstate_second slow i = if i == 0 then slow else 1

-- The count of a window of the cartridge, from its first and its second waitstate.
unfoldable pub rom_count : ℕ → ℕ → CycleCount
rom_count first second = record {
  n16 = 1 + first;
  n32 = (1 + first) + (1 + second);
  s16 = 1 + second;
  s32 = (1 + second) + (1 + second);
}

-- The register is WaitstateControl of include/io/system/registers.hh, as its 16 bits.
unfoldable pub update_cycle_map : ℕ → CycleMap → CycleMap
update_cycle_map waitcnt map =
    let sram = every (waitstate_first (field 0 2 waitcnt)) in
    let rom0 =
      rom_count (waitstate_first (field 2 2 waitcnt)) (waitstate_second 2 (field 4 1 waitcnt)) in
    let rom1 =
      rom_count (waitstate_first (field 5 2 waitcnt)) (waitstate_second 4 (field 7 1 waitcnt)) in
    let rom2 =
      rom_count (waitstate_first (field 8 2 waitcnt)) (waitstate_second 8 (field 10 1 waitcnt)) in
    put
      (put (put (put (put (put (put map 0xE sram) 0x8 rom0) 0x9 rom0) 0xA rom1) 0xB rom1) 0xC rom2)
      0xD rom2

-- What the two waitstates of a window of the cartridge cost.
pub record IsRomCount (first second : ℕ) (c : CycleCount) : Type 0 where
  pub single : (c.n16 ≡ first + 1) × (c.s16 ≡ second + 1)
  pub double : (c.n32 ≡ c.n16 + c.s16) × (c.s32 ≡ 2 * c.s16)
  pub ordered : (2 ≤ c.s16) × (c.s32 ≤ 18) × (c.n32 ≤ 18)

-- The windows of the cartridge after a write of the waitstate register, two regions to a window.
pub record IsUpdated (waitcnt : ℕ) (before after : CycleMap) : Type 0 where
  pub window0 :
      IsRomCount
        (waitstate_first (field 2 2 waitcnt))
        (waitstate_second 2 (field 4 1 waitcnt))
        (after 8)
  pub window1 :
      IsRomCount
        (waitstate_first (field 5 2 waitcnt))
        (waitstate_second 4 (field 7 1 waitcnt))
        (after 0xA)
  pub window2 :
      IsRomCount
        (waitstate_first (field 8 2 waitcnt))
        (waitstate_second 8 (field 10 1 waitcnt))
        (after 0xC)
  pub mirrors : (after 9 ≡ after 8) × (after 0xB ≡ after 0xA) × (after 0xD ≡ after 0xC)
  pub others : (region : ℕ) → region < 8 → after region ≡ before region

rom_count-IsRomCount :
    (first slow i : ℕ)
    → first ≤ 8
    → 1 ≤ slow
    → slow ≤ 8
    → IsRomCount first (waitstate_second slow i) (rom_count first (waitstate_second slow i))
unfolding rom_count waitstate_second
rom_count-IsRomCount first slow i h l u = ground arith

pub waitstate_first-le : (i : ℕ) → waitstate_first i ≤ 8
unfolding waitstate_first
waitstate_first-le i = ground arith

-- A write of the waitstate register gives each window of the cartridge, in both of its regions, the cycles of its two waitstates: an access of a word is one of two halfwords, the second in sequence; the regions below the cartridge keep theirs.
pub update_cycle_map-IsUpdated :
    (waitcnt : ℕ) (map : CycleMap) → IsUpdated waitcnt map (update_cycle_map waitcnt map)
unfolding update_cycle_map
update_cycle_map-IsUpdated waitcnt map = record {
  window0 = rom_count-IsRomCount _ 2 _ (waitstate_first-le _) (omega arith) (omega arith);
  window1 = rom_count-IsRomCount _ 4 _ (waitstate_first-le _) (omega arith) (omega arith);
  window2 = rom_count-IsRomCount _ 8 _ (waitstate_first-le _) (omega arith) (omega arith);
  mirrors = (refl, refl, refl);
  others = λ region h. ground arith;
}
