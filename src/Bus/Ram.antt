-- ===== src/Bus/Ram.antt =====
-- The memories behind the bus: what a read of src/bus.cc returns after a write.
use matar.Base.{ℕ, ◌^◌, ◌<◌, ◌≡◌, ◌≢◌, refl, sym, ◌∙◌, ◌+◌, ◌%◌, ltb, if◌then◌else◌, arith}
use matar.BusApi.{CpuView, CpuAccess}
use matar.Memory.ReadBack as Laws
use matar.Bus.{Contents, region, spend, spend16, spend32}
use matar.Bus.Region.{board_wram_offset, chip_wram_offset, pram_offset, oam_offset, vram_offset}
use matar.Bus.Read.{read_region, read_memory, read_halfword, read_word}
use matar.Bus.Write.{write_halfword, write_word, write_region_halfword, write_region_word}

-- The regions of memory that the program can write, and the place of an address in its memory.
pub data RamRegion : Type 0 where
  board_wram chip_wram palette video objects : RamRegion

unfoldable pub number : RamRegion → ℕ
number board_wram = 2
number chip_wram = 3
number palette = 5
number video = 6
number objects = 7

unfoldable pub offset_in : RamRegion → ℕ → ℕ
offset_in board_wram = board_wram_offset
offset_in chip_wram = chip_wram_offset
offset_in palette = pram_offset
offset_in video = vram_offset
offset_in objects = oam_offset

-- The place that an address shows, from the memory map of the console: a memory repeats at every multiple of its
-- size; video memory, of 96K, repeats at every 128K, with its last 32K twice in each.
abbrev pub shown : RamRegion → ℕ → ℕ
shown board_wram a = a % 0x40000
shown chip_wram a = a % 0x8000
shown palette a = a % 0x400
shown video a =
    let window = a % 0x20000 in if ltb window 0x10000 then window else 0x10000 + window % 0x8000
shown objects a = a % 0x400

-- Two addresses of one region that show the same place.
pub record IsMirror (r : RamRegion) (a b : ℕ) : Type 0 where
  pub first : region a ≡ number r
  pub second : region b ≡ number r
  pub place : shown r b ≡ shown r a

offset_in-shown : (r : RamRegion) (a : ℕ) → offset_in r a ≡ shown r a
unfolding offset_in vram_offset
offset_in-shown board_wram a = refl
offset_in-shown chip_wram a = refl
offset_in-shown palette a = refl
offset_in-shown video a = ground arith
offset_in-shown objects a = refl

IsMirror-offset_in : (r : RamRegion) (a b : ℕ) → IsMirror r a b → offset_in r b ≡ offset_in r a
IsMirror-offset_in r a b m = offset_in-shown r b ∙ m.place ∙ sym (offset_in-shown r a)

module _ (a b : ℕ) (v : CpuView) (x : ℕ) (written read : CpuAccess) (s : Contents) where
  -- A word written to a writable memory is read back at every address of the same region that shows the same place
  -- in the memory map of the console, its own included.
  pub read_word-write_word :
      (r : RamRegion)
      → IsMirror r a b
      → x < 2 ^ 32
      → (read_word v b read (write_word a x written s)).0 ≡ x
  unfolding read_word write_word read_region write_region_word spend32 spend number offset_in
      read_memory
  read_word-write_word board_wram m h =
      rw (m.first, m.second, IsMirror-offset_in board_wram a b m)
        (Laws.read_word-write_word _ x _ h)
  read_word-write_word chip_wram m h =
      rw (m.first, m.second, IsMirror-offset_in chip_wram a b m) (Laws.read_word-write_word _ x _ h)
  read_word-write_word palette m h =
      rw (m.first, m.second, IsMirror-offset_in palette a b m) (Laws.read_word-write_word _ x _ h)
  read_word-write_word video m h =
      rw (m.first, m.second, IsMirror-offset_in video a b m) (Laws.read_word-write_word _ x _ h)
  read_word-write_word objects m h =
      rw (m.first, m.second, IsMirror-offset_in objects a b m) (Laws.read_word-write_word _ x _ h)

  -- A halfword written to a writable memory is read back at its address and at every mirror of it.
  pub read_halfword-write_halfword :
      (r : RamRegion)
      → IsMirror r a b
      → x < 2 ^ 16
      → (read_halfword v b read (write_halfword a x written s)).0 ≡ x
  unfolding read_halfword write_halfword read_region write_region_halfword spend16 spend number
      offset_in read_memory
  read_halfword-write_halfword board_wram m h =
      rw (m.first, m.second, IsMirror-offset_in board_wram a b m)
        (Laws.read_halfword-write_halfword _ x _ h)
  read_halfword-write_halfword chip_wram m h =
      rw (m.first, m.second, IsMirror-offset_in chip_wram a b m)
        (Laws.read_halfword-write_halfword _ x _ h)
  read_halfword-write_halfword palette m h =
      rw (m.first, m.second, IsMirror-offset_in palette a b m)
        (Laws.read_halfword-write_halfword _ x _ h)
  read_halfword-write_halfword video m h =
      rw (m.first, m.second, IsMirror-offset_in video a b m)
        (Laws.read_halfword-write_halfword _ x _ h)
  read_halfword-write_halfword objects m h =
      rw (m.first, m.second, IsMirror-offset_in objects a b m)
        (Laws.read_halfword-write_halfword _ x _ h)

  -- A word written to one writable memory changes no word that is read of another.
  pub read_word-write_word_ne :
      (r q : RamRegion)
      → region a ≡ number r
      → region b ≡ number q
      → number r ≢ number q
      → (read_word v b read (write_word a x written s)).0 ≡ (read_word v b read s).0
  unfolding read_word write_word read_region write_region_word spend32 spend number offset_in
      read_memory
  read_word-write_word_ne board_wram board_wram m n ne = absurd (ne refl)
  read_word-write_word_ne board_wram chip_wram m n ne = rw (m, n) refl
  read_word-write_word_ne board_wram palette m n ne = rw (m, n) refl
  read_word-write_word_ne board_wram video m n ne = rw (m, n) refl
  read_word-write_word_ne board_wram objects m n ne = rw (m, n) refl
  read_word-write_word_ne chip_wram board_wram m n ne = rw (m, n) refl
  read_word-write_word_ne chip_wram chip_wram m n ne = absurd (ne refl)
  read_word-write_word_ne chip_wram palette m n ne = rw (m, n) refl
  read_word-write_word_ne chip_wram video m n ne = rw (m, n) refl
  read_word-write_word_ne chip_wram objects m n ne = rw (m, n) refl
  read_word-write_word_ne palette board_wram m n ne = rw (m, n) refl
  read_word-write_word_ne palette chip_wram m n ne = rw (m, n) refl
  read_word-write_word_ne palette palette m n ne = absurd (ne refl)
  read_word-write_word_ne palette video m n ne = rw (m, n) refl
  read_word-write_word_ne palette objects m n ne = rw (m, n) refl
  read_word-write_word_ne video board_wram m n ne = rw (m, n) refl
  read_word-write_word_ne video chip_wram m n ne = rw (m, n) refl
  read_word-write_word_ne video palette m n ne = rw (m, n) refl
  read_word-write_word_ne video video m n ne = absurd (ne refl)
  read_word-write_word_ne video objects m n ne = rw (m, n) refl
  read_word-write_word_ne objects board_wram m n ne = rw (m, n) refl
  read_word-write_word_ne objects chip_wram m n ne = rw (m, n) refl
  read_word-write_word_ne objects palette m n ne = rw (m, n) refl
  read_word-write_word_ne objects video m n ne = rw (m, n) refl
  read_word-write_word_ne objects objects m n ne = absurd (ne refl)
