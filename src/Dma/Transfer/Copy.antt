-- ===== src/Dma/Transfer/Copy.antt =====
-- What a transfer of words from the board's work memory to the chip's copies: src/io/dma/dma.cc over src/bus.cc.
use mathlib.Core.Option.{some}
use matar.Base.{
  ℕ, zero, suc, ◌+◌, ◌*◌, ◌%◌, ◌^◌, ◌≤◌, ◌<◌, ◌≡◌, refl, ap, ◌∙◌, ◌⊎◌, inl, true, false, ltb, arith,
  u16, u32,
}
use matar.BusApi.{CpuAccess, CpuView, sequential, non_sequential}
use matar.Memory as Memory
use matar.Memory.ReadBack as Laws
use matar.Dma.{Channel}
use matar.Dma.Control as Control
use matar.Io.{IoDevices}
use matar.Bus.{Contents, region, spend, spend32}
use matar.Bus.Read.{read_word, read_region, read_memory}
use matar.Bus.Write.{write_word, write_region_word}
use matar.Dma.Transfer.{
  chan, copy_word, transfer_loop, enough, finish, raise, set_chan, start_transfer, move_units,
  source_step, destination_step, unit_size, is_sound_transfer,
}

-- The memories but the chip's: the board's, the BIOS, the ROM, and the palette, the video memory and the objects.
abbrev pub other_memories :
    Contents
    → Memory.Memory × Memory.Memory × Memory.Memory × Memory.Memory × Memory.Memory × Memory.Memory
other_memories s = (
  s.board_wram, s.bios, s.rom, s.board.io.display.pram, s.board.io.display.vram,
  s.board.io.display.oam,
)

-- `n` words from one place of the board's memory stand at a place of the chip's, and every other byte of every
-- memory is as before.
pub record IsCopied (n from to : ℕ) (before after : Contents) : Type 0 where
  pub words :
      (k : ℕ)
      → k < n
      → Memory.read_word (to + 4 * k) after.chip_wram
        ≡ Memory.read_word (from + 4 * k) before.board_wram
  pub kept :
      (j : ℕ)
      → (j < to) ⊎ (to + 4 * n ≤ j)
      → Memory.read_byte j after.chip_wram ≡ Memory.read_byte j before.chip_wram
  pub same_others : other_memories after ≡ other_memories before

-- A word whose bytes are the same is the same.
read_word-same :
    (i : ℕ) (m k : Memory.Memory)
    → ((j : ℕ) → i ≤ j → j < i + 4 → Memory.read_byte j m ≡ Memory.read_byte j k)
    → Memory.read_word i m ≡ Memory.read_word i k
unfolding Memory.read_word Memory.read_halfword
read_word-same i m k h =
    let b0 = h i (omega arith) (omega arith) in
    let b1 = h (i + 1) (omega arith) (omega arith) in
    let b2 = h (i + 2) (omega arith) (omega arith) in
    let b3 = h (i + 2 + 1) (omega arith) (omega arith) in omega (arith, b0, b1, b2, b3)

abbrev board_address : ℕ → ℕ
board_address from = 0x2000000 + from

abbrev chip_address : ℕ → ℕ
chip_address to = 0x3000000 + to

-- What one unit changes.
record IsUnit (from to : ℕ) (before after : Contents) : Type 0 where
  chip :
      after.chip_wram
      ≡ Memory.write_word to (Memory.read_word from before.board_wram) before.chip_wram
  others : other_memories after ≡ other_memories before
  devices : after.board.io ≡ before.board.io

module _ (v : CpuView) where
  copy_word-IsUnit :
      (from to : ℕ) (access : CpuAccess) (s : Contents)
      → from < 1024 * 256
      → to < 1024 * 32
      → IsUnit from to s (copy_word v (board_address from) (chip_address to) access s)
  unfolding copy_word read_word write_word read_region write_region_word spend32 spend read_memory
  copy_word-IsUnit from to access s hf ht =
      let source : region (board_address from) ≡ 2 = omega arith in
      let target : region (chip_address to) ≡ 3 = omega arith in
      let at_source : board_address from % (1024 * 256) ≡ from = omega arith in
      let at_target : chip_address to % (1024 * 32) ≡ to = omega arith in
      rw (source, target, at_source, at_target)
        (record { chip = refl; others = refl; devices = refl })

no_units : (from to : ℕ) (s : Contents) → IsCopied 0 from to s s
no_units from to s = record {
  words = λ k h. absurd (omega arith);
  kept = λ j h. refl;
  same_others = refl;
}

first_word :
    (n from to : ℕ) (s t u : Contents)
    → IsUnit from to s t
    → IsCopied n (from + 4) (to + 4) t u
    → Memory.read_word to u.chip_wram ≡ Memory.read_word from s.board_wram
first_word n from to s t u one others =
    let fits : Memory.read_word from s.board_wram < 2 ^ 32 = Laws.read_word-lt from s.board_wram in
    read_word-same to u.chip_wram t.chip_wram (λ j l h. others.kept j (inl (omega arith)))
    ∙ ap (Memory.read_word to) one.chip
    ∙ Laws.read_word-write_word to _ s.chip_wram fits

more_units :
    (n from to : ℕ) (s t u : Contents)
    → IsUnit from to s t
    → IsCopied n (from + 4) (to + 4) t u
    → IsCopied (suc n) from to s u
more_units n from to s t u one others = record {
  words = word_of;
  kept = λ j away.
      others.kept j (omega (arith, away))
      ∙ ap (Memory.read_byte j) one.chip
      ∙ Laws.read_byte-write_word_ne j to _ s.chip_wram (omega (arith, away));
  same_others = others.same_others ∙ one.others;
}
  where
    word_of :
        (k : ℕ)
        → k < suc n
        → Memory.read_word (to + 4 * k) u.chip_wram ≡ Memory.read_word (from + 4 * k) s.board_wram
    word_of zero h =
        let to_first : to + 4 * 0 ≡ to = omega arith in
        let from_first : from + 4 * 0 ≡ from = omega arith in
        rw (to_first, from_first) (first_word n from to s t u one others)
    word_of (suc k) h =
        let to_next : to + 4 * suc k ≡ to + 4 + 4 * k = omega arith in
        let from_next : from + 4 * suc k ≡ from + 4 + 4 * k = omega arith in
        rw (to_next, from_next)
          (others.words k (omega arith)
            ∙ ap (λ m. Memory.read_word (from + 4 + 4 * k) m.0) one.others)

module _ (v : CpuView) (id : ℕ) where
  transfer_loop-IsCopied :
      (fuel n i from to : ℕ) (access : CpuAccess) (s : Contents)
      → n ≤ fuel
      → u16 (chan id s).word_count ≡ i + n
      → from + 4 * n ≤ 1024 * 256
      → to + 4 * n ≤ 1024 * 32
      → IsCopied n from to s (
          transfer_loop fuel (copy_word v) id 4 4 i (board_address from) (chip_address to) access s)
  unfolding transfer_loop
  transfer_loop-IsCopied zero zero i from to access s hn count hf ht = no_units from to s
  transfer_loop-IsCopied zero (suc n) i from to access s hn count hf ht = absurd (omega arith)
  transfer_loop-IsCopied (suc fuel) zero i from to access s hn count hf ht =
      let over : ltb i (u16 (chan id s).word_count) ≡ false = ground arith in
      rw over (no_units from to s)
  transfer_loop-IsCopied (suc fuel) (suc n) i from to access s hn count hf ht =
      let goes_on : ltb i (u16 (chan id s).word_count) ≡ true = ground arith in
      let next_from : u32 (board_address from + 4) ≡ board_address (from + 4) = omega arith in
      let next_to : u32 (chip_address to + 4) ≡ chip_address (to + 4) = omega arith in
      let t = copy_word v (board_address from) (chip_address to) access s in
      let one = copy_word-IsUnit v from to access s (omega arith) (omega arith) in
      let same_count : u16 (chan id t).word_count ≡ u16 (chan id s).word_count =
        ap (λ io. u16 (IoDevices.dma io id).word_count) one.devices in
      rw (goes_on, next_from, next_to)
        (more_units n from to s t _ one (
          transfer_loop-IsCopied fuel n (i + 1) (from + 4) (to + 4) sequential t (omega arith)
            (omega (arith, same_count, count)) (omega arith) (omega arith)))

-- A channel that is set to move `n` words upwards between the two memories.
pub record IsWordCopy (n from to : ℕ) (c : Channel) : Type 0 where
  pub enabled : Control.enable c.control ≡ true
  pub words : Control.transfer_32 c.control ≡ true
  pub source_up : Control.src_ctrl c.control ≡ 0
  pub destination_up : Control.dst_ctrl c.control ≡ 0
  pub source : c.source ≡ board_address from
  pub destination : c.destination ≡ chip_address to
  pub count : c.word_count ≡ n

finish-chip_wram : (id : ℕ) (s : Contents) → (finish id s).chip_wram ≡ s.chip_wram
unfolding finish raise set_chan
finish-chip_wram id s = ground arith

finish-other_memories : (id : ℕ) (s : Contents) → other_memories (finish id s) ≡ other_memories s
unfolding finish raise set_chan
finish-other_memories id s = ground arith

IsCopied-finish :
    (n from to id : ℕ) (s t : Contents)
    → IsCopied n from to s t
    → IsCopied n from to s (finish id t)
IsCopied-finish n from to id s t copied =
    let same = finish-chip_wram id t in
    record {
      words = λ k h. ap (Memory.read_word (to + 4 * k)) same ∙ copied.words k h;
      kept = λ j away. ap (Memory.read_byte j) same ∙ copied.kept j away;
      same_others = finish-other_memories id t ∙ copied.same_others;
    }

not_sound :
    (id n from to : ℕ) (c : Channel)
    → IsWordCopy n from to c
    → to ≤ 1024 * 32
    → is_sound_transfer id c ≡ false
unfolding is_sound_transfer
not_sound id n from to c copy h = let e = copy.destination in ground arith

move_units-words :
    (v : CpuView) (id n from to : ℕ) (s : Contents)
    → IsWordCopy n from to (chan id s)
    → to ≤ 1024 * 32
    → move_units v id 4 s
      ≡ transfer_loop enough
          (copy_word v)
          id
          4
          4
          0
          (board_address from)
          (chip_address to)
          non_sequential
          s
unfolding move_units unit_size destination_step
move_units-words v id n from to s copy h =
    let silent = not_sound id n from to (chan id s) copy h in
    rw (silent, copy.words, copy.destination_up, copy.source, copy.destination) refl

-- A transfer of words upwards from the board's memory to the chip's, in the bounds of both, returns and copies its words in order; it writes no other byte of any memory.
pub start_transfer-IsCopied :
    (v : CpuView) (id n from to : ℕ) (s : Contents)
    → IsWordCopy n from to (chan id s)
    → n < 2 ^ 16
    → from + 4 * n ≤ 1024 * 256
    → to + 4 * n ≤ 1024 * 32
    → (t : Contents) × (start_transfer v id s ≡ some t) × IsCopied n from to s t
unfolding start_transfer source_step unit_size
start_transfer-IsCopied v id n from to s copy hn hf ht =
    let loop =
      transfer_loop-IsCopied v id enough n 0 from to non_sequential s (omega arith)
        (omega (arith, copy.count)) hf ht in
    (
      finish id (move_units v id 4 s),
      rw (copy.enabled, copy.words, copy.source_up) refl,
      IsCopied-finish n from to id s _
          (rw (move_units-words v id n from to s copy (omega arith)) loop),
    )
