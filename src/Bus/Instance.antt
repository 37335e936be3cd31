-- ===== src/Bus/Instance.antt =====
-- The bus of src/bus.cc as the interface that the processor is written over.
use matar.Base.{ℕ, ◌*◌, ◌/◌, ◌^◌, ◌%◌, ◌<◌, ◌==◌, leb, arith, if_both, u8}
use matar.Psr.{arm, thumb}
use matar.BusApi.{Bus, CpuView, CpuAccess}
use matar.Memory as Memory
use matar.Memory.ReadBack as Laws
use matar.Bus.{Contents, bios_size, region, internal_cycle, spend16, spend32}
use matar.Bus.Region.{rom_offset}
use matar.Bus.Read.{
  Width, byte, halfword, word, cast, read_memory, open_bus, read_illegal, read_bios, read_rom,
  is_rom, read_region, read_byte, read_halfword, read_word,
}
use matar.Bus.Write.{write_byte, write_halfword, write_word}

abbrev pub limit : Width → ℕ
limit byte = 2 ^ 8
limit halfword = 2 ^ 16
limit word = 2 ^ 32

cast-lt : (w : Width) (x : ℕ) → cast w x < limit w
unfolding cast
cast-lt byte x = omega arith
cast-lt halfword x = omega arith
cast-lt word x = omega arith

read_memory-lt : (w : Width) (i : ℕ) (m : Memory.Memory) → read_memory w i m < limit w
unfolding read_memory
read_memory-lt byte i m = Laws.read_byte-lt i m
read_memory-lt halfword i m = Laws.read_halfword-lt i m
read_memory-lt word i m = Laws.read_word-lt i m

byte-lt : (w : Width) (x : ℕ) → u8 x < limit w
byte-lt byte x = omega arith
byte-lt halfword x = omega arith
byte-lt word x = omega arith

read_illegal-lt : (w : Width) (v : CpuView) (address : ℕ) → read_illegal v address < limit w
unfolding read_illegal
read_illegal-lt w v address =
    elim v.state
      as (λ st.
        (elim st [ arm ↦ u8 v.opcode1 | thumb ↦ u8 (open_bus v / 2 ^ (address % 4 * 8)) ])
        < limit w) [
          | arm ↦ byte-lt w v.opcode1
          | thumb ↦ byte-lt w (open_bus v / 2 ^ (address % 4 * 8))
        ]

abbrev Fits : Width → ℕ × Contents → Type 0
Fits w r = r.0 < limit w

module _ (w : Width) (v : CpuView) (address : ℕ) (s : Contents) where
  read_bios-lt : Fits w (read_bios w v address s)
  unfolding read_bios
  read_bios-lt = if_both (Fits w) (leb bios_size address) _ _ (read_illegal-lt w v address) (
      if_both (Fits w) (leb bios_size v.program_counter) _ _ (cast-lt w s.last_bios_word)
        (read_memory-lt w address s.bios))

  abbrev Below : ℕ → Type 0
  Below x = x < limit w

  read_rom-lt : read_rom w v address s < limit w
  unfolding read_rom
  read_rom-lt =
      if_both Below (leb (Memory.Memory.size s.rom) (rom_offset address)) _ _
        (read_illegal-lt w v address) (read_memory-lt w (rom_offset address) s.rom)

  read_region-lt : Fits w (read_region w v address s)
  unfolding read_region
  read_region-lt =
      let r = region address in
      if_both (Fits w) (r == 0) _ _ read_bios-lt (
        if_both Below (r == 2) _ _ (read_memory-lt w _ s.board_wram) (
          if_both Below (r == 3) _ _ (read_memory-lt w _ s.chip_wram) (
            if_both Below (r == 4) _ _ (cast-lt w _) (
              if_both Below (r == 5) _ _ (read_memory-lt w _ s.board.io.display.pram) (
                if_both Below (r == 6) _ _ (read_memory-lt w _ s.board.io.display.vram) (
                  if_both Below (r == 7) _ _ (read_memory-lt w _ s.board.io.display.oam)
                    (if_both Below (is_rom r) _ _ read_rom-lt (read_illegal-lt w v address))))))))

-- Every read returns a value of its width, whatever the address and the state.
pub read-lt :
    (v : CpuView) (address : ℕ) (access : CpuAccess) (s : Contents)
    → ((read_byte v address access s).0 < 2 ^ 8)
      × ((read_halfword v address access s).0 < 2 ^ 16)
      × ((read_word v address access s).0 < 2 ^ 32)
unfolding read_byte read_halfword read_word
read-lt v address access s = (
  read_region-lt byte v address (spend16 address access s),
  read_region-lt halfword v address (spend16 address access s),
  read_region-lt word v address (spend32 address access s),
)

-- The processor of Cpu, Arm and Thumb runs over this bus.
abbrev pub board_bus : Bus
board_bus = record {
  Contents = Contents;
  read_byte = read_byte;
  read_halfword = read_halfword;
  read_word = read_word;
  write_byte = write_byte;
  write_halfword = write_halfword;
  write_word = write_word;
  internal_cycle = internal_cycle;
  read_byte-lt = λ v address access s. (read-lt v address access s).0;
  read_halfword-lt = λ v address access s. (read-lt v address access s).1;
  read_word-lt = λ v address access s. (read-lt v address access s).2;
}
