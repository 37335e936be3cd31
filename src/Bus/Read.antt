-- ===== src/Bus/Read.antt =====
-- The reads of src/bus.cc. read_byte, read_halfword and read_word have one body up to the width.
-- The processor that the class points to is given by what is read of it. Messages to the log are
-- left out.
use matar.Base.{
  ℕ, ◌*◌, ◌/◌, ◌%◌, ◌^◌, Bool, ◌||◌, ◌==◌, leb, not, if◌then◌else◌, bit_or, ◌>>>◌, ◌<<<◌, u8, u16,
  u32,
}
use matar.Psr.{arm, thumb}
use matar.BusApi.{CpuAccess, CpuView}
use matar.Memory as Memory
use matar.Io as Io
use matar.Bus.{Contents, bios_size, region, spend16, spend32}
use matar.Bus.Region.{
  board_wram_offset, chip_wram_offset, pram_offset, oam_offset, rom_offset, vram_offset, io_address,
}

pub data Width : Type 0 where
  byte halfword word : Width

-- The cast to the type that is returned.
unfoldable pub cast : Width → ℕ → ℕ
cast byte x = u8 x
cast halfword x = u16 x
cast word x = u32 x

unfoldable pub read_memory : Width → ℕ → Memory.Memory → ℕ
read_memory byte = Memory.read_byte
read_memory halfword = Memory.read_halfword
read_memory word = Memory.read_word

unfoldable pub read_io : Width → ℕ → Io.IoDevices → ℕ
read_io byte = Io.read_byte
read_io halfword = Io.read_halfword
read_io word = Io.read_word

abbrev join : ℕ → ℕ → ℕ
join upper lower = bit_or (upper <<< 16) lower

-- The word that stands on the bus when nothing answers, in Thumb state.
unfoldable pub open_bus : CpuView → ℕ
open_bus v =
    let decoded = u16 v.opcode0 in
    let prefetched = u16 v.opcode1 in
    let pc_region = v.program_counter / 2 ^ 24 % 2 ^ 4 in
    if (pc_region == 0) || (pc_region == 7)
    then join prefetched decoded
    else if pc_region == 3
    then if not (v.program_counter % 4 == 0)
      then join prefetched decoded
      else join decoded prefetched
    else join prefetched prefetched

-- `read_illegal<uint8_t>`, the one instance in use: every width gets one byte.
unfoldable pub read_illegal : CpuView → ℕ → ℕ
read_illegal v address = elim v.state [
  | arm ↦ u8 v.opcode1
  | thumb ↦ u8 (open_bus v >>> (address % 4 * 8))
]

-- The BIOS answers with its contents only while the processor runs in it.
unfoldable pub read_bios : Width → CpuView → ℕ → Contents → ℕ × Contents
read_bios w v address s =
    if leb bios_size address
    then (read_illegal v address, s)
    else if leb bios_size v.program_counter
    then (cast w s.last_bios_word, s)
    else (read_memory w address s.bios, record s { last_bios_word = read_memory w address s.bios })

unfoldable pub read_rom : Width → CpuView → ℕ → Contents → ℕ
read_rom w v address s =
    if leb (Memory.Memory.size s.rom) (rom_offset address)
    then read_illegal v address
    else read_memory w (rom_offset address) s.rom

abbrev pub is_rom : ℕ → Bool
is_rom r = (r == 8) || (r == 9) || (r == 0xA) || (r == 0xB) || (r == 0xC) || (r == 0xD)

unfoldable pub read_region : Width → CpuView → ℕ → Contents → ℕ × Contents
read_region w v address s =
    let display = s.board.io.display in
    if region address == 0 then read_bios w v address s else (
      (if region address == 2
          then read_memory w (board_wram_offset address) s.board_wram
          else if region address == 3
          then read_memory w (chip_wram_offset address) s.chip_wram
          else if region address == 4
          then cast w (read_io w (io_address address) s.board.io)
          else if region address == 5
          then read_memory w (pram_offset address) display.pram
          else if region address == 6
          then read_memory w (vram_offset address) display.vram
          else if region address == 7
          then read_memory w (oam_offset address) display.oam
          else if is_rom (region address)
          then read_rom w v address s
          else read_illegal v address),
      s,
    )

unfoldable pub read_byte : CpuView → ℕ → CpuAccess → Contents → ℕ × Contents
read_byte v address access s = read_region byte v address (spend16 address access s)

unfoldable pub read_halfword : CpuView → ℕ → CpuAccess → Contents → ℕ × Contents
read_halfword v address access s = read_region halfword v address (spend16 address access s)

unfoldable pub read_word : CpuView → ℕ → CpuAccess → Contents → ℕ × Contents
read_word v address access s = read_region word v address (spend32 address access s)
