-- ===== src/Bus/Write.antt =====
-- The writes of src/bus.cc. Messages to the log are left out. A write to the ROM past its end has no
-- defined result in the source, which logs it and makes it all the same.
use matar.Base.{ℕ, ◌*◌, ◌/◌, ◌==◌, leb, if◌then◌else◌, u16}
use matar.BusApi.{CpuAccess}
use matar.Memory as Memory
use matar.Display as Display
use matar.Io as Io
use matar.Bus.{Contents, region, spend16, spend32}
use matar.Bus.Read.{is_rom}
use matar.Bus.Region.{
  board_wram_offset, chip_wram_offset, pram_offset, oam_offset, rom_offset, vram_offset, io_address,
  io_address_of_write_word,
}

abbrev pub set_display : Display.Display → Contents → Contents
set_display display s = record s {
  board = record s.board { io = record s.board.io { display = display } };
}

abbrev pub set_pram : Memory.Memory → Contents → Contents
set_pram m s = set_display (record s.board.io.display { pram = m }) s

abbrev pub set_vram : Memory.Memory → Contents → Contents
set_vram m s = set_display (record s.board.io.display { vram = m }) s

abbrev pub set_oam : Memory.Memory → Contents → Contents
set_oam m s = set_display (record s.board.io.display { oam = m }) s

-- A byte fills both halves of a halfword of video or palette memory; the tiles of objects take none.
unfoldable pub write_byte_vram : ℕ → ℕ → Contents → Contents
write_byte_vram offset byte s =
    if leb (Display.obj_offset s.board.io.display) offset
    then s
    else set_vram
        (Memory.write_halfword (offset / 2 * 2) (u16 (byte * 0x101)) s.board.io.display.vram) s

unfoldable pub write_region_byte : ℕ → ℕ → Contents → Contents
write_region_byte address byte s =
    if region address == 2
    then record s { board_wram = Memory.write_byte (board_wram_offset address) byte s.board_wram }
    else if region address == 3
    then record s { chip_wram = Memory.write_byte (chip_wram_offset address) byte s.chip_wram }
    else if region address == 4
    then record s { board = Io.write_byte (io_address address) byte s.board }
    else if region address == 6
    then write_byte_vram (vram_offset address) byte s
    else if region address == 5
    then set_pram
        (Memory.write_halfword (pram_offset address / 2 * 2) (u16 (byte * 0x101))
          s.board.io.display.pram)
        s
    else s

unfoldable pub write_byte : ℕ → ℕ → CpuAccess → Contents → Contents
write_byte address byte access s = write_region_byte address byte (spend16 address access s)

unfoldable pub write_region_halfword : ℕ → ℕ → Contents → Contents
write_region_halfword address halfword s =
    if region address == 2
    then record s {
      board_wram = Memory.write_halfword (board_wram_offset address) halfword s.board_wram;
    }
    else if region address == 3
    then record s {
      chip_wram = Memory.write_halfword (chip_wram_offset address) halfword s.chip_wram;
    }
    else if region address == 4
    then record s { board = Io.write_halfword (io_address address) halfword s.board }
    else if region address == 5
    then set_pram (Memory.write_halfword (pram_offset address) halfword s.board.io.display.pram) s
    else if region address == 6
    then set_vram (Memory.write_halfword (vram_offset address) halfword s.board.io.display.vram) s
    else if region address == 7
    then set_oam (Memory.write_halfword (oam_offset address) halfword s.board.io.display.oam) s
    else if is_rom (region address)
    then record s { rom = Memory.write_halfword (rom_offset address) halfword s.rom }
    else s

unfoldable pub write_halfword : ℕ → ℕ → CpuAccess → Contents → Contents
write_halfword address halfword access s =
    write_region_halfword address halfword (spend16 address access s)

unfoldable pub write_region_word : ℕ → ℕ → Contents → Contents
write_region_word address word s =
    if region address == 2
    then record s { board_wram = Memory.write_word (board_wram_offset address) word s.board_wram }
    else if region address == 3
    then record s { chip_wram = Memory.write_word (chip_wram_offset address) word s.chip_wram }
    else if region address == 4
    then record s { board = Io.write_word (io_address_of_write_word address) word s.board }
    else if region address == 5
    then set_pram (Memory.write_word (pram_offset address) word s.board.io.display.pram) s
    else if region address == 6
    then set_vram (Memory.write_word (vram_offset address) word s.board.io.display.vram) s
    else if region address == 7
    then set_oam (Memory.write_word (oam_offset address) word s.board.io.display.oam) s
    else if is_rom (region address)
    then record s { rom = Memory.write_word (rom_offset address) word s.rom }
    else s

unfoldable pub write_word : ℕ → ℕ → CpuAccess → Contents → Contents
write_word address word access s = write_region_word address word (spend32 address access s)
