-- ===== src/Bus/Region.antt =====
-- Where an address falls in its region: the masks and mirrors of src/bus.cc.
use matar.Base.{
  ℕ, ◌+◌, ◌-◌, ◌*◌, ◌/◌, ◌%◌, ◌<◌, ◌==◌, leb, not, if◌then◌else◌, arith, bit_and, bit_not,
}

-- `address & (size - 1)` of a memory whose size is a power of two.
abbrev pub board_wram_offset : ℕ → ℕ
board_wram_offset address = address % (1024 * 256)

abbrev pub chip_wram_offset : ℕ → ℕ
chip_wram_offset address = address % (1024 * 32)

abbrev pub pram_offset : ℕ → ℕ
pram_offset address = address % 0x400

abbrev pub oam_offset : ℕ → ℕ
oam_offset address = address % 0x400

abbrev pub rom_offset : ℕ → ℕ
rom_offset address = address % (32 * 1024 * 1024)

-- Video memory is 96K in a window of 128K: the last 32K of the window show the third 32K again.
unfoldable pub vram_offset : ℕ → ℕ
vram_offset address =
    let offset = address % (128 * 1024) in
    if leb (96 * 1024) offset then offset - 32 * 1024 else offset

-- The I/O address of all accesses but a write of a word, and of that one.
unfoldable pub io_address : ℕ → ℕ
io_address address =
    if not (bit_and address 0xFF0800 == 0) then bit_and address (bit_not 32 0xFF0000) else address

unfoldable pub io_address_of_write_word : ℕ → ℕ
io_address_of_write_word address =
    if bit_and address 0x800 == 0x800 then bit_and address (bit_not 32 0xFF0000) else address

-- Every address of the video region falls inside video memory, and so does a halfword or a word at an address that is a multiple of its size.
pub vram_offset-lt :
    (address : ℕ)
    → (vram_offset address < 0x18000)
      × (vram_offset (address / 2 * 2) + 1 < 0x18000)
      × (vram_offset (address / 4 * 4) + 3 < 0x18000)
unfolding vram_offset
vram_offset-lt address = ground arith
