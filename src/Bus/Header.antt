-- ===== src/Bus/Header.antt =====
-- The header of a cartridge: include/header.hh and Bus::parse_header of src/bus.cc. What the source only
-- writes to the log is a test here.
pub mod Checksum
use mathlib.Core.Option.{Option, none, some}
use matar.Base.{
  ℕ, zero, suc, ◌+◌, ◌-◌, ◌*◌, ◌%◌, ◌^◌, Bool, List, [], ◌∷◌, ◌==◌, ltb, if◌then◌else◌, bit_or,
  ◌<<<◌, u32,
}
use matar.Memory.{Memory, read_byte}

pub data UniqueCode : Type 0 where
  old new newer famicom yoshi_koro ereader warioware boktai drill_dozer : UniqueCode

pub data I18n : Type 0 where
  japan europe french spanish usa german italian : I18n

-- The fields that parse_header sets. A code that no case names leaves its field as it was.
pub record Header : Type 0 where
  pub entrypoint : ℕ
  pub title : List ℕ
  pub title_code : List ℕ
  pub unique_code : Option UniqueCode
  pub i18n : Option I18n
  pub version : ℕ

abbrev pub header_size : ℕ
header_size = 192

-- The bytes from an index on.
unfoldable pub bytes_from : ℕ → ℕ → Memory → List ℕ
bytes_from zero i rom = []
bytes_from (suc n) i rom = read_byte i rom ∷ bytes_from n (i + 1) rom

-- The codes are letters of ASCII.
unfoldable pub unique_code_of : ℕ → Option UniqueCode
unique_code_of c =
    if c == 65
    then some UniqueCode.old
    else if c == 66
    then some UniqueCode.new
    else if c == 67
    then some UniqueCode.newer
    else if c == 70
    then some UniqueCode.famicom
    else if c == 75
    then some UniqueCode.yoshi_koro
    else if c == 80
    then some UniqueCode.ereader
    else if c == 82
    then some UniqueCode.warioware
    else if c == 85
    then some UniqueCode.boktai
    else if c == 86
    then some UniqueCode.drill_dozer
    else none

unfoldable pub i18n_of : ℕ → Option I18n
i18n_of c =
    if c == 74
    then some I18n.japan
    else if c == 80
    then some I18n.europe
    else if c == 70
    then some I18n.french
    else if c == 83
    then some I18n.spanish
    else if c == 69
    then some I18n.usa
    else if c == 68
    then some I18n.german
    else if c == 73
    then some I18n.italian
    else none

unfoldable pub entrypoint_of : Memory → ℕ
entrypoint_of rom =
    bit_or (bit_or (bit_or (read_byte 0 rom) (read_byte 1 rom <<< 8)) (read_byte 2 rom <<< 16))
      (read_byte 3 rom <<< 24)

-- `while (i <= 0xBC) chk -= rom[i++]`, on the number of bytes left.
unfoldable pub subtract_bytes : ℕ → ℕ → ℕ → Memory → ℕ
subtract_bytes zero i chk rom = chk
subtract_bytes (suc n) i chk rom =
    subtract_bytes n (i + 1) (u32 (chk + 2 ^ 32 - read_byte i rom)) rom

unfoldable pub checksum : Memory → ℕ
checksum rom = u32 (subtract_bytes 29 0xA0 0 rom + 2 ^ 32 - 0x19) % 2 ^ 8

-- Whether the log tells of no wrong checksum.
unfoldable pub has_checksum : Memory → Bool
has_checksum rom = checksum rom == read_byte 0xBD rom

abbrev pub header_of : Memory → Header
header_of rom = record {
  entrypoint = entrypoint_of rom;
  title = bytes_from 12 0xA0 rom;
  title_code = bytes_from 1 0xAD rom;
  unique_code = unique_code_of (read_byte 0xAC rom);
  i18n = i18n_of (read_byte 0xAF rom);
  version = read_byte 0xBC rom;
}

-- `none` where the source throws.
unfoldable pub parse_header : Memory → Option Header
parse_header rom = if ltb (Memory.size rom) header_size then none else some (header_of rom)
