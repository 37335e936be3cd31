-- ===== src/Dma/Registers.antt =====
-- The registers of the DMA: src/io/dma/registers.cc.
use matar.Base.{ℕ, ◌%◌, ◌^◌, ◌==◌, if◌then◌else◌, ◌>>>◌, ◌<<<◌, put, bit_and, bit_or, bit_not}
use matar.Scheduler.{Scheduler}
use matar.Dma.{Dma, write_and_eval_ctrl}
use matar.Dma.Control as Control

-- `x &= ~0xFFFF; x |= halfword`, and the same for the upper half.
unfoldable pub low_half : ℕ → ℕ → ℕ
low_half x halfword = bit_or (bit_and x (bit_not 32 0xFFFF)) halfword

unfoldable pub high_half : ℕ → ℕ → ℕ
high_half x halfword = bit_or (bit_and x (bit_not 32 0xFFFF0000)) (halfword <<< 16)

unfoldable pub read_halfword : ℕ → Dma → ℕ
read_halfword address d =
    if address == 0x40000BA
    then Control.read (d 0).control
    else if address == 0x40000C6
    then Control.read (d 1).control
    else if address == 0x40000D2
    then Control.read (d 2).control
    else if address == 0x40000DE
    then Control.read (d 3).control
    else if address == 0x40000B0
    then (d 0).source % 2 ^ 16
    else if address == 0x40000B2
    then (d 0).source >>> 16
    else if address == 0x40000B4
    then (d 0).destination % 2 ^ 16
    else if address == 0x40000B6
    then (d 0).destination >>> 16
    else if address == 0x40000B8
    then (d 0).word_count
    else if address == 0x40000BC
    then (d 1).source % 2 ^ 16
    else if address == 0x40000BE
    then (d 1).source >>> 16
    else if address == 0x40000C0
    then (d 1).destination % 2 ^ 16
    else if address == 0x40000C2
    then (d 1).destination >>> 16
    else if address == 0x40000C4
    then (d 1).word_count
    else if address == 0x40000C8
    then (d 2).source % 2 ^ 16
    else if address == 0x40000CA
    then (d 2).source >>> 16
    else if address == 0x40000CC
    then (d 2).destination % 2 ^ 16
    else if address == 0x40000CE
    then (d 2).destination >>> 16
    else if address == 0x40000D0
    then (d 2).word_count
    else if address == 0x40000D4
    then (d 3).source % 2 ^ 16
    else if address == 0x40000D6
    then (d 3).source >>> 16
    else if address == 0x40000D8
    then (d 3).destination % 2 ^ 16
    else if address == 0x40000DA
    then (d 3).destination >>> 16
    else if address == 0x40000DC
    then (d 3).word_count
    else 0xFFFF

unfoldable pub write_halfword : ℕ → ℕ → Dma × Scheduler → Dma × Scheduler
write_halfword address halfword (d, s) =
    if address == 0x40000BA
    then write_and_eval_ctrl 0 halfword (d, s)
    else if address == 0x40000C6
    then write_and_eval_ctrl 1 halfword (d, s)
    else if address == 0x40000D2
    then write_and_eval_ctrl 2 halfword (d, s)
    else if address == 0x40000DE
    then write_and_eval_ctrl 3 halfword (d, s)
    else if address == 0x40000B0
    then (put d 0 (record (d 0) { source = low_half (d 0).source halfword }), s)
    else if address == 0x40000B2
    then (put d 0 (record (d 0) { source = high_half (d 0).source halfword }), s)
    else if address == 0x40000B4
    then (put d 0 (record (d 0) { destination = low_half (d 0).destination halfword }), s)
    else if address == 0x40000B6
    then (put d 0 (record (d 0) { destination = high_half (d 0).destination halfword }), s)
    else if address == 0x40000B8
    then (put d 0 (record (d 0) { word_count = halfword }), s)
    else if address == 0x40000BC
    then (put d 1 (record (d 1) { source = low_half (d 1).source halfword }), s)
    else if address == 0x40000BE
    then (put d 1 (record (d 1) { source = high_half (d 1).source halfword }), s)
    else if address == 0x40000C0
    then (put d 1 (record (d 1) { destination = low_half (d 1).destination halfword }), s)
    else if address == 0x40000C2
    then (put d 1 (record (d 1) { destination = high_half (d 1).destination halfword }), s)
    else if address == 0x40000C4
    then (put d 1 (record (d 1) { word_count = halfword }), s)
    else if address == 0x40000C8
    then (put d 2 (record (d 2) { source = low_half (d 2).source halfword }), s)
    else if address == 0x40000CA
    then (put d 2 (record (d 2) { source = high_half (d 2).source halfword }), s)
    else if address == 0x40000CC
    then (put d 2 (record (d 2) { destination = low_half (d 2).destination halfword }), s)
    else if address == 0x40000CE
    then (put d 2 (record (d 2) { destination = high_half (d 2).destination halfword }), s)
    else if address == 0x40000D0
    then (put d 2 (record (d 2) { word_count = halfword }), s)
    else if address == 0x40000D4
    then (put d 3 (record (d 3) { source = low_half (d 3).source halfword }), s)
    else if address == 0x40000D6
    then (put d 3 (record (d 3) { source = high_half (d 3).source halfword }), s)
    else if address == 0x40000D8
    then (put d 3 (record (d 3) { destination = low_half (d 3).destination halfword }), s)
    else if address == 0x40000DA
    then (put d 3 (record (d 3) { destination = high_half (d 3).destination halfword }), s)
    else if address == 0x40000DC
    then (put d 3 (record (d 3) { word_count = halfword }), s)
    else (d, s)
