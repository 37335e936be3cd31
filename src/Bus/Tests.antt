-- ===== src/Bus/Tests.antt =====
-- Runs of the bus.
use matar.Base.{◌≡◌, refl, put, arith}
use matar.BusApi.{sequential, non_sequential}
use matar.Bus.Read as Read
use matar.Bus.Write as Write
use matar.Bus.Ram.{video, number, read_word-write_word}
use matar.Bus.{Contents}
use matar.Dma.Control as Control
use matar.Bus.Start.{IsStarted, construct, construct-IsStarted}
use matar.Samples.{channels, idle, contents, cpu}

read_word-write_word_example :
    (Read.read_word cpu 0x6F98010 sequential
      (Write.write_word 0x6010010 0xDEADBEEF non_sequential contents)).0
    ≡ 0xDEADBEEF
unfolding number
read_word-write_word_example =
    read_word-write_word 0x6010010 0x6F98010 cpu 0xDEADBEEF non_sequential sequential contents video
      (record { first = refl; second = refl; place = refl }) (omega arith)

-- The sample with its first channel off.
abbrev safe_contents : Contents
safe_contents = record contents {
  board = record contents.board { io = record contents.board.io { dma = put channels 0 idle } };
}

construct-IsStarted_example : IsStarted contents.rom (construct contents contents.bios contents.rom)
construct-IsStarted_example = construct-IsStarted contents contents.bios contents.rom (omega arith)
