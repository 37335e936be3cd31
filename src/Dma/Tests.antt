-- ===== src/Dma/Tests.antt =====
-- Runs of the DMA.
use mathlib.Core.Option.{none, some}
use matar.Base.{◌+◌, ◌≡◌, ◌↔◌, refl, true, arith}
use matar.BusApi.{non_sequential}
use matar.Bus.{Contents}
use matar.Dma.Control as Control
use matar.Dma.Transfer.{start_transfer, transfer_loop, copy_word, chan, enough}
use matar.Dma.Transfer.Copy.{IsWordCopy, IsCopied, start_transfer-IsCopied}
use matar.Dma.Transfer.Finish.{start_transfer-aborts}
use matar.Dma.Transfer.Loop.{transfer_loop-enough}
use matar.Samples.{contents, cpu}

channel-IsWordCopy : IsWordCopy 3 0x10 0x20 (chan 3 contents)
unfolding Control.enable Control.transfer_32 Control.src_ctrl Control.dst_ctrl
channel-IsWordCopy = record {
  enabled = refl;
  words = refl;
  source_up = refl;
  destination_up = refl;
  source = refl;
  destination = refl;
  count = refl;
}

start_transfer-IsCopied_example :
    (t : Contents) × (start_transfer cpu 3 contents ≡ some t) × IsCopied 3 0x10 0x20 contents t
start_transfer-IsCopied_example =
    start_transfer-IsCopied cpu 3 3 0x10 0x20 contents channel-IsWordCopy (omega arith)
      (omega arith) (omega arith)

start_transfer-aborts_example : (start_transfer cpu 0 contents ≡ none) ↔ (
    (Control.enable (chan 0 contents).control ≡ true)
    × (Control.src_ctrl (chan 0 contents).control ≡ 3))
start_transfer-aborts_example = start_transfer-aborts cpu 0 contents

-- Channel 0 of the sample is one that aborts.
aborting : start_transfer cpu 0 contents ≡ none
unfolding Control.enable Control.src_ctrl
aborting = start_transfer-aborts_example.1 (refl, refl)

transfer_loop-enough_example :
    transfer_loop (enough + 5) (copy_word cpu) 3 4 4 0 0x2000010 0x3000020 non_sequential contents
    ≡ transfer_loop enough (copy_word cpu) 3 4 4 0 0x2000010 0x3000020 non_sequential contents
transfer_loop-enough_example =
    transfer_loop-enough (copy_word cpu) 3 4 4 5 0x2000010 0x3000020 non_sequential contents
