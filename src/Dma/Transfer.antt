-- ===== src/Dma/Transfer.antt =====
-- The transfer of a DMA channel through the bus: Dma::start_transfer of src/io/dma/dma.cc. The step of an
-- address is a signed number, kept as its bit pattern.
pub mod Loop
pub mod Timely
pub mod Copy
pub mod Finish
use mathlib.Core.Option.{Option, none, some}
use mathlib.Core.Option
use matar.Base.{
  ℕ, zero, suc, ◌+◌, ◌-◌, ◌^◌, Bool, true, false, not, ◌&&◌, ◌||◌, ◌==◌, ltb, if◌then◌else◌, put,
  u16, u32,
}
use matar.BusApi.{CpuAccess, CpuView, sequential, non_sequential}
use matar.System.{Irq, raise_irq}
use matar.Sound.{fifo_a_address, fifo_b_address}
use matar.Dma.{Channel, Dma}
use matar.Dma.Control as Control
use matar.Dma.Control.{Timing, timing_number}
use matar.Io.{IoDevices, Board}
use matar.Bus.{Contents}
use matar.Bus.Read.{read_halfword, read_word}
use matar.Bus.Write.{write_halfword, write_word}

-- The table `irqs`.
unfoldable pub irq_of : ℕ → Irq
irq_of id =
    if id == 0
    then Irq.dma0
    else if id == 1
    then Irq.dma1
    else if id == 2
    then Irq.dma2
    else Irq.dma3

abbrev pub chan : ℕ → Contents → Channel
chan id s = s.board.io.dma id

unfoldable pub unit_size : ℕ → ℕ
unit_size control = if Control.transfer_32 control then 4 else 2

abbrev pub minus : ℕ → ℕ
minus n = 2 ^ 32 - n

-- `none` where the source aborts.
unfoldable pub source_step : ℕ → ℕ → Option ℕ
source_step ctrl ws =
    if ctrl == 0
    then some ws
    else if ctrl == 1
    then some (minus ws)
    else if ctrl == 2
    then some 0
    else none

-- The field has two bits, so the abort of the source is not reached.
unfoldable pub destination_step : ℕ → ℕ → ℕ
destination_step ctrl ws =
    if (ctrl == 0) || (ctrl == 3) then ws else if ctrl == 1 then minus ws else 0

unfoldable pub is_sound_transfer : ℕ → Channel → Bool
is_sound_transfer id c =
    (Control.timing c.control == timing_number Timing.special)
    && ((c.destination == fifo_a_address) || (c.destination == fifo_b_address))
    && ((id == 1) || (id == 2))
    && Control.repeat c.control

-- One unit, read and written.
unfoldable pub copy_word : CpuView → ℕ → ℕ → CpuAccess → Contents → Contents
copy_word v src dst access s =
    let got = read_word v src access s in write_word dst got.0 access got.1

unfoldable pub copy_halfword : CpuView → ℕ → ℕ → CpuAccess → Contents → Contents
copy_halfword v src dst access s =
    let got = read_halfword v src access s in write_halfword dst got.0 access got.1

-- The loop `for (i = 0; i < chan.word_count; i++)`, on fuel. The channel is read again for each test,
-- since a transfer may write to the registers of its own channel.
unfoldable pub transfer_loop :
    ℕ
    → (ℕ → ℕ → CpuAccess → Contents → Contents)
    → ℕ
    → ℕ
    → ℕ
    → ℕ
    → ℕ
    → ℕ
    → CpuAccess
    → Contents
    → Contents
transfer_loop zero copy id step_src step_dst i src dst access s = s
transfer_loop (suc fuel) copy id step_src step_dst i src dst access s =
    let rest =
      transfer_loop fuel copy id step_src step_dst (i + 1) (u32 (src + step_src))
        (u32 (dst + step_dst)) sequential (copy src dst access s) in
    if ltb i (u16 (chan id s).word_count) then rest else s

-- `word_count` has 16 bits.
abbrev pub enough : ℕ
enough = 2 ^ 16

-- The four words of a sound transfer.
unfoldable pub sound_transfer : CpuView → ℕ → ℕ → Contents → Contents
sound_transfer v src dst s = copy_word v (u32 (src + 12)) dst sequential (
    copy_word v (u32 (src + 8)) dst sequential
      (copy_word v (u32 (src + 4)) dst sequential (copy_word v src dst non_sequential s)))

unfoldable pub set_chan : ℕ → Channel → Contents → Contents
set_chan id c s = record s {
  board = record s.board { io = record s.board.io { dma = put s.board.io.dma id c } };
}

unfoldable pub raise : Irq → Contents → Contents
raise event s = record s {
  board = record s.board { io = record s.board.io { system = raise_irq event s.board.io.system } };
}

-- What follows the transfer: the interrupt, and the channel goes off unless it repeats.
unfoldable pub finish : ℕ → Contents → Contents
finish id s =
    let c = chan id s in
    let raised = if Control.irq_enable c.control then raise (irq_of id) s else s in
    if Control.repeat c.control
    then raised
    else set_chan id (record c { control = Control.disable c.control }) raised

unfoldable pub move_units : CpuView → ℕ → ℕ → Contents → Contents
move_units v id step_src s =
    let c = chan id s in
    let step_dst = destination_step (Control.dst_ctrl c.control) (unit_size c.control) in
    if is_sound_transfer id c
    then sound_transfer v c.source c.destination s
    else if unit_size c.control == 4
    then transfer_loop enough (copy_word v) id step_src step_dst 0 c.source c.destination
        non_sequential s
    else transfer_loop enough (copy_halfword v) id step_src step_dst 0 c.source c.destination
        non_sequential s

-- `none` where the source aborts the program.
unfoldable pub start_transfer : CpuView → ℕ → Contents → Option Contents
start_transfer v id s =
    let c = chan id s in
    if Control.enable c.control
    then Option.map (λ step. finish id (move_units v id step s))
        (source_step (Control.src_ctrl c.control) (unit_size c.control))
    else some s
