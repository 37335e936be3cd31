-- ===== src/Gdb/Session.antt =====
-- The loops of src/gdb_rsp.cc: GdbRsp::step, attach, satisfy_client and start, over any bus. A round of a loop
-- takes at least a byte of what is still to arrive, while there is one.
pub mod Kept
pub mod Ends
use mathlib.Core.Option.{Option, none, some}
use matar.Base.{
  ℕ, zero, suc, ◌+◌, ◌*◌, ◌^◌, ◌%◌, Bool, true, false, not, ◌&&◌, ◌==◌, if◌then◌else◌, List, [],
  ◌∷◌,
}
use matar.BusApi.{Bus}
use matar.Gdb.Text.{Text, codes, at, text_eq, starts_with, length}
use matar.Gdb.Packet.{receive}
use matar.Gdb.Command.{
  GdbRsp, Rsp, acknowledge, send_empty, send_ok, cmd_halted, cmd_read_registers,
  cmd_write_registers, cmd_read_register, cmd_write_register, cmd_continue, cmd_detach,
  cmd_attached, cmd_supported,
}
use matar.Gdb.Target.{cmd_read_memory, cmd_write_memory, cmd_rm_breakpoint, cmd_add_breakpoint}

module _ (b : Bus) where
  -- `QStartNoAckMode` sets the mode that it is to clear.
  unfoldable pub cmd_set : Text → Rsp b → Rsp b
  cmd_set msg r =
      send_ok b (if text_eq msg (codes "$QStartNoAckMode") then record r { ack_mode = true } else r)

  unfoldable pub cmd_query : Text → Rsp b → Rsp b
  cmd_query msg r =
      if starts_with (codes "$qSupported") msg
      then cmd_supported b msg r
      else if text_eq msg (codes "$qAttached")
      then cmd_attached b r
      else send_empty b r

  -- The switch over the letter of a command.
  unfoldable pub run_command : Text → Rsp b → Rsp b
  unfolding cmd_set cmd_query
  run_command msg r =
      let letter = at 1 msg in
      if letter == b'?'
      then cmd_halted b r
      else if letter == b'g'
      then cmd_read_registers b r
      else if letter == b'G'
      then cmd_write_registers b msg r
      else if letter == b'p'
      then cmd_read_register b msg r
      else if letter == b'P'
      then cmd_write_register b msg r
      else if letter == b'm'
      then cmd_read_memory b msg r
      else if letter == b'M'
      then cmd_write_memory b msg r
      else if letter == b'z'
      then cmd_rm_breakpoint b msg r
      else if letter == b'Z'
      then cmd_add_breakpoint b msg r
      else if letter == b'c'
      then cmd_continue b r
      else if letter == b'D'
      then cmd_detach b r
      else if letter == b'Q'
      then cmd_set msg r
      else if letter == b'q'
      then cmd_query msg r
      else send_empty b r

  -- `step(msg)`
  unfoldable pub handle : Text → Rsp b → Rsp b
  unfolding run_command
  handle msg r =
      if at 0 msg == 3
      then cmd_halted b r
      else if at 0 msg == b'$'
      then run_command msg (acknowledge b r)
      else r

  -- `receive()` and `step(msg)`: the message too, and `none` where the receipt throws.
  unfoldable pub receive_and_handle : Rsp b → Option (Text × Rsp b)
  unfolding handle
  receive_and_handle r = elim (receive r.incoming) [
    | none ↦ none
    | some (msg, rest) ↦ some (msg, handle msg (record r { incoming = rest }))
  ]

  -- How a loop over the messages ends.
  pub data Session : Type 0 where
    done : Rsp b → Session
    threw : Session
    out_of_fuel : Session

  unfoldable pub attach : ℕ → Rsp b → Session
  unfolding receive_and_handle
  attach zero r = out_of_fuel
  attach (suc fuel) r = elim r.attached [
    | true ↦ done r
    | false ↦ elim (receive_and_handle r) [ none ↦ threw | some (msg, s) ↦ attach fuel s ]
  ]

  -- `server.client_waiting()`
  unfoldable pub client_waiting : Rsp b → Bool
  client_waiting r = not (length r.incoming == 0)

  unfoldable pub satisfy_client : ℕ → Rsp b → Session
  unfolding receive_and_handle client_waiting
  satisfy_client zero r = out_of_fuel
  satisfy_client (suc fuel) r = elim (client_waiting r && r.attached) [
    | false ↦ done r
    | true ↦ elim (receive_and_handle r) [ none ↦ threw | some (msg, s) ↦ satisfy_client fuel s ]
  ]

  -- The loop of `start` that ends with the message `$p19`.
  unfoldable pub until_status : ℕ → Text → Rsp b → Session
  unfolding receive_and_handle
  until_status zero msg r = out_of_fuel
  until_status (suc fuel) msg r = elim (text_eq msg (codes "$p19")) [
    | true ↦ done r
    | false ↦ elim (receive_and_handle r) [
      | none ↦ threw
      | some (next, s) ↦ until_status fuel next s
    ]
  ]

  unfoldable pub start : ℕ → Rsp b → Session
  unfolding attach until_status
  start fuel r = elim (attach fuel r) [
    | done s ↦ until_status fuel [] s
    | threw ↦ threw
    | out_of_fuel ↦ out_of_fuel
  ]
