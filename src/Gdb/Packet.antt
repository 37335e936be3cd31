-- ===== src/Gdb/Packet.antt =====
-- The packets of src/gdb_rsp.cc: GdbRsp::make_packet and GdbRsp::receive. What is still to arrive is a list of
-- bytes, and a read past its end returns no byte, as on a connection that has been closed.
use mathlib.Core.List.{◌++◌}
pub mod RoundTrip
use mathlib.Core.Option.{Option, none, some}
use mathlib.Core.Option
use matar.Base.{
  ℕ, zero, suc, ◌+◌, ◌-◌, ◌^◌, ◌%◌, Bool, true, false, ◌==◌, if◌then◌else◌, List, [], ◌∷◌,
}
use matar.Gdb.Text.{Text, ◌>>=◌, format_byte, stoul, at, take, drop}

abbrev pub max_msg_len : ℕ
max_msg_len = 4096

-- The sum of the bytes, of which only the lowest eight bits are used; that a `char` is signed does not change
-- these.
unfoldable pub checksum : Text → ℕ
checksum [] = 0
checksum (c ∷ s) = c + checksum s

unfoldable pub make_packet : Text → Text
unfolding checksum format_byte
make_packet raw = b'$' ∷ raw ++ (b'#' ∷ format_byte (checksum raw % 2 ^ 8))

-- The text of the bytes that a read returns ends at the first zero.
unfoldable pub c_str : Text → Text
c_str [] = []
c_str (c ∷ s) = let rest = c_str s in if c == 0 then [] else c ∷ rest

-- The loop up to the `#`, with the length that is left for the message; where the input ends the loop goes on
-- with zeros up to that length, and throws.
unfoldable pub receive_body : ℕ → Text → Option (Text × Text)
receive_body room [] = none
receive_body zero (c ∷ input) = if c == b'#' then some ([], input) else none
receive_body (suc room) (c ∷ input) =
    let rest = Option.map (λ r. (c ∷ r.0, r.1)) (receive_body room input) in
    if c == b'#' then some ([], input) else rest

-- A message, and what is still to arrive; `none` where it throws.
unfoldable pub receive : Text → Option (Text × Text)
unfolding receive_body checksum c_str
receive input =
    if at 0 input == b'$'
    then (do
      r ← receive_body (max_msg_len - 1) (drop 1 input)
      sum ← stoul (c_str (take 2 r.1))
      if sum == checksum r.0 % 2 ^ 8 then some (b'$' ∷ r.0, drop 2 r.1) else none)
    else some (c_str (take 1 input), drop 1 input)
