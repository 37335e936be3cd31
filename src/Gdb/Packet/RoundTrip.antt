-- ===== src/Gdb/Packet/RoundTrip.antt =====
-- A packet of src/gdb_rsp.cc that is sent and received.
use mathlib.Core.List.{◌++◌, append_assoc}
use mathlib.Core.Option.{some}
use matar.Base.{ℕ, zero, suc, ◌%◌, ◌^◌, ◌<◌, ◌≤◌, ◌≡◌, ◌≢◌, refl, [], ◌∷◌, arith, ==_false, ==_same}
use matar.Gdb.Text.{Text, format_byte, length, at, drop, take}
use matar.Gdb.Text.Hex.{stoul-format_byte}
use matar.Gdb.Packet.{make_packet, receive, receive_body, checksum, c_str}

-- No byte of the text ends a packet.
abbrev pub HasNoEnd : Text → Type 0
HasNoEnd [] = Unit {0}
HasNoEnd (c ∷ s) = (c ≢ b'#') × HasNoEnd s

receive_body-append :
    (room : ℕ) (raw rest : Text)
    → HasNoEnd raw
    → length raw ≤ room
    → receive_body room (raw ++ (b'#' ∷ rest)) ≡ some (raw, rest)
unfolding receive_body
receive_body-append zero [] rest h le = refl
receive_body-append (suc room) [] rest h le = refl
receive_body-append zero (c ∷ raw) rest h le = absurd (omega arith)
receive_body-append (suc room) (c ∷ raw) rest h le =
    rw (==_false c b'#' h.0, receive_body-append room raw rest h.1 (omega arith)) refl

two_bytes :
    (v : ℕ) (rest : Text) → v < 2 ^ 8 → c_str (take 2 (format_byte v ++ rest)) ≡ format_byte v
unfolding c_str take format_byte
two_bytes v rest h = ground arith

after_two : (v : ℕ) (rest : Text) → drop 2 (format_byte v ++ rest) ≡ rest
unfolding drop format_byte
after_two v rest = refl

packet_bytes :
    (raw rest : Text)
    → make_packet raw ++ rest ≡ b'$' ∷ raw ++ (b'#' ∷ format_byte (checksum raw % 2 ^ 8) ++ rest)
unfolding make_packet
packet_bytes raw rest = append_assoc (b'$' ∷ raw) (b'#' ∷ format_byte (checksum raw % 2 ^ 8)) rest

-- A packet made of a text without `#`, of 4095 bytes at most, is received as that text behind its `$`, and what follows it stays to be received.
pub receive-make_packet :
    (raw rest : Text)
    → HasNoEnd raw
    → length raw ≤ 4095
    → receive (make_packet raw ++ rest) ≡ some (b'$' ∷ raw, rest)
unfolding receive at drop
receive-make_packet raw rest h le =
    let sum = checksum raw % 2 ^ 8 in
    let sum_lt : sum < 2 ^ 8 = omega arith in
    rw
      (
        packet_bytes raw rest,
        receive_body-append 4095 raw (format_byte sum ++ rest) h le,
        two_bytes sum rest sum_lt,
        stoul-format_byte sum sum_lt,
        ==_same sum,
        after_two sum rest,
      )
      refl
