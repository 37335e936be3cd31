-- ===== src/Gdb/Command/Registers.antt =====
-- The commands of src/gdb_rsp.cc on registers.
use mathlib.Core.List.{◌++◌}
use mathlib.Core.Option.{some}
use matar.Base.{ℕ, ◌^◌, ◌<◌, ◌≡◌, refl, true, false, ◌==◌, ltb, [], ◌∷◌, arith, ==_same, u32}
use matar.BusApi.{Bus}
use matar.Gdb.Text.{Text, format_byte, append_le, be_to_le, stoul, is_hex, at, drop, ◌>>=◌}
use matar.Gdb.Text.Hex.{AllHex, append_le-AllHex, stoul-append_le}
use matar.Gdb.Pattern.{
  hex_run, after_run, hex_group, match_pair, two_groups, command, expect, at_end,
}
use matar.Gdb.Packet.{make_packet}
use matar.Gdb.Command.{Rsp, send, send_ok, set_register, cmd_write_register, cmd_read_register}

hex_run-append : (s t : Text) → AllHex s → is_hex (at 0 t) ≡ false → hex_run (s ++ t) ≡ s
unfolding hex_run at
hex_run-append [] [] h e = refl
hex_run-append [] (c ∷ t) h e = rw e refl
hex_run-append (c ∷ s) t h e = rw (h.0, hex_run-append s t h.1 e) refl

after_run-append : (s t : Text) → AllHex s → is_hex (at 0 t) ≡ false → after_run (s ++ t) ≡ t
unfolding after_run at
after_run-append [] [] h e = refl
after_run-append [] (c ∷ t) h e = rw e refl
after_run-append (c ∷ s) t h e = rw (h.0, after_run-append s t h.1 e) refl

-- A group of digits before a byte that is none.
hex_group-append :
    (c : ℕ) (s t : Text)
    → AllHex (c ∷ s)
    → is_hex (at 0 t) ≡ false
    → hex_group (c ∷ s ++ t) ≡ some (c ∷ s, t)
unfolding hex_group at
hex_group-append c s t h e =
    rw (hex_run-append (c ∷ s) t h e, after_run-append (c ∷ s) t h e, h.0) refl

hex_run-all : (s : Text) → AllHex s → (hex_run s ≡ s) × (after_run s ≡ [])
unfolding hex_run after_run
hex_run-all [] h = (refl, refl)
hex_run-all (c ∷ s) h =
    let rest = hex_run-all s h.1 in (rw (h.0, rest.0) refl, rw (h.0, rest.1) refl)

hex_group-all : (c : ℕ) (s : Text) → AllHex (c ∷ s) → hex_group (c ∷ s) ≡ some (c ∷ s, [])
unfolding hex_group at
hex_group-all c s h = let run = hex_run-all (c ∷ s) h in rw (run.0, run.1, h.0) refl

match_pair-groups :
    (letter between c d : ℕ) (s t : Text)
    → AllHex (c ∷ s)
    → AllHex (d ∷ t)
    → is_hex between ≡ false
    → match_pair letter between (b'$' ∷ letter ∷ c ∷ s ++ (between ∷ d ∷ t)) ≡ some (c ∷ s, d ∷ t)
unfolding match_pair command expect two_groups at_end at
match_pair-groups letter between c d s t hs ht other =
    rw
      (
        ==_same letter,
        hex_group-append c s (between ∷ d ∷ t) hs other,
        ==_same between,
        hex_group-all d t ht,
      )
      refl

-- `P`, the number of a register, `=` and a word with its lowest byte first; and `p` with the number.
abbrev pub write_message : Text → ℕ → Text
write_message number v = b'$' ∷ b'P' ∷ number ++ (b'=' ∷ append_le [] v)

abbrev pub read_message : Text → Text
read_message number = b'$' ∷ b'p' ∷ number

cmd_write_register-found :
    (b : Bus) (n v : ℕ) (msg number text : Text) (r : Rsp b)
    → n < 16
    → match_pair b'P' b'=' msg ≡ some (number, text)
    → stoul number ≡ some n
    → (be_to_le text >>= stoul) ≡ some v
    → cmd_write_register b msg r ≡ send_ok b (set_register b n v r)
unfolding cmd_write_register
cmd_write_register-found b n v msg number text r h found is value =
    let small : u32 n ≡ n = omega arith in
    let general : (n == 25) ≡ false = ground arith in
    let below : ltb n 16 ≡ true = ground arith in
    rw (cmd_write_register, found, is, value, small, general, below) refl

cmd_read_register-found :
    (b : Bus) (n : ℕ) (msg : Text) (r : Rsp b)
    → n < 16
    → stoul (drop 2 msg) ≡ some n
    → cmd_read_register b msg r ≡ send b (make_packet (append_le [] (r.machine.cpu.gpr n))) r
unfolding cmd_read_register
cmd_read_register-found b n msg r h is =
    let small : u32 n ≡ n = omega arith in
    let general : (n == 25) ≡ false = ground arith in
    let below : ltb n 16 ≡ true = ground arith in
    rw (cmd_read_register, is, small, general, below) refl

-- The answers leave the processor.
send_ok-machine : (b : Bus) (r : Rsp b) → (send_ok b r).machine ≡ r.machine
unfolding send_ok
send_ok-machine b r = ground arith

gpr-set_register :
    (b : Bus) (n v : ℕ) (r : Rsp b)
    → v < 2 ^ 32
    → (send_ok b (set_register b n v r)).machine.cpu.gpr n ≡ v
unfolding set_register
gpr-set_register b n v r h =
    let word : u32 v ≡ v = omega arith in
    rw (send_ok-machine b (set_register b n v r), ==_same n, word) refl

module _ (b : Bus) (c : ℕ) (s : Text) (n v : ℕ) (h : AllHex (c ∷ s))
    (is : stoul (c ∷ s) ≡ some n) where
  match_pair-write : match_pair b'P' b'=' (write_message (c ∷ s) v) ≡ some (c ∷ s, append_le [] v)
  unfolding append_le format_byte is_hex
  match_pair-write = match_pair-groups b'P' b'=' c _ s _ h (append_le-AllHex v) refl

  written :
      (r : Rsp b)
      → n < 16
      → v < 2 ^ 32
      → cmd_write_register b (write_message (c ∷ s) v) r ≡ send_ok b (set_register b n v r)
  unfolding cmd_write_register
  written r hn hv =
      cmd_write_register-found b n v (write_message (c ∷ s) v) (c ∷ s) (append_le [] v) r hn
        match_pair-write is (stoul-append_le v hv)

-- A register of 0 to 15 written by a `P` message with a word is what a `p` message for the same register is answered with.
pub read_register-write_register :
    (b : Bus) (c : ℕ) (s : Text) (n v : ℕ) (r : Rsp b)
    → AllHex (c ∷ s)
    → stoul (c ∷ s) ≡ some n
    → n < 16
    → v < 2 ^ 32
    → cmd_read_register b (read_message (c ∷ s)) (cmd_write_register b (write_message (c ∷ s) v) r)
      ≡ send b (make_packet (append_le [] v)) (cmd_write_register b (write_message (c ∷ s) v) r)
unfolding drop
read_register-write_register b c s n v r h is hn hv =
    let now = cmd_write_register b (write_message (c ∷ s) v) r in
    let value : now.machine.cpu.gpr n ≡ v =
      rw (written b c s n v h is r hn hv) (gpr-set_register b n v r hv) in
    rw (cmd_read_register-found b n (read_message (c ∷ s)) now hn is, value) refl
