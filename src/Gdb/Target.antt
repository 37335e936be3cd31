-- ===== src/Gdb/Target.antt =====
-- The commands of src/gdb_rsp.cc on the memory and on the breakpoints, over any bus.
use mathlib.Core.List.{◌++◌}
use mathlib.Core.Option.{none, some}
use matar.Base.{
  ℕ, zero, suc, ◌+◌, ◌^◌, ◌%◌, Bool, not, ◌&&◌, ◌||◌, ◌==◌, if◌then◌else◌, List, [], ◌∷◌, u32,
}
use matar.BusApi.{Bus, sequential}
use matar.Cpu.State.{view}
use matar.Gdb.Text.{Text, text_eq, codes, format_byte, stoul, take, drop}
use matar.Gdb.Pattern.{match_pair, match_write_memory, match_breakpoint}
use matar.Gdb.Packet.{make_packet}
use matar.Gdb.Command.{Rsp, send, send_empty, send_ok, is_in}

-- `std::unordered_set`: a number once, or not at all.
unfoldable pub erase : ℕ → List ℕ → List ℕ
erase a [] = []
erase a (x ∷ xs) = if x == a then erase a xs else x ∷ erase a xs

unfoldable pub insert : ℕ → List ℕ → List ℕ
unfolding is_in
insert a xs = if is_in a xs then xs else a ∷ xs

-- The tests on the type and the kind. The first compares the whole match `sm[0]` with "1", not the type `sm[1]`.
unfoldable pub is_rejected : Text → ℕ → ℕ → Bool
unfolding text_eq
is_rejected whole type kind =
    (not (type == b'0') && not (text_eq whole (codes "1")))
    || (not (kind == b'3') && not (kind == b'4'))

module _ (b : Bus) where
  -- `for (i = 0; i < length; i++)`, with the bytes read so far.
  unfoldable pub read_bytes : ℕ → ℕ → Text → Rsp b → Text × Rsp b
  unfolding format_byte
  read_bytes zero address response r = (response, r)
  read_bytes (suc n) address response r =
      let (byte, s) = b.read_byte (view r.machine.cpu) (u32 address) sequential r.machine.bus in
      read_bytes n (address + 1) (response ++ format_byte byte)
        (record r { machine = record r.machine { bus = s } })

  unfoldable pub cmd_read_memory : Text → Rsp b → Rsp b
  unfolding read_bytes send send_empty
  cmd_read_memory msg r = elim (match_pair b'm' b',' msg) [
    | none ↦ send_empty b r
    | some (address, count) ↦ elim (stoul address) [
      | none ↦ send_empty b r
      | some a ↦ elim (stoul count) [
        | none ↦ send_empty b r
        | some n ↦
            let (response, end) = read_bytes (u32 n) (u32 a) [] r in
            send b (make_packet response) end
      ]
    ]
  ]

  -- `for (i = 0, j = 0; i < length && j < values.size(); i++, j += 2)`. A pair of digits always has a
  -- number, so the loop ends by its test.
  unfoldable pub write_bytes : ℕ → ℕ → Text → Rsp b → Rsp b
  unfolding take drop
  write_bytes zero address values r = r
  write_bytes (suc n) address [] r = r
  write_bytes (suc n) address (c ∷ s) r = elim (stoul (take 2 (c ∷ s))) [
    | none ↦ r
    | some byte ↦ write_bytes n (address + 1) (drop 2 (c ∷ s)) (record r {
      machine = record r.machine {
        bus = b.write_byte (u32 address) (byte % 2 ^ 8) sequential r.machine.bus;
      };
    })
  ]

  unfoldable pub cmd_write_memory : Text → Rsp b → Rsp b
  unfolding write_bytes send_ok send_empty
  cmd_write_memory msg r = elim (match_write_memory msg) [
    | none ↦ send_empty b r
    | some (address, count, values) ↦ elim (stoul address) [
      | none ↦ send_empty b r
      | some a ↦ elim (stoul count) [
        | none ↦ send_empty b r
        | some n ↦ send_ok b (write_bytes (u32 n) (u32 a) values r)
      ]
    ]
  ]

  -- The two commands on breakpoints differ in what they do to the set. The whole match is the message, as
  -- `regex_match` matches all of it.
  unfoldable pub change_breakpoints : ℕ → (ℕ → List ℕ → List ℕ) → Text → Rsp b → Rsp b
  unfolding is_rejected send_ok send_empty
  change_breakpoints letter change msg r = elim (match_breakpoint letter msg) [
    | none ↦ send_empty b r
    | some (type, address, kind) ↦
        if is_rejected msg type kind then send_empty b r else elim (stoul address) [
          | none ↦ send_empty b r
          | some a ↦ send_ok b (record r { breakpoints = change (u32 a) r.breakpoints })
        ]
  ]

  unfoldable pub cmd_rm_breakpoint : Text → Rsp b → Rsp b
  unfolding change_breakpoints
  cmd_rm_breakpoint msg r = change_breakpoints b'z' erase msg r

  unfoldable pub cmd_add_breakpoint : Text → Rsp b → Rsp b
  unfolding change_breakpoints
  cmd_add_breakpoint msg r = change_breakpoints b'Z' insert msg r
