-- ===== src/Gdb/Command/Rejected.antt =====
-- What src/gdb_rsp.cc answers with an empty packet: all the registers at once, and the breakpoints of the
-- hardware.
use mathlib.Core.List.{◌++◌}
use mathlib.Core.Option.{Option, none, some}
use matar.Base.{
  ℕ, ◌*◌, ◌≡◌, ◌≢◌, refl, Bool, true, false, ◌∙◌, ◌==◌, if◌then◌else◌, List, [], ◌∷◌, arith,
  ==_false, Bool-cases, inl, inr,
}
use matar.BusApi.{Bus}
use matar.Gdb.Text.{Text, text_eq, stoul, be_to_le, substr, at, ◌>>=◌, length}
use matar.Gdb.Pattern.{match_write_registers, match_breakpoint, command, expect}
use matar.Gdb.Packet.{make_packet}
use matar.Gdb.Command.{Rsp, send_empty, send_ok, set_register, cmd_write_registers, write_values}
use matar.Gdb.Target.{
  cmd_add_breakpoint, cmd_rm_breakpoint, change_breakpoints, is_rejected, insert, erase,
}

-- A run of the loop that throws, with no register changed but number 0 and nothing sent.
record Throws (b : Bus) (k : ℕ) (r : Rsp b) (end : Rsp b × Bool) : Type 0 where
  thrown : end.1 ≡ false
  silent : end.0.sent ≡ r.sent
  kept : end.0.machine.cpu.gpr k ≡ r.machine.cpu.gpr k

module _ (b : Bus) (k : ℕ) (other : k ≢ 0) where
  set_first : (v : ℕ) (r : Rsp b) → (set_register b 0 v r).machine.cpu.gpr k ≡ r.machine.cpu.gpr k
  unfolding set_register
  set_first v r = rw (==_false k 0 other) refl

  silent_set : (v : ℕ) (r : Rsp b) → (set_register b 0 v r).sent ≡ r.sent
  unfolding set_register
  silent_set v r = refl

  -- The second round reads a group that the pattern does not have.
  second_round : (msg values : Text) (r : Rsp b) → write_values b 14 8 1 msg values r ≡ (r, false)
  unfolding write_values stoul at
  second_round msg values r = refl

  after_value :
      (msg values : Text) (r first : Rsp b)
      → first.sent ≡ r.sent
      → first.machine.cpu.gpr k ≡ r.machine.cpu.gpr k
      → (o : Option ℕ)
      → Throws b k r (elim o [
        | none ↦ (first, false)
        | some value ↦ write_values b 14 8 1 msg values (set_register b 0 value first)
      ])
  after_value msg values r first quiet same none = record {
    thrown = refl;
    silent = quiet;
    kept = same;
  }
  after_value msg values r first quiet same (some value) =
      rw (second_round msg values (set_register b 0 value first)) (record {
        thrown = refl;
        silent = silent_set value first ∙ quiet;
        kept = set_first value first ∙ same;
      })

  after_whole :
      (msg values : Text) (r : Rsp b) (o : Option ℕ)
      → Throws b k r (elim o [
        | none ↦ (r, false)
        | some w ↦ elim (substr 0 8 values >>= be_to_le >>= stoul) [
          | none ↦ (set_register b 0 w r, false)
          | some value ↦
              write_values b 14 8 1 msg values (set_register b 0 value (set_register b 0 w r))
        ]
      ])
  after_whole msg values r none = record { thrown = refl; silent = refl; kept = refl }
  after_whole msg values r (some w) =
      after_value msg values r (set_register b 0 w r) (silent_set w r) (set_first w r)
        (substr 0 8 values >>= be_to_le >>= stoul)

  first_round : (msg values : Text) (r : Rsp b) → Throws b k r (write_values b 15 0 0 msg values r)
  unfolding write_values
  first_round msg values r = after_whole msg values r (stoul values)

  answer_empty :
      (r : Rsp b) (end : Rsp b × Bool)
      → Throws b k r end
      → ((if end.1 then send_ok b end.0 else send_empty b end.0).sent
          ≡ r.sent ++ (make_packet [] ∷ []))
        × ((if end.1 then send_ok b end.0 else send_empty b end.0).machine.cpu.gpr k
            ≡ r.machine.cpu.gpr k)
  unfolding send_empty
  answer_empty r end t = rw t.thrown (rw t.silent refl, t.kept)

-- The answer to a message that matches, or does not.
abbrev answered : (b : Bus) → Rsp b → Text → Option Text → Rsp b
answered b r msg o = elim o [
  | none ↦ send_empty b r
  | some values ↦
      if length values == 16 * 8
      then (let (end, done) = write_values b 15 0 0 msg values r in
          if done then send_ok b end else send_empty b end)
      else send_empty b r
]

written_or_not :
    (b : Bus) (k : ℕ) (r : Rsp b)
    → k ≢ 0
    → (msg : Text) (o : Option Text)
    → ((answered b r msg o).sent ≡ r.sent ++ (make_packet [] ∷ []))
      × ((answered b r msg o).machine.cpu.gpr k ≡ r.machine.cpu.gpr k)
unfolding send_empty
written_or_not b k r other msg none = (refl, refl)
written_or_not b k r other msg (some values) = elim (Bool-cases (length values == 16 * 8)) [
  | inl full ↦ rw full (answer_empty b k other r _ (first_round b k other msg values r))
  | inr part ↦ rw part (refl, refl)
]

-- Whatever its message, a `G` command is answered with the empty packet of an unknown command, and it changes no register but, at most, register 0.
pub cmd_write_registers-empty :
    (b : Bus) (k : ℕ) (msg : Text) (r : Rsp b)
    → k ≢ 0
    → ((cmd_write_registers b msg r).sent ≡ r.sent ++ (make_packet [] ∷ []))
      × ((cmd_write_registers b msg r).machine.cpu.gpr k ≡ r.machine.cpu.gpr k)
unfolding cmd_write_registers send_empty
cmd_write_registers-empty b k msg r other =
    written_or_not b k r other msg (match_write_registers msg)

-- The type of a breakpoint is the third byte of the message.
type_of_match :
    (letter : ℕ) (msg : Text) (m : ℕ × Text × ℕ)
    → match_breakpoint letter msg ≡ some m
    → m.0 ≡ at 2 msg
unfolding match_breakpoint at command expect
type_of_match letter [] m h = cc
type_of_match letter (c ∷ []) m h = ground arith
type_of_match letter (c ∷ d ∷ s) m h = ground arith

-- A message with a third byte is longer than the text "1" that the first test compares it with.
rejected_hardware : (msg : Text) (kind : ℕ) → at 2 msg ≡ b'1' → is_rejected msg b'1' kind ≡ true
unfolding is_rejected text_eq at
rejected_hardware [] kind h = absurd (omega arith)
rejected_hardware (c ∷ []) kind h = absurd (omega arith)
rejected_hardware (c ∷ d ∷ s) kind h = ground arith

hardware_rejected :
    (b : Bus) (letter : ℕ) (change : ℕ → List ℕ → List ℕ) (msg : Text) (r : Rsp b)
    → at 2 msg ≡ b'1'
    → (o : Option (ℕ × Text × ℕ)) → match_breakpoint letter msg ≡ o
    → change_breakpoints b letter change msg r ≡ send_empty b r
unfolding change_breakpoints
hardware_rejected b letter change msg r one none e = rw (change_breakpoints, e) refl
hardware_rejected b letter change msg r one (some (type, address, kind)) e =
    let hardware : type ≡ b'1' = type_of_match letter msg (type, address, kind) e ∙ one in
    let rejected : is_rejected msg type kind ≡ true =
      rw hardware (rejected_hardware msg kind one) in
    rw (change_breakpoints, e, rejected) refl

-- A breakpoint of type 1, one of the hardware, is neither set nor removed: both commands are answered with the empty packet of an unknown command, and nothing else changes.
pub breakpoint-hardware :
    (b : Bus) (msg : Text) (r : Rsp b)
    → at 2 msg ≡ b'1'
    → (cmd_add_breakpoint b msg r ≡ send_empty b r) × (cmd_rm_breakpoint b msg r ≡ send_empty b r)
unfolding cmd_add_breakpoint cmd_rm_breakpoint
breakpoint-hardware b msg r one = (
  hardware_rejected b b'Z' insert msg r one (match_breakpoint b'Z' msg) refl,
  hardware_rejected b b'z' erase msg r one (match_breakpoint b'z' msg) refl,
)
