-- ===== src/Gdb/Command/Breakpoints.antt =====
-- The set of breakpoints of src/gdb_rsp.cc under the commands that it accepts.
use mathlib.Core.Option.{some}
use matar.Base.{ℕ, ◌≡◌, true, ◌||◌, ◌==◌}
use matar.Gdb.Text.{Text, stoul}
use matar.Gdb.Pattern.{match_breakpoint}

-- A message names the address `a` of a software breakpoint of a kind that the server takes.
pub record NamesBreakpoint (letter : ℕ) (msg : Text) (a : ℕ) : Type 0 where
  pub address : Text
  pub kind : ℕ
  pub matches : match_breakpoint letter msg ≡ some (b'0', address, kind)
  pub taken : ((kind == b'3') || (kind == b'4')) ≡ true
  pub number : stoul address ≡ some a
