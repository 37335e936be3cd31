-- ===== src/Gdb/Pattern.antt =====
-- The regular expressions of src/gdb_rsp.cc, matched against a whole message: the groups of a match, or
-- nothing. A group of hexadecimal digits ends at the first other byte, so there is one way to match.
use mathlib.Core.Option.{Option, none, some}
use matar.Base.{ℕ, Bool, true, false, ◌||◌, ◌==◌, if◌then◌else◌, [], ◌∷◌}
use matar.Gdb.Text.{Text, ◌>>=◌, ◌>>◌, guard, is_hex, at, drop}

-- The longest run of hexadecimal digits, and what follows it.
unfoldable pub hex_run : Text → Text
unfolding is_hex
hex_run [] = []
hex_run (c ∷ s) = let rest = hex_run s in if is_hex c then c ∷ rest else []

unfoldable pub after_run : Text → Text
unfolding is_hex
after_run [] = []
after_run (c ∷ s) = if is_hex c then after_run s else c ∷ s

-- `[0-9A-Fa-f]+`: the group and what follows it.
unfoldable pub hex_group : Text → Option (Text × Text)
unfolding hex_run after_run is_hex
hex_group s = if is_hex (at 0 s) then some (hex_run s, after_run s) else none

-- One byte that stands for itself.
unfoldable pub expect : ℕ → Text → Option Text
expect c [] = none
expect c (d ∷ s) = if d == c then some s else none

unfoldable pub at_end : Text → Bool
at_end [] = true
at_end (c ∷ s) = false

-- The two bytes that a message begins with, `$` and the letter of a command.
unfoldable pub command : ℕ → Text → Option Text
unfolding expect
command letter msg = do s ← expect b'$' msg; expect letter s

-- `\$G([0-9A-Fa-f]+)`
unfoldable pub match_write_registers : Text → Option Text
unfolding command hex_group at_end
match_write_registers msg = do s ← command b'G' msg; g ← hex_group s; guard (at_end g.1); some g.0

-- Two groups of digits with a byte between them.
unfoldable pub two_groups : ℕ → Text → Option (Text × Text × Text)
unfolding hex_group expect
two_groups between s = do
  g ← hex_group s
  t ← expect between g.1
  h ← hex_group t
  some (g.0, h.0, h.1)

-- `\$P([0-9A-Fa-f]+)\=([0-9A-Fa-f]+)` and `\$m([0-9A-Fa-f]+),([0-9A-Fa-f]+)`
unfoldable pub match_pair : ℕ → ℕ → Text → Option (Text × Text)
unfolding command two_groups at_end
match_pair letter between msg = do
  s ← command letter msg
  g ← two_groups between s
  guard (at_end g.2)
  some (g.0, g.1)

-- `\$M([0-9A-Fa-f]+),([0-9A-Fa-f]+):([0-9A-Fa-f]+)`
unfoldable pub match_write_memory : Text → Option (Text × Text × Text)
unfolding command two_groups hex_group expect at_end
match_write_memory msg = do
  s ← command b'M' msg
  g ← two_groups b',' s
  t ← expect b':' g.2
  h ← hex_group t
  guard (at_end h.1)
  some (g.0, g.1, h.0)

-- `\$z(0|1),([0-9A-Fa-f]+),(2|3|4)` and `\$Z(0|1),([0-9A-Fa-f]+),(2|3|4)`: the type, the address and the
-- kind.
unfoldable pub match_breakpoint : ℕ → Text → Option (ℕ × Text × ℕ)
unfolding command expect hex_group at_end
match_breakpoint letter msg = do
  s ← command letter msg
  guard ((at 0 s == b'0') || (at 0 s == b'1'))
  t ← expect b',' (drop 1 s)
  g ← hex_group t
  u ← expect b',' g.1
  guard ((at 0 u == b'2') || ((at 0 u == b'3') || (at 0 u == b'4')))
  guard (at_end (drop 1 u))
  some (at 0 s, g.0, at 0 u)
