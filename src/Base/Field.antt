-- ===== src/Base/Field.antt =====
-- The fields of a register that the source overlays on a word: bit `n`, the `w` bits from bit `lo`,
-- and a bit written. A bit field that the source leaves unnamed keeps the bits written to it.
use Prim.Native.Nat.{ℕ, ◌+◌, ◌-◌, ◌*◌, ◌/◌, ◌%◌, ◌^◌}
use mathlib.Core.Bool.{Bool}
use matar.Base.Test.{◌==◌, if◌then◌else◌, to_nat}

abbrev pub flag : ℕ → ℕ → Bool
flag n x = x / 2 ^ n % 2 == 1

abbrev pub field : ℕ → ℕ → ℕ → ℕ
field lo w x = x / 2 ^ lo % 2 ^ w

abbrev pub put_flag : ℕ → Bool → ℕ → ℕ
put_flag n b x = x - x / 2 ^ n % 2 * 2 ^ n + to_nat b * 2 ^ n

-- An array with one element written.
abbrev pub put {ℓ} : {A : Type ℓ} → (ℕ → A) → ℕ → A → ℕ → A
put f i x j = if j == i then x else f j
