-- ===== src/Gdb/Text.antt =====
-- The texts that src/gdb_rsp.cc reads and writes: a text is its list of bytes. `std::stoul` and
-- `std::format` are those of the standard library, with `unsigned long` of 64 bits.
pub mod Hex
use Prim.Native.Char.{code}
use Prim.Native.String.{String}
use mathlib.Core.List.{◌++◌}
use mathlib.Core.Option.{Option, none, some}
use matar.Base.{
  ℕ, zero, suc, ◌+◌, ◌-◌, ◌*◌, ◌/◌, ◌%◌, ◌^◌, Bool, true, false, ◌&&◌, ◌||◌, ◌==◌, ltb, leb,
  if◌then◌else◌, List, [], ◌∷◌,
}

abbrev pub Text : Type 0
Text = List ℕ

-- The bytes of an ASCII text.
abbrev pub codes : String → Text
codes String.[] = []
codes (String.◌∷◌ c s) = code c ∷ codes s

abbrev pub length : Text → ℕ
length [] = 0
length (c ∷ s) = suc (length s)

infixl 5 ◌>>=◌ ◌>>◌
abbrev pub ◌>>=◌ {ℓ κ} : {A : Type ℓ} {B : Type κ} → Option A → (A → Option B) → Option B
none >>= f = none
some a >>= f = f a

abbrev pub guard : Bool → Option (Unit {0})
guard true = some tt
guard false = none

abbrev pub ◌>>◌ {κ} : {B : Type κ} → Option (Unit {0}) → Option B → Option B
m >> k = m >>= λ _. k

unfoldable pub text_eq : Text → Text → Bool
text_eq [] [] = true
text_eq [] (d ∷ t) = false
text_eq (c ∷ s) [] = false
text_eq (c ∷ s) (d ∷ t) = (c == d) && text_eq s t

-- `str.starts_with(prefix)`
unfoldable pub starts_with : Text → Text → Bool
starts_with [] s = true
starts_with (c ∷ prefix) [] = false
starts_with (c ∷ prefix) (d ∷ s) = (c == d) && starts_with prefix s

-- `str.find(part) != npos`, for a part that is not empty
unfoldable pub contains : Text → Text → Bool
contains part [] = false
contains part (c ∷ s) = starts_with part (c ∷ s) || contains part s

-- `str[i]`, which is the terminator at the end
unfoldable pub at : ℕ → Text → ℕ
at i [] = 0
at zero (c ∷ s) = c
at (suc i) (c ∷ s) = at i s

-- `str.substr(0, n)` and `str.substr(n)` within the text
unfoldable pub take : ℕ → Text → Text
take zero s = []
take (suc n) [] = []
take (suc n) (c ∷ s) = c ∷ take n s

unfoldable pub drop : ℕ → Text → Text
drop zero s = s
drop (suc n) [] = []
drop (suc n) (c ∷ s) = drop n s

-- `str.substr(from, n)`, which throws past the end
unfoldable pub substr : ℕ → ℕ → Text → Option Text
substr from n s = if ltb (length s) from then none else some (take n (drop from s))

unfoldable pub is_hex : ℕ → Bool
is_hex c = (leb b'0' c && leb c b'9') || ((leb b'A' c && leb c b'F') || (leb b'a' c && leb c b'f'))

unfoldable pub digit_value : ℕ → ℕ
digit_value c = if leb c b'9' then c - b'0' else if leb c b'F' then c + 10 - b'A' else c + 10 - b'a'

-- The value of the hexadecimal digits that a text begins with, behind those read before.
unfoldable pub read_digits : ℕ → Text → ℕ
unfolding is_hex digit_value
read_digits n [] = n
read_digits n (c ∷ s) =
    let rest = read_digits (n * 16 + digit_value c) s in if is_hex c then rest else n

unfoldable pub is_space : ℕ → Bool
is_space c = (c == 32) || (leb 9 c && leb c 13)

unfoldable pub skip_spaces : Text → Text
unfolding is_space
skip_spaces [] = []
skip_spaces (c ∷ s) = if is_space c then skip_spaces s else c ∷ s

-- The prefix `0x`, where a digit follows it.
unfoldable pub skip_prefix : Text → Text
unfolding is_hex
skip_prefix s =
    if (at 0 s == b'0') && (((at 1 s == b'x') || (at 1 s == b'X')) && is_hex (at 2 s))
    then drop 2 s
    else s

-- Without a digit `stoul` throws, and with a value that does not fit.
unfoldable pub read_number : Text → Option ℕ
unfolding read_digits skip_prefix is_hex
read_number s =
    let digits = skip_prefix s in
    let n = read_digits 0 digits in if is_hex (at 0 digits) && ltb n (2 ^ 64) then some n else none

-- `std::stoul(str, nullptr, 16)`: a number behind a minus sign is negated in 64 bits.
unfoldable pub stoul : Text → Option ℕ
unfolding skip_spaces read_number
stoul str =
    let s = skip_spaces str in
    if at 0 s == b'-'
    then (read_number (drop 1 s) >>= λ n. some ((2 ^ 64 - n) % 2 ^ 64))
    else if at 0 s == b'+'
    then read_number (drop 1 s)
    else read_number s

abbrev pub digit : ℕ → ℕ
digit n = if ltb n 10 then b'0' + n else b'a' + n - 10

-- `std::format("{:02x}", value)` of a byte
unfoldable pub format_byte : ℕ → Text
format_byte value = digit (value / 16) ∷ digit (value % 16) ∷ []

unfoldable pub append_le : Text → ℕ → Text
unfolding format_byte
append_le str value =
    str
    ++ (format_byte (value % 2 ^ 8)
        ++ (format_byte (value / 2 ^ 8 % 2 ^ 8)
            ++ (format_byte (value / 2 ^ 16 % 2 ^ 8) ++ format_byte (value / 2 ^ 24 % 2 ^ 8))))

-- The pairs of digits from the last to the first; it throws for a text of another length than 8.
unfoldable pub be_to_le : Text → Option Text
be_to_le (a ∷ b ∷ c ∷ d ∷ e ∷ f ∷ g ∷ h ∷ []) = some (g ∷ h ∷ e ∷ f ∷ c ∷ d ∷ a ∷ b ∷ [])
be_to_le s = none
