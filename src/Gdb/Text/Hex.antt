-- ===== src/Gdb/Text/Hex.antt =====
-- Hexadecimal texts of src/gdb_rsp.cc: what `std::stoul` returns for digits, and for those that
-- `std::format` writes.
use mathlib.Core.List.{◌++◌}
use mathlib.Core.Option.{some}
use matar.Base.{
  ℕ, ◌+◌, ◌*◌, ◌/◌, ◌%◌, ◌^◌, ◌<◌, ◌≡◌, refl, true, false, ◌==◌, [], ◌∷◌, arith, ◌∙◌, ap,
}
use matar.Gdb.Text.{
  Text, is_hex, digit_value, read_digits, is_space, skip_spaces, skip_prefix, read_number, stoul,
  at, digit, format_byte, append_le, be_to_le, ◌>>=◌,
}

abbrev pub AllHex : Text → Type 0
AllHex [] = Unit {0}
AllHex (c ∷ s) = (is_hex c ≡ true) × AllHex s

pub AllHex-append : (s t : Text) → AllHex s → AllHex t → AllHex (s ++ t)
AllHex-append [] t hs ht = ht
AllHex-append (c ∷ s) t hs ht = (hs.0, AllHex-append s t hs.1 ht)

pub digit-is_hex : (n : ℕ) → n < 16 → is_hex (digit n) ≡ true
unfolding is_hex
digit-is_hex n h = ground arith

digit_value-digit : (n : ℕ) → n < 16 → digit_value (digit n) ≡ n
unfolding digit_value
digit_value-digit n h = ground arith

is_hex-plain :
    (c : ℕ)
    → is_hex c ≡ true
    → (is_space c ≡ false)
      × ((c == b'-') ≡ false)
      × ((c == b'+') ≡ false)
      × ((c == b'x') ≡ false)
      × ((c == b'X') ≡ false)
unfolding is_hex is_space
is_hex-plain c h =
    (ground (arith, h), ground (arith, h), ground (arith, h), ground (arith, h), ground (arith, h))

skip_prefix-hex : (s : Text) → AllHex s → skip_prefix s ≡ s
unfolding skip_prefix at
skip_prefix-hex [] h = refl
skip_prefix-hex (c ∷ []) h = ground arith
skip_prefix-hex (c ∷ d ∷ s) h = let plain = is_hex-plain d h.1.0 in ground (arith, plain.3, plain.4)

stoul_plain :
    (s : Text)
    → skip_spaces s ≡ s
    → (at 0 s == b'-') ≡ false
    → (at 0 s == b'+') ≡ false
    → stoul s ≡ read_number s
unfolding stoul
stoul_plain s same minus plus = rw (same, minus, plus) refl

skip_spaces-hex : (c : ℕ) (s : Text) → is_hex c ≡ true → skip_spaces (c ∷ s) ≡ c ∷ s
unfolding skip_spaces
skip_spaces-hex c s h = rw ((is_hex-plain c h).0) refl

read_number-hex :
    (c : ℕ) (s : Text)
    → AllHex (c ∷ s)
    → read_digits 0 (c ∷ s) < 2 ^ 64
    → read_number (c ∷ s) ≡ some (read_digits 0 (c ∷ s))
unfolding read_number at
read_number-hex c s h fits = rw (skip_prefix-hex (c ∷ s) h) (ground (arith, h.0, fits))

-- Digits alone are read as their number, where it fits.
pub stoul-hex :
    (c : ℕ) (s : Text)
    → AllHex (c ∷ s)
    → read_digits 0 (c ∷ s) < 2 ^ 64
    → stoul (c ∷ s) ≡ some (read_digits 0 (c ∷ s))
unfolding at
stoul-hex c s h fits =
    stoul_plain (c ∷ s) (skip_spaces-hex c s h.0) (is_hex-plain c h.0).1 (is_hex-plain c h.0).2
    ∙ read_number-hex c s h fits

read_digits-digit :
    (n v : ℕ) (s : Text) → v < 16 → read_digits n (digit v ∷ s) ≡ read_digits (n * 16 + v) s
unfolding read_digits
read_digits-digit n v s h = rw (digit-is_hex v h, digit_value-digit v h) refl

pub read_digits-byte :
    (n v : ℕ) (s : Text)
    → v < 2 ^ 8
    → read_digits n (format_byte v ++ s) ≡ read_digits (n * 256 + v) s
unfolding format_byte
read_digits-byte n v s h =
    let e : (n * 16 + v / 16) * 16 + v % 16 ≡ n * 256 + v = omega arith in
    read_digits-digit n (v / 16) (digit (v % 16) ∷ s) (omega arith)
    ∙ read_digits-digit (n * 16 + v / 16) (v % 16) s (omega arith)
    ∙ rw e refl

read_digits_end : (n : ℕ) → read_digits n [] ≡ n
unfolding read_digits
read_digits_end n = refl

last_byte : (n v : ℕ) → v < 2 ^ 8 → read_digits n (format_byte v) ≡ n * 256 + v
unfolding format_byte
last_byte n v h = read_digits-byte n v [] h ∙ read_digits_end (n * 256 + v)

pub format_byte-AllHex : (v : ℕ) → v < 2 ^ 8 → AllHex (format_byte v)
unfolding format_byte
format_byte-AllHex v h =
    (digit-is_hex (v / 16) (omega arith), (digit-is_hex (v % 16) (omega arith), tt))

pub stoul-format_byte : (v : ℕ) → v < 2 ^ 8 → stoul (format_byte v) ≡ some v
unfolding format_byte
stoul-format_byte v h =
    let value : read_digits 0 (format_byte v) ≡ v = last_byte 0 v h ∙ omega arith in
    stoul-hex (digit (v / 16)) (digit (v % 16) ∷ []) (format_byte-AllHex v h) (omega (arith, value))
    ∙ ap some value

-- The word that a text of eight digits stands for, its lowest byte first.
abbrev swapped : ℕ → Text
swapped v =
    format_byte (v / 2 ^ 24 % 2 ^ 8)
    ++ (format_byte (v / 2 ^ 16 % 2 ^ 8)
        ++ (format_byte (v / 2 ^ 8 % 2 ^ 8) ++ format_byte (v % 2 ^ 8)))

be_to_le-append_le : (v : ℕ) → be_to_le (append_le [] v) ≡ some (swapped v)
unfolding be_to_le append_le format_byte
be_to_le-append_le v = refl

four-AllHex :
    (a b c d : ℕ)
    → a < 2 ^ 8
    → b < 2 ^ 8
    → c < 2 ^ 8
    → d < 2 ^ 8
    → AllHex (format_byte a ++ (format_byte b ++ (format_byte c ++ format_byte d)))
four-AllHex a b c d ha hb hc hd = AllHex-append (format_byte a) _ (format_byte-AllHex a ha) (
    AllHex-append (format_byte b) _ (format_byte-AllHex b hb) (
      AllHex-append (format_byte c) (format_byte d) (format_byte-AllHex c hc)
        (format_byte-AllHex d hd)))

swapped-AllHex : (v : ℕ) → AllHex (swapped v)
swapped-AllHex v =
    four-AllHex (v / 2 ^ 24 % 2 ^ 8) (v / 2 ^ 16 % 2 ^ 8) (v / 2 ^ 8 % 2 ^ 8) (v % 2 ^ 8)
      (omega arith) (omega arith) (omega arith) (omega arith)

pub append_le-AllHex : (v : ℕ) → AllHex (append_le [] v)
unfolding append_le
append_le-AllHex v =
    four-AllHex (v % 2 ^ 8) (v / 2 ^ 8 % 2 ^ 8) (v / 2 ^ 16 % 2 ^ 8) (v / 2 ^ 24 % 2 ^ 8)
      (omega arith) (omega arith) (omega arith) (omega arith)

read_digits-swapped : (v : ℕ) → v < 2 ^ 32 → read_digits 0 (swapped v) ≡ v
read_digits-swapped v h =
    let b3 = v / 2 ^ 24 % 2 ^ 8 in
    let b2 = v / 2 ^ 16 % 2 ^ 8 in
    let b1 = v / 2 ^ 8 % 2 ^ 8 in
    let b0 = v % 2 ^ 8 in
    read_digits-byte 0 b3 _ (omega arith)
    ∙ read_digits-byte (0 * 256 + b3) b2 _ (omega arith)
    ∙ read_digits-byte ((0 * 256 + b3) * 256 + b2) b1 _ (omega arith)
    ∙ last_byte (((0 * 256 + b3) * 256 + b2) * 256 + b1) b0 (omega arith)
    ∙ omega arith

-- A word written with its lowest byte first is read back.
pub stoul-append_le : (v : ℕ) → v < 2 ^ 32 → (be_to_le (append_le [] v) >>= stoul) ≡ some v
unfolding format_byte
stoul-append_le v h =
    let value = read_digits-swapped v h in
    rw (be_to_le-append_le v) (
      stoul-hex (digit (v / 2 ^ 24 % 2 ^ 8 / 16)) _ (swapped-AllHex v) (omega (arith, value, h))
      ∙ ap some value)
