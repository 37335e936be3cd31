-- ===== src/Crypto.antt =====
-- src/util/crypto.hh: SHA-256 of an array. `input` is the array `data` and `size` its length `N`, with `N * 8` in
-- `size_t`. The bytes of a block are a function of their place.
pub mod Padding
mod Tests
use mathlib.Core.List.{◌++◌, reverse}
use matar.Base.{
  ℕ, zero, suc, ◌+◌, ◌-◌, ◌*◌, ◌/◌, ◌%◌, ◌^◌, Bool, true, false, ◌||◌, ◌==◌, ltb, leb,
  if◌then◌else◌, List, [], ◌∷◌, put, u32, ◌<<<◌, ◌>>>◌, bit_and, bit_or, bit_xor, bit_not,
}
use matar.Alu.{rotr32}
use matar.Gdb.Text.{Text, format_byte}

-- The array `h`, and `h0` of a block.
pub record Digest : Type 0 where
  h0 : ℕ
  h1 : ℕ
  h2 : ℕ
  h3 : ℕ
  h4 : ℕ
  h5 : ℕ
  h6 : ℕ
  h7 : ℕ

-- `K`, and `h` at the start
abbrev pub round_constants : List ℕ
round_constants =
    0x428a2f98 ∷ 0x71374491 ∷ 0xb5c0fbcf ∷ 0xe9b5dba5 ∷ 0x3956c25b ∷ 0x59f111f1 ∷ 0x923f82a4
    ∷ 0xab1c5ed5 ∷ 0xd807aa98 ∷ 0x12835b01 ∷ 0x243185be ∷ 0x550c7dc3 ∷ 0x72be5d74 ∷ 0x80deb1fe
    ∷ 0x9bdc06a7 ∷ 0xc19bf174 ∷ 0xe49b69c1 ∷ 0xefbe4786 ∷ 0x0fc19dc6 ∷ 0x240ca1cc ∷ 0x2de92c6f
    ∷ 0x4a7484aa ∷ 0x5cb0a9dc ∷ 0x76f988da ∷ 0x983e5152 ∷ 0xa831c66d ∷ 0xb00327c8 ∷ 0xbf597fc7
    ∷ 0xc6e00bf3 ∷ 0xd5a79147 ∷ 0x06ca6351 ∷ 0x14292967 ∷ 0x27b70a85 ∷ 0x2e1b2138 ∷ 0x4d2c6dfc
    ∷ 0x53380d13 ∷ 0x650a7354 ∷ 0x766a0abb ∷ 0x81c2c92e ∷ 0x92722c85 ∷ 0xa2bfe8a1 ∷ 0xa81a664b
    ∷ 0xc24b8b70 ∷ 0xc76c51a3 ∷ 0xd192e819 ∷ 0xd6990624 ∷ 0xf40e3585 ∷ 0x106aa070 ∷ 0x19a4c116
    ∷ 0x1e376c08 ∷ 0x2748774c ∷ 0x34b0bcb5 ∷ 0x391c0cb3 ∷ 0x4ed8aa4a ∷ 0x5b9cca4f ∷ 0x682e6ff3
    ∷ 0x748f82ee ∷ 0x78a5636f ∷ 0x84c87814 ∷ 0x8cc70208 ∷ 0x90befffa ∷ 0xa4506ceb ∷ 0xbef9a3f7
    ∷ 0xc67178f2 ∷ []

abbrev pub initial_hash : Digest
initial_hash = record {
  h0 = 0x6a09e667;
  h1 = 0xbb67ae85;
  h2 = 0x3c6ef372;
  h3 = 0xa54ff53a;
  h4 = 0x510e527f;
  h5 = 0x9b05688c;
  h6 = 0x1f83d9ab;
  h7 = 0x5be0cd19;
}

-- `k` and `L`
unfoldable pub padding_bits : ℕ → ℕ
padding_bits size = 512 - (size * 8 + 65) % 512

unfoldable pub padded_length : ℕ → ℕ
unfolding padding_bits
padded_length size = size + (65 + padding_bits size) / 8

-- `n`: how much of the array is left at `i`
unfoldable pub bytes_left : ℕ → ℕ → ℕ
bytes_left size i = if ltb i size then size - i else 0

-- `cur`: the rest of the array, the mark behind it, and the length in the last eight bytes
unfoldable pub copied : (ℕ → ℕ) → ℕ → ℕ → ℕ → ℕ
copied input i n j = if ltb j n then input (i + j) else 0

unfoldable pub marked : ℕ → Bool → (ℕ → ℕ) → ℕ → ℕ
marked n c cur = if ltb 0 n || c then put cur n 0x80 else cur

unfoldable pub with_length : ℕ → ℕ → (ℕ → ℕ) → ℕ → ℕ
with_length size n cur j =
    if ltb n 54 then if leb 56 j then ((size * 8) >>> ((63 - j) * 8)) % 2 ^ 8 else cur j else cur j

-- The bytes that `w[0]` to `w[15]` are made of.
unfoldable pub block_bytes : (ℕ → ℕ) → ℕ → ℕ → Bool → ℕ → ℕ
unfolding copied marked with_length
block_bytes input size i c j =
    let n = bytes_left size i in
    if leb 64 n then input (i + j) else with_length size n (marked n c (copied input i n)) j

unfoldable pub word_of : (ℕ → ℕ) → ℕ → ℕ
word_of bytes j = u32 (
    bit_or
      (bit_or (bit_or (bytes (j * 4) <<< 24) (bytes (j * 4 + 1) <<< 16)) (bytes (j * 4 + 2) <<< 8))
      (bytes (j * 4 + 3)))

-- The words from `w[j]` down to `w[0]`: a list with the last first.
unfoldable pub first_words : ℕ → (ℕ → ℕ) → List ℕ
unfolding word_of
first_words zero bytes = []
first_words (suc j) bytes = word_of bytes j ∷ first_words j bytes

abbrev pub word_at : ℕ → List ℕ → ℕ
word_at i [] = 0
word_at zero (x ∷ w) = x
word_at (suc i) (x ∷ w) = word_at i w

-- `w[j]` from `w[j - 16]`, `w[j - 7]`, `w[j - 15]` and `w[j - 2]`
unfoldable pub next_word : List ℕ → ℕ
next_word w =
    let a = word_at 14 w in
    let b = word_at 1 w in
    let s0 = bit_xor (bit_xor (rotr32 a 7) (rotr32 a 18)) (a >>> 3) in
    let s1 = bit_xor (bit_xor (rotr32 b 17) (rotr32 b 19)) (b >>> 10) in
    u32 (word_at 15 w + word_at 6 w + s0 + s1)

unfoldable pub extend : ℕ → List ℕ → List ℕ
unfolding next_word
extend zero w = w
extend (suc n) w = extend n (next_word w ∷ w)

-- The pass `j` over `h0`
unfoldable pub round : ℕ → ℕ → Digest → Digest
round k w d =
    let s1 = bit_xor (bit_xor (rotr32 d.h4 6) (rotr32 d.h4 11)) (rotr32 d.h4 25) in
    let ch = bit_xor (bit_and d.h4 d.h5) (bit_and (bit_not 32 d.h4) d.h6) in
    let t1 = u32 (d.h7 + s1 + ch + k + w) in
    let s0 = bit_xor (bit_xor (rotr32 d.h0 2) (rotr32 d.h0 13)) (rotr32 d.h0 22) in
    let maj = bit_xor (bit_xor (bit_and d.h0 d.h1) (bit_and d.h0 d.h2)) (bit_and d.h1 d.h2) in
    record {
      h0 = u32 (t1 + u32 (s0 + maj));
      h1 = d.h0;
      h2 = d.h1;
      h3 = d.h2;
      h4 = u32 (d.h3 + t1);
      h5 = d.h4;
      h6 = d.h5;
      h7 = d.h6;
    }

unfoldable pub rounds : List ℕ → List ℕ → Digest → Digest
unfolding round
rounds [] ws d = d
rounds (k ∷ ks) [] d = d
rounds (k ∷ ks) (w ∷ ws) d = rounds ks ws (round k w d)

-- `h[j] += h0[j]`
unfoldable pub add_digest : Digest → Digest → Digest
add_digest h d = record {
  h0 = u32 (h.h0 + d.h0);
  h1 = u32 (h.h1 + d.h1);
  h2 = u32 (h.h2 + d.h2);
  h3 = u32 (h.h3 + d.h3);
  h4 = u32 (h.h4 + d.h4);
  h5 = u32 (h.h5 + d.h5);
  h6 = u32 (h.h6 + d.h6);
  h7 = u32 (h.h7 + d.h7);
}

-- What a block does to `h`, from `w[15]` down to `w[0]`, and from its bytes.
unfoldable pub compress : List ℕ → Digest → Digest
unfolding extend rounds add_digest
compress w h = add_digest h (rounds round_constants (reverse (extend 48 w)) h)

unfoldable pub process : (ℕ → ℕ) → Digest → Digest
unfolding first_words compress
process bytes h = compress (first_words 16 bytes) h

-- The loop over the blocks from `i` on, with fuel for them and `c` as it stands.
unfoldable pub blocks : ℕ → (ℕ → ℕ) → ℕ → ℕ → Bool → Digest → Digest
unfolding bytes_left block_bytes process padded_length
blocks zero input size i c h = h
blocks (suc fuel) input size i c h =
    let now = c || (bytes_left size i == 64) in
    let rest = blocks fuel input size (i + 64) now (process (block_bytes input size i now) h) in
    if ltb i (padded_length size) then rest else h

unfoldable pub word_text : ℕ → Text
word_text h =
    format_byte ((h >>> 24) % 2 ^ 8)
    ++ (format_byte ((h >>> 16) % 2 ^ 8)
        ++ (format_byte ((h >>> 8) % 2 ^ 8) ++ format_byte (h % 2 ^ 8)))

unfoldable pub digest_text : Digest → Text
unfolding word_text
digest_text h =
    word_text h.h0
    ++ (word_text h.h1
        ++ (word_text h.h2
            ++ (word_text h.h3
                ++ (word_text h.h4 ++ (word_text h.h5 ++ (word_text h.h6 ++ word_text h.h7))))))

-- A block takes 64 bytes, so the length is fuel enough.
unfoldable pub sha256 : (ℕ → ℕ) → ℕ → Text
unfolding blocks digest_text
sha256 input size = digest_text (blocks (padded_length size) input size 0 false initial_hash)
