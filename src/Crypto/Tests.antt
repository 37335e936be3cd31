-- ===== src/Crypto/Tests.antt =====
-- Runs of the hash of src/util/crypto.hh.
use matar.Base.{ℕ, ◌≡◌, refl, false, ◌∷◌, [], arith}
use matar.Crypto.{
  initial_hash, sha256, block_bytes, bytes_left, copied, marked, with_length, word_of, first_words,
  next_word, extend, round, digest_text,
}
use matar.Crypto.Padding.{message, block_count, hash_blocks, sha256-pads}
use matar.Gdb.Text.{at, codes}

-- The text `abc`, as an array.
abbrev abc : ℕ → ℕ
abc i = at i (codes "abc")

-- The words of its block, the last first, and the words 16 to 19 before them.
abc_words :
    extend 4 (first_words 16 (block_bytes abc 3 0 false))
    ≡ 0x600003c6 ∷ 0x7da86405 ∷ 0xf0000 ∷ 0x61626380 ∷ 24 ∷ 0 ∷ 0 ∷ 0 ∷ 0 ∷ 0 ∷ 0 ∷ 0 ∷ 0 ∷ 0 ∷ 0
      ∷ 0 ∷ 0 ∷ 0 ∷ 0 ∷ 0x61626380 ∷ []
unfolding extend next_word first_words word_of block_bytes bytes_left copied marked with_length at
abc_words = refl

-- The first pass over its block.
abc_round : round 0x428a2f98 0x61626380 initial_hash ≡ record {
  h0 = 0x5d6aebcd;
  h1 = 0x6a09e667;
  h2 = 0xbb67ae85;
  h3 = 0x3c6ef372;
  h4 = 0xfa2a4622;
  h5 = 0x510e527f;
  h6 = 0x9b05688c;
  h7 = 0x1f83d9ab;
}
unfolding round
abc_round = refl

-- With 55 bytes the length fits behind the mark, but the block has none.
without_length :
    (block_bytes abc 55 0 false 63 ≡ 0) × (message abc 55 63 ≡ 0xB8) × (block_count 55 ≡ 1)
unfolding block_bytes bytes_left copied marked with_length at
without_length = (refl, refl, refl)

sha256-pads_example :
    sha256 abc 64 ≡ digest_text (hash_blocks (block_count 64) abc 64 0 initial_hash)
sha256-pads_example = sha256-pads abc 64 (omega arith, (omega arith, omega arith))
