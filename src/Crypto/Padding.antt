-- ===== src/Crypto/Padding.antt =====
-- The padding of src/util/crypto.hh against that of the standard: the message, a byte of 0x80, zeros, and the
-- number of its bits in eight bytes, in as many blocks of 64 bytes as these need.
use matar.Base.{
  ℕ, zero, suc, ◌+◌, ◌-◌, ◌*◌, ◌/◌, ◌%◌, ◌^◌, ◌<◌, ◌≤◌, ◌≡◌, ◌≢◌, ◌==◌, ◌||◌, refl, sym, ap, Bool,
  true, false, ltb, Bool-cases, ==_false, inl, inr, leb, if◌then◌else◌, ◌>>>◌, arith,
}
use mathlib.Core.Path.{subst}
use matar.Crypto.{
  padding_bits, padded_length, bytes_left, copied, marked, with_length, block_bytes, word_of,
  first_words, Digest, initial_hash, compress, process, blocks, digest_text, sha256,
}

-- The blocks, and the bytes of the padded message.
abbrev pub block_count : ℕ → ℕ
block_count size = (size + 8) / 64 + 1

abbrev pub message : (ℕ → ℕ) → ℕ → ℕ → ℕ
message input size p =
    let total = 64 * block_count size in
    if ltb p size
    then input p
    else if p == size
    then 0x80
    else if ltb p (total - 8)
    then 0
    else ((size * 8) >>> ((total - 1 - p) * 8)) % 2 ^ 8

-- The hash of `n` blocks of the padded message, from block `b` on.
unfoldable pub hash_blocks : ℕ → (ℕ → ℕ) → ℕ → ℕ → Digest → Digest
hash_blocks zero input size b h = h
hash_blocks (suc n) input size b h =
    hash_blocks n input size (b + 1) (process (λ j. message input size (64 * b + j)) h)

padded_length-block_count : (size : ℕ) → padded_length size ≡ 64 * block_count size
unfolding padded_length padding_bits
padded_length-block_count size = omega arith

-- The lengths that the code pads as the standard does.
abbrev pub IsPadded : ℕ → Type 0
IsPadded size = (0 < size) × ((size % 64 ≢ 54) × (size % 64 ≢ 55))

first_words-ext :
    (n : ℕ) (f g : ℕ → ℕ) → ((j : ℕ) → j < n * 4 → f j ≡ g j) → first_words n f ≡ first_words n g
unfolding first_words word_of
first_words-ext zero f g same = refl
first_words-ext (suc n) f g same =
    rw
      (
        first_words-ext n f g (λ j h. same j (omega arith)),
        same (n * 4) (omega arith),
        same (n * 4 + 1) (omega arith),
        same (n * 4 + 2) (omega arith),
        same (n * 4 + 3) (omega arith),
      )
      refl

process-ext :
    (f g : ℕ → ℕ) (h : Digest) → ((j : ℕ) → j < 64 → f j ≡ g j) → process f h ≡ process g h
unfolding process
process-ext f g h same = ap (λ w. compress w h) (first_words-ext 16 f g same)

or_false : (c d : Bool) → d ≡ false → (c || d) ≡ c
or_false true d h = refl
or_false false d h = h

module _ (input : ℕ → ℕ) (size : ℕ) (ok : IsPadded size) (b : ℕ)
    (within : b < block_count size) where
  abbrev i : ℕ
  i = 64 * b

  module _ (j : ℕ) (jl : j < 64) where
    whole : 64 ≤ bytes_left size i → input (i + j) ≡ message input size (i + j)
    unfolding bytes_left
    whole h = ground arith

    part :
        bytes_left size i < 64
        → with_length size
            (bytes_left size i)
            (marked (bytes_left size i) (i == size) (copied input i (bytes_left size i)))
            j
          ≡ message input size (i + j)
    unfolding bytes_left with_length marked copied
    part h = ground arith

    block_bytes-message :
        (c : Bool)
        → c ≡ (i == size)
        → block_bytes input size i (c || (bytes_left size i == 64)) j ≡ message input size (i + j)
    unfolding block_bytes
    block_bytes-message c e = elim (Bool-cases (leb 64 (bytes_left size i))) [
      | inl h ↦ rw h (whole (ground arith))
      | inr h ↦
          rw (h, or_false c _ (==_false (bytes_left size i) 64 (ground arith)), e)
            (part (ground arith))
    ]

  process-message :
      (c : Bool) (h : Digest)
      → c ≡ (i == size)
      → process (block_bytes input size i (c || (bytes_left size i == 64))) h
        ≡ process (λ j. message input size (i + j)) h
  process-message c h e = process-ext _ _ h (λ j jl. block_bytes-message j jl c e)

module _ (input : ℕ → ℕ) (size : ℕ) (ok : IsPadded size) where
  ltb-done : (b : ℕ) → b ≡ block_count size → ltb (64 * b) (padded_length size) ≡ false
  ltb-done b h = rw (padded_length-block_count size) (ground arith)

  ltb-more : (b : ℕ) → b < block_count size → ltb (64 * b) (padded_length size) ≡ true
  ltb-more b h = rw (padded_length-block_count size) (ground arith)

  mark-next :
      (n b : ℕ) (c : Bool)
      → 0 < n
      → b + suc n ≡ block_count size
      → c ≡ (64 * b == size)
      → (c || (bytes_left size (64 * b) == 64)) ≡ (64 * (b + 1) == size)
  unfolding bytes_left
  mark-next n b c l e m = rw m (ground arith)

  next-step : (b : ℕ) → 64 * (b + 1) ≡ 64 * b + 64
  next-step b = omega arith

  blocks-hash_blocks :
      (fuel n b : ℕ) (c : Bool) (h : Digest)
      → n ≤ fuel
      → b + n ≡ block_count size
      → (0 < n → c ≡ (64 * b == size))
      → blocks fuel input size (64 * b) c h ≡ hash_blocks n input size b h
  unfolding blocks hash_blocks
  blocks-hash_blocks zero zero b c h le e m = refl
  blocks-hash_blocks zero (suc n) b c h le e m = absurd (omega arith)
  blocks-hash_blocks (suc fuel) zero b c h le e m = rw (ltb-done b (omega arith)) refl
  blocks-hash_blocks (suc fuel) (suc n) b c h le e m =
      let now = c || (bytes_left size (64 * b) == 64) in
      let hashed = process (λ j. message input size (64 * b + j)) h in
      rw
        (
          ltb-more b (omega arith),
          process-message input size ok b (omega arith) c h (m (omega arith)),
        )
        (subst
          (λ next. blocks fuel input size next now hashed ≡ hash_blocks n input size (b + 1) hashed)
          (next-step b)
          (blocks-hash_blocks fuel n (b + 1) now hashed (omega arith) (omega arith)
            (λ l. mark-next n b c l e (m (omega arith)))))

-- The loop over the blocks, its mark and its lengths hash the padded message of the standard, for an array that
-- is not empty and does not have 54 or 55 bytes in its last block.
pub sha256-pads :
    (input : ℕ → ℕ) (size : ℕ)
    → IsPadded size
    → sha256 input size ≡ digest_text (hash_blocks (block_count size) input size 0 initial_hash)
unfolding sha256
sha256-pads input size ok = ap digest_text (
    blocks-hash_blocks input size ok (padded_length size) (block_count size) 0 false initial_hash
      (rw (padded_length-block_count size) (omega arith)) (omega arith)
      (λ _. sym (==_false 0 size (omega arith))))
