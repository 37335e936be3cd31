-- ===== src/Memory/ReadBack.antt =====
-- What a memory returns after a write: include/memory.hh.
use matar.Base.{ℕ, ◌+◌, ◌^◌, ◌<◌, ◌≡◌, ◌≢◌, refl, arith, ◌⊎◌, ==_same, ==_false, u8, u16, ◌>>>◌}
use matar.Memory.{
  Memory, read_byte, write_byte, read_halfword, write_halfword, read_word, write_word,
}

pub read_byte-lt : (i : ℕ) (m : Memory) → read_byte i m < 2 ^ 8
unfolding read_byte
read_byte-lt i m = omega arith

pub read_halfword-lt : (i : ℕ) (m : Memory) → read_halfword i m < 2 ^ 16
unfolding read_halfword
read_halfword-lt i m = omega (arith, read_byte-lt i m, read_byte-lt (i + 1) m)

pub read_word-lt : (i : ℕ) (m : Memory) → read_word i m < 2 ^ 32
unfolding read_word
read_word-lt i m = omega (arith, read_halfword-lt i m, read_halfword-lt (i + 2) m)

read_byte-write_byte : (i b : ℕ) (m : Memory) → read_byte i (write_byte i b m) ≡ u8 b
unfolding read_byte write_byte
read_byte-write_byte i b m = rw (==_same i) refl

pub read_byte-write_byte_ne :
    (i j b : ℕ) (m : Memory) → i ≢ j → read_byte i (write_byte j b m) ≡ read_byte i m
unfolding read_byte write_byte
read_byte-write_byte_ne i j b m ne = rw (==_false i j ne) refl

-- A halfword reads back as it was written.
pub read_halfword-write_halfword :
    (i h : ℕ) (m : Memory) → h < 2 ^ 16 → read_halfword i (write_halfword i h m) ≡ h
unfolding read_halfword write_halfword
read_halfword-write_halfword i h m b = omega (
  arith,
  read_byte-write_byte_ne i (i + 1) (u8 (h >>> 8)) (write_byte i (u8 h) m) (λ e. omega arith),
  read_byte-write_byte i (u8 h) m,
  read_byte-write_byte (i + 1) (u8 (h >>> 8)) (write_byte i (u8 h) m),
)

-- A byte outside a halfword that is written is kept.
pub read_byte-write_halfword_ne :
    (i j h : ℕ) (m : Memory)
    → i ≢ j
    → i ≢ j + 1
    → read_byte i (write_halfword j h m) ≡ read_byte i m
unfolding write_halfword
read_byte-write_halfword_ne i j h m ne ne1 = ground (
  arith,
  read_byte-write_byte_ne i (j + 1) (u8 (h >>> 8)) (write_byte j (u8 h) m) ne1,
  read_byte-write_byte_ne i j (u8 h) m ne,
)

-- A byte outside a word that is written is kept.
pub read_byte-write_word_ne :
    (i j w : ℕ) (m : Memory)
    → (i < j) ⊎ (j + 3 < i)
    → read_byte i (write_word j w m) ≡ read_byte i m
unfolding write_word
read_byte-write_word_ne i j w m away = ground (
  arith,
  read_byte-write_halfword_ne i (j + 2) (u16 (w >>> 16)) (write_halfword j (u16 w) m),
  read_byte-write_halfword_ne i j (u16 w) m,
)

-- A word reads back as it was written.
pub read_word-write_word : (i w : ℕ) (m : Memory) → w < 2 ^ 32 → read_word i (write_word i w m) ≡ w
unfolding read_word write_word
read_word-write_word i w m b =
    let low = write_halfword i (u16 w) m in
    let upper = u16 (w >>> 16) in
    let below =
      read_byte-write_halfword_ne i (i + 2) upper low (λ e. omega arith) (λ e. omega arith) in
    let above =
      read_byte-write_halfword_ne (i + 1) (i + 2) upper low (λ e. omega arith) (λ e. omega arith) in
    let kept : read_halfword i (write_halfword (i + 2) upper low) ≡ read_halfword i low =
      unfold read_halfword in omega (arith, below, above) in
    omega (
      arith,
      kept,
      read_halfword-write_halfword i (u16 w) m (omega arith),
      read_halfword-write_halfword (i + 2) upper low (omega arith),
    )
