-- ===== src/Sound/Queue.antt =====
-- The sound queue over many writes and reads: `SoundFIFO` of include/io/sound/sound.hh.
use mathlib.Core.List.{◌++◌, append_assoc, append-nil}
use matar.Base.{
  ℕ, zero, suc, ◌+◌, ◌*◌, ◌≤◌, ◌<◌, ◌≡◌, refl, sym, ◌∙◌, ap, true, false, List, [], ◌∷◌, leb, arith,
  inl, inr, Bool-cases, u8, ◌>>>◌,
}
use matar.Sound.Fifo.{SoundFifo, length, size, max_bytes, write, read}

length-append : (xs ys : List ℕ) → length (xs ++ ys) ≡ length xs + length ys
unfolding length
length-append [] ys = omega arith
length-append (x ∷ xs) ys = omega (arith, length-append xs ys)

-- The two bytes of a halfword, the lower one first.
abbrev pub bytes_of : ℕ → List ℕ
bytes_of h = u8 h ∷ u8 (h >>> 8) ∷ []

write-room :
    (h : ℕ) (q : SoundFifo) → size q < 30 → write h q ≡ record { fifo = q.fifo ++ bytes_of h }
unfolding write
write-room h q room =
    let test : leb max_bytes (size q + 2) ≡ false = ground arith in
    rw test (λ i. record { fifo = append_assoc q.fifo (u8 h ∷ []) (u8 (h >>> 8) ∷ []) i })

write-full : (h : ℕ) (q : SoundFifo) → 30 ≤ size q → write h q ≡ q
unfolding write
write-full h q full = let test : leb max_bytes (size q + 2) ≡ true = ground arith in rw test refl

size-write_room : (h : ℕ) (q : SoundFifo) → size q < 30 → size (write h q) ≡ size q + 2
unfolding size
size-write_room h q room =
    rw (write-room h q room) (unfold length in length-append q.fifo (bytes_of h))

-- What is done to a queue.
pub data FifoStep : SoundFifo → SoundFifo → Type 0 where
  wrote : (q : SoundFifo) (h : ℕ) → FifoStep q (write h q)
  took : (q : SoundFifo) → FifoStep q (read q).1

pub data FifoReach (q : SoundFifo) : SoundFifo → Type 0 where
  here : FifoReach q q
  next : {r s : SoundFifo} → FifoReach q r → FifoStep r s → FifoReach q s

size-read : (q : SoundFifo) → size (read q).1 ≤ size q
unfolding size read length
size-read q = taken q.fifo
  where
    taken : (xs : List ℕ) → size (read (record { fifo = xs })).1 ≤ length xs
    taken [] = omega arith
    taken (x ∷ xs) = omega arith

FifoStep-bounded : {q r : SoundFifo} → FifoStep q r → size q < 32 → size r < 32
FifoStep-bounded (wrote q h) b = elim (Bool-cases (leb 30 (size q))) [
  | inl e ↦ rw (write-full h q (ground arith)) b
  | inr e ↦ rw (size-write_room h q (ground arith)) (ground arith)
]
FifoStep-bounded (took q) b = omega (arith, size-read q)

-- However a queue that starts below 32 bytes is written and read, it stays below 32 bytes.
pub FifoReach-bounded : (q r : SoundFifo) → FifoReach q r → size q < 32 → size r < 32
FifoReach-bounded q r here b = b
FifoReach-bounded q r (next {r = m} reached step) b =
    FifoStep-bounded step (FifoReach-bounded q m reached b)

pub writes : List ℕ → SoundFifo → SoundFifo
writes [] q = q
writes (h ∷ hs) q = writes hs (write h q)

-- The bytes that `n` reads return, and the queue that they leave.
pub reads : ℕ → SoundFifo → List ℕ × SoundFifo
reads zero q = ([], q)
reads (suc n) q = let (v, rest) = read q in let (vs, last) = reads n rest in (v ∷ vs, last)

pub bytes_of_all : List ℕ → List ℕ
bytes_of_all [] = []
bytes_of_all (h ∷ hs) = bytes_of h ++ bytes_of_all hs

reads-append :
    (xs ys : List ℕ) → reads (length xs) (record { fifo = xs ++ ys }) ≡ (xs, record { fifo = ys })
unfolding reads read length
reads-append [] ys = refl
reads-append (x ∷ xs) ys = rw (reads-append xs ys) refl

writes-room :
    (hs : List ℕ) (q : SoundFifo)
    → size q + 2 * length hs < 32
    → writes hs q ≡ record { fifo = q.fifo ++ bytes_of_all hs }
unfolding writes bytes_of_all length
writes-room [] q room = λ i. record { fifo = sym (append-nil q.fifo) i }
writes-room (h ∷ hs) q room =
    let accepted : size q < 30 = omega arith in
    let grown = size-write_room h q accepted in
    writes-room hs (write h q) (omega (arith, grown))
    ∙ ap (λ (r : SoundFifo). record { fifo = r.fifo ++ bytes_of_all hs }) (write-room h q accepted)
    ∙ (λ i. record { fifo = append_assoc q.fifo (bytes_of h) (bytes_of_all hs) i })

length-bytes_of_all : (hs : List ℕ) → length (bytes_of_all hs) ≡ 2 * length hs
unfolding length bytes_of_all
length-bytes_of_all [] = refl
length-bytes_of_all (h ∷ hs) = omega (arith, length-bytes_of_all hs)

size-writes :
    (hs : List ℕ) (q : SoundFifo)
    → size q + 2 * length hs < 32
    → size (writes hs q) ≡ size q + 2 * length hs
unfolding size
size-writes hs q room =
    rw (writes-room hs q room)
      (omega (arith, length-append q.fifo (bytes_of_all hs), length-bytes_of_all hs))

-- Halfwords written to a queue with room for them are read behind what it held, byte by byte, the lower byte of each first.
pub reads-writes :
    (hs : List ℕ) (q : SoundFifo)
    → size q + 2 * length hs < 32
    → reads (size q + 2 * length hs) (writes hs q)
      ≡ (q.fifo ++ bytes_of_all hs, record { fifo = [] })
reads-writes hs q room =
    let all = q.fifo ++ bytes_of_all hs in
    let count : size q + 2 * length hs ≡ length all =
      unfold size in
      omega (arith, length-append q.fifo (bytes_of_all hs), length-bytes_of_all hs) in
    let whole : all ++ [] ≡ all = append-nil all in
    rw (writes-room hs q room, count) (rw whole at (reads-append all []))

-- A refill of four words, as a sound transfer makes one, of a queue of 16 bytes puts the first seven of its eight
-- halfwords behind what the queue held, the lower byte of each first, and drops the last: it leaves 30 bytes.
pub writes-refill :
    (a b c d e f g h : ℕ) (q : SoundFifo)
    → size q ≡ 16
    → (writes (a ∷ b ∷ c ∷ d ∷ e ∷ f ∷ g ∷ h ∷ []) q
        ≡ record { fifo = q.fifo ++ bytes_of_all (a ∷ b ∷ c ∷ d ∷ e ∷ f ∷ g ∷ []) })
      × (size (writes (a ∷ b ∷ c ∷ d ∷ e ∷ f ∷ g ∷ h ∷ []) q) ≡ 30)
unfolding writes
writes-refill a b c d e f g h q start =
    let seven = a ∷ b ∷ c ∷ d ∷ e ∷ f ∷ g ∷ [] in
    let room : size q + 2 * length seven < 32 = unfold length in omega arith in
    let held : size (writes seven q) ≡ size q + 2 * length seven = size-writes seven q room in
    let dropped = write-full h (writes seven q) (unfold length in omega (arith, held)) in
    let count : size (writes seven q) ≡ 30 = unfold length in omega (arith, held) in
    (dropped ∙ writes-room seven q room, ap size dropped ∙ count)
