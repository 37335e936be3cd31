-- ===== src/Sound/Fifo.antt =====
-- `SoundFIFO` of include/io/sound/sound.hh: a queue of signed bytes, kept as bit patterns. The front
-- is the head of the list.
use matar.Base.{ℕ, suc, ◌+◌, List, [], ◌∷◌, leb, if◌then◌else◌, u8, ◌>>>◌}
use mathlib.Core.List.{◌++◌}

pub record SoundFifo : Type 0 where
  pub fifo : List ℕ

unfoldable pub length : List ℕ → ℕ
length [] = 0
length (x ∷ xs) = suc (length xs)

unfoldable pub size : SoundFifo → ℕ
size q = length q.fifo

abbrev pub max_bytes : ℕ
max_bytes = 32

unfoldable pub write : ℕ → SoundFifo → SoundFifo
write h q =
    if leb max_bytes (size q + 2)
    then q
    else record { fifo = (q.fifo ++ u8 h ∷ []) ++ u8 (h >>> 8) ∷ [] }

unfoldable pub read : SoundFifo → ℕ × SoundFifo
read q = elim q.fifo [ [] ↦ (0, q) | v ∷ rest ↦ (v, record { fifo = rest }) ]
