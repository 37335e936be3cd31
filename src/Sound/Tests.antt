-- ===== src/Sound/Tests.antt =====
-- Runs of the sound.
use mathlib.Core.List.{◌++◌}
use matar.Base.{◌≡◌, ◌<◌, refl, [], ◌∷◌, arith}
use matar.Sound.Fifo.{length, size, write, read}
use matar.Sound.Queue.{
  FifoReach-bounded, here, next, wrote, took, writes, bytes_of_all, writes-refill,
}
use matar.Samples.{sixteen}

FifoReach-bounded_example : size (read (write 0x201 sixteen)).1 < 32
unfolding size length
FifoReach-bounded_example =
    FifoReach-bounded sixteen (read (write 0x201 sixteen)).1
      (next (next here (wrote sixteen 0x201)) (took (write 0x201 sixteen))) (omega arith)

writes-refill_example :
    (writes (1 ∷ 2 ∷ 3 ∷ 4 ∷ 5 ∷ 6 ∷ 7 ∷ 8 ∷ []) sixteen
      ≡ record { fifo = sixteen.fifo ++ bytes_of_all (1 ∷ 2 ∷ 3 ∷ 4 ∷ 5 ∷ 6 ∷ 7 ∷ []) })
    × (size (writes (1 ∷ 2 ∷ 3 ∷ 4 ∷ 5 ∷ 6 ∷ 7 ∷ 8 ∷ []) sixteen) ≡ 30)
unfolding size length
writes-refill_example = writes-refill 1 2 3 4 5 6 7 8 sixteen refl
