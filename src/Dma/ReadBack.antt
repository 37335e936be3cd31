-- ===== src/Dma/ReadBack.antt =====
-- What the registers of the DMA read back: src/io/dma/registers.cc.
use matar.Base.{
  ℕ, zero, suc, ◌+◌, ◌*◌, ◌/◌, ◌%◌, ◌^◌, ◌<◌, ◌≡◌, refl, ◌∙◌, arith, ◌>>>◌, ==_same, bit_and,
  bit_and_low, bit_and_high, bit_or_join, bit_or_comm, bit_not, Bool-cases, inl, inr,
}
use matar.Scheduler.{Scheduler}
use matar.Dma.{Dma, write_and_eval_ctrl}
use matar.Dma.Control as Control
use matar.Dma.Registers.{low_half, high_half, read_halfword, write_halfword}

pub low_half_lem :
    (x halfword : ℕ)
    → x < 2 ^ 32
    → halfword < 2 ^ 16
    → low_half x halfword ≡ x / 2 ^ 16 * 2 ^ 16 + halfword
unfolding low_half
low_half_lem x halfword hx hh =
    let upper : bit_and x (bit_not 32 0xFFFF) ≡ x / 2 ^ 16 * 2 ^ 16 =
      bit_and_high 16 16 x (omega arith) in
    rw upper (bit_or_join 16 (x / 2 ^ 16) halfword hh)

pub high_half_lem : (x halfword : ℕ) → high_half x halfword ≡ halfword * 2 ^ 16 + x % 2 ^ 16
unfolding high_half
high_half_lem x halfword =
    let lower : bit_and x (bit_not 32 0xFFFF0000) ≡ x % 2 ^ 16 = bit_and_low 16 x in
    rw lower (
      bit_or_comm (x % 2 ^ 16) (halfword * 2 ^ 16)
      ∙ bit_or_join 16 halfword (x % 2 ^ 16) (omega arith))

halves : (x w : ℕ) → x < 2 ^ 32 → w < 2 ^ 32 → high_half (low_half x (w % 2 ^ 16)) (w >>> 16) ≡ w
halves x w hx hw =
    rw
      (
        high_half_lem (low_half x (w % 2 ^ 16)) (w >>> 16),
        low_half_lem x (w % 2 ^ 16) hx (omega arith),
      )
      (omega arith)

halves_read :
    (x w : ℕ)
    → x < 2 ^ 32
    → w < 2 ^ 32
    → let y = high_half (low_half x (w % 2 ^ 16)) (w >>> 16) in
      (y % 2 ^ 16 + y / 2 ^ 16 * 2 ^ 16 ≡ w) × (y ≡ w)
halves_read x w hx hw = let e = halves x w hx hw in rw e (omega arith, refl)

-- The addresses of the source, the destination and the control register of a channel.
abbrev pub source_address : ℕ → ℕ
source_address id = 0x40000B0 + 12 * id

abbrev pub destination_address : ℕ → ℕ
destination_address id = 0x40000B4 + 12 * id

abbrev pub control_address : ℕ → ℕ
control_address id = 0x40000BA + 12 * id

-- A word written to a register of two halfwords, the lower one first, and read from one.
abbrev pub write_word : ℕ → ℕ → Dma × Scheduler → Dma × Scheduler
write_word address w c =
    write_halfword (address + 2) (w >>> 16) (write_halfword address (w % 2 ^ 16) c)

abbrev pub read_word : ℕ → Dma → ℕ
read_word address d = read_halfword address d + read_halfword (address + 2) d * 2 ^ 16

-- A word written to the source address of a channel in two halfwords is what its two halfwords read back, and the transfer reads from it.
pub read_word-source :
    (id w : ℕ) (d : Dma) (s : Scheduler)
    → id < 4
    → (d id).source < 2 ^ 32
    → w < 2 ^ 32
    → (read_word (source_address id) (write_word (source_address id) w (d, s)).0 ≡ w)
      × (((write_word (source_address id) w (d, s)).0 id).source ≡ w)
unfolding read_halfword write_halfword
read_word-source zero w d s h hx hw = halves_read (d 0).source w hx hw
read_word-source (suc zero) w d s h hx hw = halves_read (d 1).source w hx hw
read_word-source (suc (suc zero)) w d s h hx hw = halves_read (d 2).source w hx hw
read_word-source (suc (suc (suc zero))) w d s h hx hw = halves_read (d 3).source w hx hw
read_word-source (suc (suc (suc (suc id)))) w d s h hx hw = absurd (omega arith)

-- A word written to the destination address of a channel in two halfwords is what its two halfwords read back, and the transfer writes to it.
pub read_word-destination :
    (id w : ℕ) (d : Dma) (s : Scheduler)
    → id < 4
    → (d id).destination < 2 ^ 32
    → w < 2 ^ 32
    → (read_word (destination_address id) (write_word (destination_address id) w (d, s)).0 ≡ w)
      × (((write_word (destination_address id) w (d, s)).0 id).destination ≡ w)
unfolding read_halfword write_halfword
read_word-destination zero w d s h hx hw = halves_read (d 0).destination w hx hw
read_word-destination (suc zero) w d s h hx hw = halves_read (d 1).destination w hx hw
read_word-destination (suc (suc zero)) w d s h hx hw = halves_read (d 2).destination w hx hw
read_word-destination (suc (suc (suc zero))) w d s h hx hw = halves_read (d 3).destination w hx hw
read_word-destination (suc (suc (suc (suc id)))) w d s h hx hw = absurd (omega arith)

written_control :
    (id raw : ℕ) (d : Dma) (s : Scheduler)
    → ((write_and_eval_ctrl id raw (d, s)).0 id).control ≡ Control.write raw
unfolding write_and_eval_ctrl
written_control id raw d s = elim (Bool-cases (Control.enable (Control.write raw))) [
  | inl e ↦ rw (e, ==_same id) refl
  | inr e ↦ rw (e, ==_same id) refl
]

control_kept : (raw : ℕ) → raw < 2 ^ 16 → Control.read (Control.write raw) ≡ raw / 2 * 2
unfolding Control.read Control.write
control_kept raw h = omega arith

-- A halfword written to the control register of a channel reads back without its lowest bit.
pub read_halfword-control :
    (id raw : ℕ) (d : Dma) (s : Scheduler)
    → id < 4
    → raw < 2 ^ 16
    → read_halfword (control_address id) (write_halfword (control_address id) raw (d, s)).0
      ≡ raw / 2 * 2
unfolding read_halfword write_halfword
read_halfword-control zero raw d s h hr = rw (written_control 0 raw d s) (control_kept raw hr)
read_halfword-control (suc zero) raw d s h hr = rw (written_control 1 raw d s) (control_kept raw hr)
read_halfword-control (suc (suc zero)) raw d s h hr =
    rw (written_control 2 raw d s) (control_kept raw hr)
read_halfword-control (suc (suc (suc zero))) raw d s h hr =
    rw (written_control 3 raw d s) (control_kept raw hr)
read_halfword-control (suc (suc (suc (suc id)))) raw d s h hr = absurd (omega arith)
