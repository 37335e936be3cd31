-- ===== src/Thumb/Exec/Branch/Link.antt =====
-- The two halves of a BL of src/cpu/thumb/exec.cc, one after the other.
use matar.Base.{ℕ, ◌+◌, ◌*◌, ◌/◌, ◌%◌, ◌^◌, ◌<◌, ◌≡◌, refl, arith, false, true, u32, sub32, bit_or}
use matar.Base.{bit_or_join, sym, ap, ◌∙◌}
use matar.Cpu.Access.{with_cpu}
use matar.Cpu.State.{set_gpr, lr_index, pc_index}
use matar.Cpu.Pipeline.{flush_pipeline}
use matar.Cpu.Pipeline.Refill.{Refilled, IsFilled, IsFilled-at, size_of}
use matar.Thumb.Exec.{visit}
use matar.Thumb.Exec.Branch.{long_branch_with_link}
use matar.BusApi.{Bus}
use matar.Psr
use matar.Psr.{thumb}
use matar.Cpu.State.{Machine, pc, lr}
use matar.Cpu.Pipeline.{advance_pc_thumb}
use matar.Cpu.Pipeline.Refill.{flush_pipeline-Refilled, pc-advance_pc_thumb}
use matar.Thumb.Decode.Fields.{sign_extend}
use matar.Thumb.Exec.{exec}
use matar.Thumb.Instruction

-- BL as the assembler writes it: the upper and the lower eleven bits of `k`.
abbrev pub upper_half : ℕ → Instruction.Instruction
upper_half k = Instruction.long_branch_with_link record { offset = k / 2 ^ 11; low = false }

abbrev pub lower_half : ℕ → Instruction.Instruction
lower_half k = Instruction.long_branch_with_link record { offset = k % 2 ^ 11; low = true }

-- The return address is even, so the mark of Thumb state adds one.
mark_thumb : (x : ℕ) → x % 2 ≡ 0 → bit_or x 1 ≡ x + 1
mark_thumb x even =
    let whole : x / 2 * 2 ^ 1 ≡ x = omega arith in
    ap (λ (t : ℕ). bit_or t 1) (sym whole)
    ∙ bit_or_join 1 (x / 2) 1 (omega arith)
    ∙ ap (λ (t : ℕ). t + 1) whole

-- The high half's part, sign extended, and the low half's make the whole offset.
offset_sum :
    (p k : ℕ)
    → p < 2 ^ 32
    → k < 2 ^ 22
    → u32 (u32 (p + sign_extend 23 (k / 2 ^ 11 * 2 ^ 12)) + k % 2 ^ 11 * 2)
      ≡ u32 (p + sign_extend 23 (k * 2))
offset_sum p k hp hk = ground arith

target_is_even : (p k : ℕ) → p % 2 ≡ 0 → u32 (p + sign_extend 23 (k * 2)) % 2 ≡ 0
target_is_even p k even = ground arith

module _ (b : Bus) (k : ℕ) (m : Machine b) (hp : pc m.cpu < 2 ^ 32) where
  abbrev first : Machine b
  first = exec b (upper_half k) m

  pc_first : pc first.cpu ≡ u32 (pc m.cpu / 2 * 2 + 2)
  unfolding exec visit long_branch_with_link
  pc_first =
      pc-advance_pc_thumb
        (set_gpr m.cpu lr_index (u32 (pc m.cpu + sign_extend 23 (k / 2 ^ 11 * 2 ^ 12)))) hp

  lr_first : lr first.cpu ≡ u32 (pc m.cpu + sign_extend 23 (k / 2 ^ 11 * 2 ^ 12))
  unfolding exec visit long_branch_with_link advance_pc_thumb
  lr_first = refl

  cpsr_first : first.cpu.cpsr ≡ m.cpu.cpsr
  unfolding exec visit long_branch_with_link advance_pc_thumb
  cpsr_first = refl

module _ (b : Bus) (k : ℕ) (m : Machine b) where
  -- The registers of the low half before the flush.
  abbrev jumped : Machine b
  jumped = with_cpu b m (
      set_gpr (set_gpr m.cpu pc_index (u32 (lr m.cpu + k % 2 ^ 11 * 2))) lr_index
        (bit_or (sub32 (pc m.cpu) 2) 1))

  lower_flushes : exec b (lower_half k) m ≡ flush_pipeline b jumped
  unfolding exec visit long_branch_with_link
  lower_flushes = refl

  jumped_pc : pc jumped.cpu < 2 ^ 32
  jumped_pc = omega arith

module _ (b : Bus) (k : ℕ) (m : Machine b) (hk : k < 2 ^ 22)
    (in_thumb : Psr.state m.cpu.cpsr ≡ thumb) (hp : pc m.cpu < 2 ^ 32)
    (even : pc m.cpu % 2 ≡ 0) where
  abbrev linked : Machine b
  linked = exec b (lower_half k) (exec b (upper_half k) m)

  abbrev before_flush : Machine b
  before_flush = jumped b k (first b k m hp)

  refilled : Refilled b lr_index before_flush (flush_pipeline b before_flush)
  refilled =
      flush_pipeline-Refilled b lr_index before_flush (jumped_pc b k (first b k m hp)) (omega arith)

  link_address : lr before_flush.cpu ≡ pc m.cpu + 1
  link_address =
      ap (λ (x : ℕ). bit_or (sub32 x 2) 1) (pc_first b k m hp)
      ∙ ap (λ (x : ℕ). bit_or x 1) (omega arith)
      ∙ mark_thumb (pc m.cpu) even

  target_address : pc before_flush.cpu ≡ u32 (pc m.cpu + sign_extend 23 (k * 2))
  target_address =
      ap (λ (x : ℕ). u32 (x + k % 2 ^ 11 * 2)) (lr_first b k m hp) ∙ offset_sum (pc m.cpu) k hp hk

  stays_thumb : Psr.state before_flush.cpu.cpsr ≡ thumb
  stays_thumb = ap Psr.state (cpsr_first b k m hp) ∙ in_thumb

  fetched_twice :
      let size = size_of (Psr.state before_flush.cpu.cpsr) in
      u32 (pc before_flush.cpu / size * size + 2 * size)
      ≡ u32 (pc m.cpu + sign_extend 23 (k * 2) + 4)
  fetched_twice = rw (stays_thumb, target_address) (omega (arith, target_is_even (pc m.cpu) k even))

  fetched_from :
      pc before_flush.cpu
        / size_of (Psr.state before_flush.cpu.cpsr)
        * size_of (Psr.state before_flush.cpu.cpsr)
      ≡ u32 (pc m.cpu + sign_extend 23 (k * 2))
  fetched_from = rw (stays_thumb, target_address) (omega (arith, target_is_even (pc m.cpu) k even))

  -- Neither half fetches before the flush, so it fetches what the machine would.
  filled_from :
      (target : ℕ) (after : Machine b)
      → IsFilled b thumb target before_flush after
      → IsFilled b thumb target m after
  unfolding exec visit long_branch_with_link advance_pc_thumb
  filled_from target after filled = filled

  -- In Thumb state, where the program counter, even and below 2 ^ 32, is the address of the first
  -- half plus four, the two halves of a BL with the 22-bit offset `k` leave in the link register the address of the
  -- instruction after them with bit 0 set, fill the pipeline with the two halfwords at the program counter plus
  -- twice `k`, sign extended, fetched in order, and leave the program counter two instructions past the first.
  pub exec-long_branch_pair :
      (lr linked.cpu ≡ pc m.cpu + 1)
      × (pc linked.cpu ≡ u32 (pc m.cpu + sign_extend 23 (k * 2) + 4))
      × IsFilled b thumb (u32 (pc m.cpu + sign_extend 23 (k * 2))) m linked
  exec-long_branch_pair = rw (lower_flushes b k (first b k m hp)) (
    refilled.same_gpr ∙ link_address,
    refilled.at_pc ∙ fetched_twice,
    filled_from _ (flush_pipeline b before_flush) (
        IsFilled-at b _ thumb _ _ before_flush (flush_pipeline b before_flush) stays_thumb
          fetched_from refilled.filled),
  )
