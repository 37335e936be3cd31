-- ===== src/Cpu/Pipeline/Refill.antt =====
-- The pipeline of src/cpu/cpu.cc after a branch.
use matar.Base.{ℕ, ◌+◌, ◌*◌, ◌/◌, ◌^◌, ◌<◌, ◌≡◌, ◌≢◌, refl, ap, ◌∙◌, arith, u32, ◌⊎◌, inl, inr}
use mathlib.Core.Path.{subst}
use matar.Base.{==_false}
use matar.Bits.{rst_bit}
use matar.Bits.Laws.{rst_bit_zero, rst_bit_one}
use matar.BusApi.{Bus, CpuAccess, CpuView, sequential, non_sequential}
use matar.Psr
use matar.Psr.{State, arm, thumb}
use matar.Cpu.State.{Cpu, Machine, pc, pc_index}
use matar.Cpu.Pipeline.{arm_size, thumb_size, advance_pc_arm, advance_pc_thumb, flush_pipeline}

-- The bytes of an instruction.
abbrev pub size_of : State → ℕ
size_of arm = arm_size
size_of thumb = thumb_size

-- A program counter that points at an instruction stays so, one instruction on.
pub pc-advance_pc_thumb :
    (c : Cpu) → pc c < 2 ^ 32 → pc (advance_pc_thumb c) ≡ u32 (pc c / 2 * 2 + 2)
unfolding advance_pc_thumb
pc-advance_pc_thumb c h = ap (λ (x : ℕ). u32 (x + 2)) (rst_bit_zero (pc c) h)

-- Both low bits cleared, bit 0 first.
pub align_low_bits : (x : ℕ) → x < 2 ^ 32 → rst_bit 32 (rst_bit 32 x 0) 1 ≡ x / 4 * 4
align_low_bits x h =
    rw (rst_bit_zero x h, rst_bit_one (x / 2 * 2) (omega arith) (omega arith)) (omega arith)

pub pc-advance_pc_arm : (c : Cpu) → pc c < 2 ^ 32 → pc (advance_pc_arm c) ≡ u32 (pc c / 4 * 4 + 4)
unfolding advance_pc_arm
pc-advance_pc_arm c h = ap (λ (x : ℕ). u32 (x + 4)) (align_low_bits (pc c) h)

pub State-cases : (s : State) → (s ≡ arm) ⊎ (s ≡ thumb)
State-cases arm = inl refl
State-cases thumb = inr refl

-- A fetch of an instruction in a state.
abbrev pub fetch : (b : Bus) → State → CpuView → ℕ → CpuAccess → b.Contents → ℕ × b.Contents
fetch b arm = b.read_word
fetch b thumb = b.read_halfword

-- Two reads, with the bus after both: the bus sees the program counter at each, and at the second the first
-- instruction in the place of the older opcode `op0`.
abbrev two_reads {ℓ} :
    {S : Type ℓ} → (CpuView → ℕ → CpuAccess → S → ℕ × S) → State → ℕ → ℕ → ℕ → ℕ → S → ℕ × ℕ × S
two_reads read state first second op0 op1 s =
    let x =
      read (record { program_counter = first; opcode0 = op0; opcode1 = op1; state = state }) first
        non_sequential s in
    let y =
      read (record { program_counter = second; opcode0 = x.0; opcode1 = op1; state = state }) second
        sequential x.1 in
    (x.0, y.0, y.1)

-- A machine `m'` holds in its pipeline the instruction at `target` and the one after it, fetched by `m` in a
-- state in that order and from nothing else.
abbrev pub IsFilled : (b : Bus) → State → ℕ → Machine b → Machine b → Type 0
IsFilled b state target m m' =
    (m'.cpu.opcode0, m'.cpu.opcode1, m'.bus)
    ≡ two_reads (fetch b state) state target (u32 (target + size_of state)) m.cpu.opcode0
        m.cpu.opcode1 m.bus

-- The state and the target by equal ones.
pub IsFilled-at :
    (b : Bus) (state state' : State) (target target' : ℕ) (m m' : Machine b)
    → state ≡ state'
    → target ≡ target'
    → IsFilled b state target m m'
    → IsFilled b state' target' m m'
IsFilled-at b state state' target target' m m' same_state same_target filled =
    subst (λ (t : ℕ). IsFilled b state' t m m') same_target
      (subst (λ (s : State). IsFilled b s target m m') same_state filled)

-- What a flush promises of the machine `m'` that it makes from `m`, and of its register `i`.
pub record Refilled (b : Bus) (i : ℕ) (m m' : Machine b) : Type 0 where
  pub at_pc :
      let size = size_of (Psr.state m.cpu.cpsr) in
      pc m'.cpu ≡ u32 (pc m.cpu / size * size + 2 * size)
  pub next_is_sequential : m'.cpu.next_access ≡ sequential
  pub same_cpsr : m'.cpu.cpsr ≡ m.cpu.cpsr
  pub same_spsr : m'.cpu.spsr ≡ m.cpu.spsr
  pub same_banks : m'.cpu.gpr_banked ≡ m.cpu.gpr_banked
  pub same_status_banks : m'.cpu.spsr_banked ≡ m.cpu.spsr_banked
  pub filled :
      let state = Psr.state m.cpu.cpsr in
      IsFilled b state (pc m.cpu / size_of state * size_of state) m m'
  pub same_gpr : m'.cpu.gpr i ≡ m.cpu.gpr i

-- The program counters of the two fetches.
thumb_fetches :
    (x : ℕ)
    → x < 2 ^ 32
    → u32 (rst_bit 32 (u32 (rst_bit 32 (rst_bit 32 x 0) 0 + 2)) 0 + 2) ≡ u32 (x / 2 * 2 + 4)
thumb_fetches x h =
    rw
      (
        rst_bit_zero x h,
        rst_bit_zero (x / 2 * 2) (omega arith),
        rst_bit_zero (u32 (x / 2 * 2 / 2 * 2 + 2)) (omega arith),
      )
      (omega arith)

arm_fetches :
    (x : ℕ)
    → x < 2 ^ 32
    → u32 (
        rst_bit 32
          (rst_bit 32 (u32 (rst_bit 32 (rst_bit 32 (rst_bit 32 (rst_bit 32 x 0) 1) 0) 1 + 4)) 0)
          1
        + 4)
      ≡ u32 (x / 4 * 4 + 8)
arm_fetches x h =
    rw
      (
        align_low_bits x h,
        align_low_bits (x / 4 * 4) (omega arith),
        align_low_bits (u32 (x / 4 * 4 / 4 * 4 + 4)) (omega arith),
      )
      (omega arith)

module _ (b : Bus) (m : Machine b) (h : pc m.cpu < 2 ^ 32) where
  abbrev reads_at :
      (CpuView → ℕ → CpuAccess → b.Contents → ℕ × b.Contents) → State → ℕ → ℕ → ℕ × ℕ × b.Contents
  reads_at read state first second =
      two_reads read state first second m.cpu.opcode0 m.cpu.opcode1 m.bus

  -- The addresses of the two fetches, as the code aligns them.
  fetched_at :
      (state : State) (first second : ℕ)
      → first ≡ pc m.cpu / size_of state * size_of state
      → second ≡ u32 (pc m.cpu / size_of state * size_of state + size_of state)
      → reads_at (fetch b state) state first second
        ≡ reads_at
            (fetch b state)
            state
            (pc m.cpu / size_of state * size_of state)
            (u32 (pc m.cpu / size_of state * size_of state + size_of state))
  fetched_at state first second e f =
      ap (λ (x : ℕ). reads_at (fetch b state) state x second) e
      ∙ ap (λ (x : ℕ). reads_at (fetch b state) state (pc m.cpu / size_of state * size_of state) x)
          f

  abbrev state_of : State
  state_of = Psr.state m.cpu.cpsr

  abbrev target : ℕ
  target = pc m.cpu / size_of state_of * size_of state_of

  abbrev aligned_reads : ℕ × ℕ × b.Contents
  aligned_reads = reads_at (fetch b state_of) state_of target (u32 (target + size_of state_of))

  arm_reads :
      state_of ≡ arm
      → reads_at b.read_word state_of
          (rst_bit 32 (rst_bit 32 (pc m.cpu) 0) 1)
          (u32 (rst_bit 32 (rst_bit 32 (rst_bit 32 (rst_bit 32 (pc m.cpu) 0) 1) 0) 1 + arm_size))
        ≡ aligned_reads
  arm_reads in_arm =
      let once = align_low_bits (pc m.cpu) h in
      let twice = align_low_bits (pc m.cpu / 4 * 4) (omega arith) in
      rw in_arm (fetched_at arm _ _ once (rw (once, twice) (omega arith)))

  thumb_reads :
      state_of ≡ thumb
      → reads_at b.read_halfword state_of
          (rst_bit 32 (pc m.cpu) 0)
          (u32 (rst_bit 32 (rst_bit 32 (pc m.cpu) 0) 0 + thumb_size))
        ≡ aligned_reads
  thumb_reads in_thumb =
      let once = rst_bit_zero (pc m.cpu) h in
      let twice = rst_bit_zero (pc m.cpu / 2 * 2) (omega arith) in
      rw in_thumb (fetched_at thumb _ _ once (rw (once, twice) (omega arith)))

module _ (b : Bus) (i : ℕ) (m : Machine b) (h : pc m.cpu < 2 ^ 32) (ne : i ≢ pc_index) where
  -- With the program counter below 2 ^ 32, a flush fills the pipeline with the instruction at the program
  -- counter, rounded down to an instruction of the current state, and the one after it, fetched in that order,
  -- and leaves the program counter two instructions past the first; the next access is sequential, and
  -- neither the status registers, nor the banks of either kind, nor any register but the program counter
  -- change.
  pub flush_pipeline-Refilled : Refilled b i m (flush_pipeline b m)
  unfolding flush_pipeline advance_pc_arm advance_pc_thumb
  flush_pipeline-Refilled = elim (State-cases (Psr.state m.cpu.cpsr)) [
    | inl in_arm ↦ rw in_arm (record {
      at_pc = rw in_arm (arm_fetches (pc m.cpu) h);
      next_is_sequential = refl;
      same_cpsr = refl;
      same_spsr = refl;
      same_banks = refl;
      same_status_banks = refl;
      filled = arm_reads b m h in_arm;
      same_gpr = rw (==_false i pc_index ne) refl;
    })
    | inr in_thumb ↦ rw in_thumb (record {
      at_pc = rw in_thumb (thumb_fetches (pc m.cpu) h);
      next_is_sequential = refl;
      same_cpsr = refl;
      same_spsr = refl;
      same_banks = refl;
      same_status_banks = refl;
      filled = thumb_reads b m h in_thumb;
      same_gpr = rw (==_false i pc_index ne) refl;
    })
  ]
