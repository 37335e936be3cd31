-- ===== src/Thumb/Exec/Block/Stack.antt =====
-- PUSH and POP of src/cpu/thumb/exec.cc: the stack pointer.
use matar.Base.{ℕ, zero, suc, ◌+◌, ◌-◌, ◌*◌, ◌^◌, ◌<◌, ◌≤◌, ◌≡◌, ◌∙◌, arith, Bool, true}
use matar.Base.{false, to_nat, u32, inl, inr, Bool-cases, if◌then◌else◌, ==_false, to_nat-le-one}
use matar.Bits.{get_bit}
use matar.BusApi.{Bus, CpuAccess, non_sequential}
use matar.Cpu.State.{Machine, sp}
use matar.Thumb.Exec.Block.{
  popcount, pop_pc, push_lr, pop_one, push_one, pop_registers, push_registers, push_pop_register,
}
use matar.Thumb.Instruction

popcount_last : (n i x : ℕ) → popcount (suc n) i x ≡ popcount n i x + to_nat (get_bit x (i + n))
unfolding popcount
popcount_last zero i x = let e : i + 0 ≡ i = omega arith in rw e (omega arith)
popcount_last (suc n) i x =
    let e : i + suc n ≡ suc i + n = omega arith in rw e (omega (arith, popcount_last n (suc i) x))

module _ (b : Bus) where
  pop_one_sp :
      (bit : Bool) (i : ℕ) (access : CpuAccess) (m : Machine b)
      → i < 8
      → sp m.cpu < 2 ^ 32
      → sp (pop_one b bit i access m).1.cpu ≡ u32 (sp m.cpu + 4 * to_nat bit)
  pop_one_sp false i access m low h = omega arith
  pop_one_sp true i access m low h = rw (==_false 13 i (omega arith)) (omega arith)

  push_one_sp :
      (bit : Bool) (i : ℕ) (access : CpuAccess) (m : Machine b)
      → sp m.cpu < 2 ^ 32
      → sp (push_one b bit i access m).1.cpu ≡ u32 (sp m.cpu + 2 ^ 32 - 4 * to_nat bit)
  push_one_sp false i access m h = omega arith
  push_one_sp true i access m h = omega arith

  pop_pc_sp :
      (bit : Bool) (access : CpuAccess) (m : Machine b)
      → sp m.cpu < 2 ^ 32
      → sp (pop_pc b bit access m).cpu ≡ u32 (sp m.cpu + 4 * to_nat bit)
  pop_pc_sp false access m h = omega arith
  pop_pc_sp true access m h = omega arith

  push_lr_sp :
      (bit : Bool) (m : Machine b)
      → sp m.cpu < 2 ^ 32
      → sp (push_lr b bit m).1.cpu ≡ u32 (sp m.cpu + 2 ^ 32 - 4 * to_nat bit)
  push_lr_sp false m h = omega arith
  push_lr_sp true m h = omega arith

module _ (b : Bus) (regs : ℕ) where
  pop_registers_sp :
      (n i : ℕ) (access : CpuAccess) (m : Machine b)
      → i + n ≤ 8
      → sp m.cpu < 2 ^ 32
      → sp (pop_registers b regs n i access m).1.cpu ≡ u32 (sp m.cpu + 4 * popcount n i regs)
  unfolding pop_registers popcount
  pop_registers_sp zero i access m low h = omega arith
  pop_registers_sp (suc n) i access m low h =
      let one = pop_one b (get_bit regs i) i access m in
      let moved : sp one.1.cpu ≡ u32 (sp m.cpu + 4 * to_nat (get_bit regs i)) =
        pop_one_sp b (get_bit regs i) i access m (omega arith) h in
      pop_registers_sp n (suc i) one.0 one.1 (omega arith) (omega arith) ∙ omega arith

  few : (n i : ℕ) → popcount n i regs ≤ n
  unfolding popcount
  few zero i = omega arith
  few (suc n) i = omega (arith, few n (suc i), to_nat-le-one (get_bit regs i))

  last_bit : (n : ℕ) → popcount (suc n) 0 regs ≡ popcount n 0 regs + to_nat (get_bit regs n)
  last_bit n = let e : 0 + n ≡ n = omega arith in rw e at (popcount_last n 0 regs)

  push_registers_sp :
      (n : ℕ) (access : CpuAccess) (m : Machine b)
      → n ≤ 8
      → sp m.cpu < 2 ^ 32
      → sp (push_registers b regs n access m).1.cpu
        ≡ u32 (sp m.cpu + 2 ^ 32 - 4 * popcount n 0 regs)
  unfolding push_registers
  push_registers_sp zero access m low h = omega (arith, few 0 0)
  push_registers_sp (suc n) access m low h =
      let one = push_one b (get_bit regs n) n access m in
      let moved : sp one.1.cpu ≡ u32 (sp m.cpu + 2 ^ 32 - 4 * to_nat (get_bit regs n)) =
        push_one_sp b (get_bit regs n) n access m h in
      push_registers_sp n one.0 one.1 (omega arith) (omega arith)
      ∙ omega (arith, few n 0, to_nat-le-one (get_bit regs n), last_bit n)

-- The stack pointer `n` words up, for a POP, or down, for a PUSH.
abbrev pub moved_by : Bool → ℕ → ℕ → ℕ
moved_by load a n = if load then u32 (a + 4 * n) else u32 (a + 2 ^ 32 - 4 * n)

-- The words that a PUSH or a POP moves.
abbrev pub words : Instruction.PushPopRegister → ℕ
words d = popcount 8 0 d.regs + to_nat d.pclr

module _ (b : Bus) (d : Instruction.PushPopRegister) (m : Machine b) (h : sp m.cpu < 2 ^ 32) where
  -- From a stack pointer below 2 ^ 32, a POP moves it up, and a PUSH down, by four for each register
  -- of the list, the program counter or link register included, modulo 2 ^ 32.
  pub sp-push_pop_register :
      sp (push_pop_register b d m).1.cpu ≡ moved_by d.load (sp m.cpu) (words d)
  unfolding push_pop_register
  sp-push_pop_register = elim (Bool-cases d.load) [
    | inl load ↦ rw load (
        let listed = pop_registers b d.regs 8 0 non_sequential m in
        let after = pop_registers_sp b d.regs 8 0 non_sequential m (omega arith) h in
        pop_pc_sp b d.pclr listed.0 listed.1 (omega (arith, after)) ∙ omega (arith, after))
    | inr store ↦ rw store (
        let linked = push_lr b d.pclr m in
        let after = push_lr_sp b d.pclr m h in
        push_registers_sp b d.regs 8 linked.0 linked.1 (omega arith) (omega (arith, after))
        ∙ omega (arith, after, few b d.regs 8 0, to_nat-le-one d.pclr))
  ]
