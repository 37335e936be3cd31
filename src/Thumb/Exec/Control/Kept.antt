-- ===== src/Thumb/Exec/Control/Kept.antt =====
-- The status register through the Thumb instructions that load, store or branch within their state.
use matar.Base.{ℕ, zero, suc, ◌≡◌, refl, ◌∙◌, Bool, true, false, ◌==◌, if_both}
use matar.Bits.{get_bit}
use matar.BusApi.{Bus, CpuAccess, non_sequential}
use matar.Cpu.State.{Cpu, Machine}
use matar.Thumb.Instruction
use matar.Thumb.Exec.Transfer
use matar.Thumb.Exec.Block
use matar.Thumb.Exec.Branch

-- Formats 6 to 11, which only load and store.
module _ (b : Bus) where
  pub storing :
      (load byte : Bool) (rd address : ℕ) (m : Machine b)
      → (Transfer.load_store b load byte rd address m).cpu.cpsr ≡ m.cpu.cpsr
  unfolding Transfer.load_store
  storing true true rd address m = refl
  storing true false rd address m = refl
  storing false true rd address m = refl
  storing false false rd address m = refl

  pub extending :
      (d : Instruction.LoadStoreSignExtendedHalfword) (m : Machine b)
      → (Transfer.load_store_sign_extended_halfword b d m).cpu.cpsr ≡ m.cpu.cpsr
  unfolding Transfer.load_store_sign_extended_halfword
  extending d m =
      if_both (λ (x : Machine b). x.cpu.cpsr ≡ m.cpu.cpsr) d.s _ _
        (if_both (λ (x : ℕ × Machine b). x.1.cpu.cpsr ≡ m.cpu.cpsr) d.h _ _
          (if_both (λ (x : ℕ × Machine b). x.1.cpu.cpsr ≡ m.cpu.cpsr) _ _ _ refl refl) refl)
        (if_both (λ (x : Machine b). x.cpu.cpsr ≡ m.cpu.cpsr) d.h _ _ refl refl)

  pub transferring :
      (d : Instruction.LoadStoreHalfword) (m : Machine b)
      → (Transfer.load_store_halfword b d m).cpu.cpsr ≡ m.cpu.cpsr
  unfolding Transfer.load_store_halfword
  transferring d m = if_both (λ (x : Machine b). x.cpu.cpsr ≡ m.cpu.cpsr) d.load _ _ refl refl

  pub stacking :
      (d : Instruction.SpRelativeLoad) (m : Machine b)
      → (Transfer.sp_relative_load b d m).cpu.cpsr ≡ m.cpu.cpsr
  unfolding Transfer.sp_relative_load
  stacking d m = if_both (λ (x : Machine b). x.cpu.cpsr ≡ m.cpu.cpsr) d.load _ _ refl refl

  pub addressing :
      (d : Instruction.LoadAddress) (c : Cpu) → (Transfer.load_address d c).cpsr ≡ c.cpsr
  unfolding Transfer.load_address
  addressing d c = if_both (λ (x : Cpu). x.cpsr ≡ c.cpsr) d.sp _ _ refl refl

-- Formats 14 and 15, with a step of each loop.
module _ (b : Bus) where
  popping :
      (regs n i : ℕ) (access : CpuAccess) (m : Machine b)
      → (Block.pop_registers b regs n i access m).1.cpu.cpsr ≡ m.cpu.cpsr
  unfolding Block.pop_registers
  popping regs zero i access m = refl
  popping regs (suc n) i access m = popping regs n (suc i) _ _ ∙ one (get_bit regs i)
    where
      one : (bit : Bool) → (Block.pop_one b bit i access m).1.cpu.cpsr ≡ m.cpu.cpsr
      one true = refl
      one false = refl

  pushing :
      (regs n : ℕ) (access : CpuAccess) (m : Machine b)
      → (Block.push_registers b regs n access m).1.cpu.cpsr ≡ m.cpu.cpsr
  unfolding Block.push_registers
  pushing regs zero access m = refl
  pushing regs (suc n) access m = pushing regs n _ _ ∙ one (get_bit regs n)
    where
      one : (bit : Bool) → (Block.push_one b bit n access m).1.cpu.cpsr ≡ m.cpu.cpsr
      one true = refl
      one false = refl

  loading :
      (regs n i address : ℕ) (access : CpuAccess) (m : Machine b)
      → (Block.load_registers b regs n i address access m).1.cpu.cpsr ≡ m.cpu.cpsr
  unfolding Block.load_registers
  loading regs zero i address access m = refl
  loading regs (suc n) i address access m = loading regs n (suc i) _ _ _ ∙ one (get_bit regs i)
    where
      one : (bit : Bool) → (Block.load_one b bit i address access m).2.cpu.cpsr ≡ m.cpu.cpsr
      one true = refl
      one false = refl

  listing :
      (regs n i address : ℕ) (access : CpuAccess) (m : Machine b)
      → (Block.store_registers b regs n i address access m).1.cpu.cpsr ≡ m.cpu.cpsr
  unfolding Block.store_registers
  listing regs zero i address access m = refl
  listing regs (suc n) i address access m = listing regs n (suc i) _ _ _ ∙ one (get_bit regs i)
    where
      one : (bit : Bool) → (Block.store_one b bit i address access m).2.cpu.cpsr ≡ m.cpu.cpsr
      one true = refl
      one false = refl

  pub stack :
      (d : Instruction.PushPopRegister) (m : Machine b)
      → (Block.push_pop_register b d m).1.cpu.cpsr ≡ m.cpu.cpsr
  unfolding Block.push_pop_register
  stack d m =
      if_both (λ (x : Bool × Machine b). x.1.cpu.cpsr ≡ m.cpu.cpsr) d.load _ _
        (last d.pclr (Block.pop_registers b d.regs 8 0 non_sequential m).0
            (Block.pop_registers b d.regs 8 0 non_sequential m).1
          ∙ popping d.regs 8 0 _ m)
        (pushing d.regs 8 _ _ ∙ first d.pclr)
    where
      last :
          (bit : Bool) (access : CpuAccess) (x : Machine b)
          → (Block.pop_pc b bit access x).cpu.cpsr ≡ x.cpu.cpsr
      last true access x = refl
      last false access x = refl

      first : (bit : Bool) → (Block.push_lr b bit m).1.cpu.cpsr ≡ m.cpu.cpsr
      first true = refl
      first false = refl

  moving :
      (d : Instruction.MultipleLoad) (address : ℕ) (m : Machine b)
      → (Block.transfer b d address m).1.cpu.cpsr ≡ m.cpu.cpsr
  unfolding Block.transfer
  moving d address m =
      if_both (λ (x : ℕ × Machine b). x.1.cpu.cpsr ≡ m.cpu.cpsr) d.load _ _
        (loading d.regs 8 0 address _ m)
        (if_both (λ (x : Machine b). x.cpu.cpsr ≡ m.cpu.cpsr) (get_bit d.regs d.rb) _ _ stored
          stored)
    where
      based : (Block.base_in_list b d address m).cpu.cpsr ≡ m.cpu.cpsr
      based =
          if_both (λ (x : Machine b). x.cpu.cpsr ≡ m.cpu.cpsr) (get_bit d.regs d.rb) _ _ refl refl

      stored :
          (Block.store_registers b d.regs 8 0 address non_sequential
            (Block.base_in_list b d address m)).1.cpu.cpsr
          ≡ m.cpu.cpsr
      stored = listing d.regs 8 0 address _ _ ∙ based

  pub block :
      (d : Instruction.MultipleLoad) (m : Machine b)
      → (Block.multiple_load b d m).1.cpu.cpsr ≡ m.cpu.cpsr
  unfolding Block.multiple_load Block.empty_list
  block d m =
      moving d _ _
      ∙ if_both (λ (x : Bool × Machine b). x.1.cpu.cpsr ≡ m.cpu.cpsr) (d.regs == 0) _ _
          (if_both (λ (x : Bool × Machine b). x.1.cpu.cpsr ≡ m.cpu.cpsr) d.load _ _ refl refl) refl

pub branching :
    (d : Instruction.ConditionalBranch) (c : Cpu) → (Branch.conditional_branch d c).1.cpsr ≡ c.cpsr
unfolding Branch.conditional_branch
branching d c = if_both (λ (x : Bool × Cpu). x.1.cpsr ≡ c.cpsr) _ _ _ refl refl

pub linking :
    (d : Instruction.LongBranchWithLink) (c : Cpu)
    → (Branch.long_branch_with_link d c).1.cpsr ≡ c.cpsr
unfolding Branch.long_branch_with_link
linking d c = if_both (λ (x : Bool × Cpu). x.1.cpsr ≡ c.cpsr) _ _ _ refl refl
