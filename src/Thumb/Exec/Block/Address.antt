-- ===== src/Thumb/Exec/Block/Address.antt =====
-- LDMIA and STMIA of src/cpu/thumb/exec.cc: the base.
use matar.Base.{ℕ, zero, suc, ◌+◌, ◌*◌, ◌^◌, ◌<◌, ◌==◌, ◌≡◌, refl, ◌∙◌, arith, Bool, true}
use matar.Base.{false, to_nat, u32, inl, inr, Bool-cases, if◌then◌else◌}
use matar.Bits.{get_bit}
use matar.BusApi.{Bus, CpuAccess}
use matar.Cpu.State.{Machine}
use matar.Thumb.Exec.Block.{
  popcount, load_registers, load_one, store_one, store_registers, multiple_load, transfer,
}
use matar.Base.{==_same, ◌/◌}
use matar.Thumb.Instruction

module _ (b : Bus) where
  load_one_address :
      (bit : Bool) (i address : ℕ) (access : CpuAccess) (m : Machine b)
      → address < 2 ^ 32
      → (load_one b bit i address access m).0 ≡ u32 (address + 4 * to_nat bit)
  load_one_address false i address access m h = omega arith
  load_one_address true i address access m h = omega arith

  store_one_address :
      (bit : Bool) (i address : ℕ) (access : CpuAccess) (m : Machine b)
      → address < 2 ^ 32
      → (store_one b bit i address access m).0 ≡ u32 (address + 4 * to_nat bit)
  store_one_address false i address access m h = omega arith
  store_one_address true i address access m h = omega arith

-- Each register of the list moves the address by four.
module _ (b : Bus) (regs : ℕ) where
  load_registers_address :
      (n i address : ℕ) (access : CpuAccess) (m : Machine b)
      → address < 2 ^ 32
      → (load_registers b regs n i address access m).0 ≡ u32 (address + 4 * popcount n i regs)
  unfolding load_registers popcount
  load_registers_address zero i address access m h = omega arith
  load_registers_address (suc n) i address access m h =
      let one = load_one b (get_bit regs i) i address access m in
      let moved : one.0 ≡ u32 (address + 4 * to_nat (get_bit regs i)) =
        load_one_address b (get_bit regs i) i address access m h in
      load_registers_address n (suc i) one.0 one.1 one.2 (omega arith) ∙ omega arith

  store_registers_address :
      (n i address : ℕ) (access : CpuAccess) (m : Machine b)
      → address < 2 ^ 32
      → (store_registers b regs n i address access m).0 ≡ u32 (address + 4 * popcount n i regs)
  unfolding store_registers popcount
  store_registers_address zero i address access m h = omega arith
  store_registers_address (suc n) i address access m h =
      let one = store_one b (get_bit regs i) i address access m in
      let moved : one.0 ≡ u32 (address + 4 * to_nat (get_bit regs i)) =
        store_one_address b (get_bit regs i) i address access m h in
      store_registers_address n (suc i) one.0 one.1 one.2 (omega arith) ∙ omega arith

-- The bytes between the old base and the new one.
abbrev pub span : ℕ → ℕ
span regs = if regs == 0 then 0x40 else 4 * popcount 8 0 regs

popcount_zero : (n i : ℕ) → popcount n i 0 ≡ 0
unfolding popcount get_bit
popcount_zero zero i = refl
popcount_zero (suc n) i =
    let e : 0 / 2 ^ i ≡ 0 = omega arith in rw e (omega (arith, popcount_zero n (suc i)))

transfer_address :
    (b : Bus) (d : Instruction.MultipleLoad) (address : ℕ) (m : Machine b)
    → address < 2 ^ 32
    → (transfer b d address m).0 ≡ u32 (address + 4 * popcount 8 0 d.regs)
unfolding transfer
transfer_address b d address m h = elim (Bool-cases d.load) [
  | inl load ↦ rw load (load_registers_address b d.regs 8 0 address _ _ h)
  | inr store ↦ rw store (store_registers_address b d.regs 8 0 address _ _ h)
]

total :
    (base regs : ℕ)
    → base < 2 ^ 32
    → u32 ((if regs == 0 then u32 (base + 0x40) else base) + 4 * popcount 8 0 regs)
      ≡ u32 (base + span regs)
total base zero h = omega (arith, popcount_zero 8 0)
total base (suc r) h = ground arith

start_in_word :
    (base regs : ℕ) → base < 2 ^ 32 → (if regs == 0 then u32 (base + 0x40) else base) < 2 ^ 32
start_in_word base regs h = ground arith

module _ (b : Bus) (d : Instruction.MultipleLoad) (m : Machine b)
    (h : m.cpu.gpr d.rb < 2 ^ 32) where
  -- LDMIA and STMIA move a base below 2 ^ 32 past the registers of the list, and by 0x40 for an
  -- empty list, modulo 2 ^ 32, also when the base is in the list.
  pub base-multiple_load : (multiple_load b d m).1.cpu.gpr d.rb ≡ u32 (m.cpu.gpr d.rb + span d.regs)
  unfolding multiple_load
  base-multiple_load = rw (==_same d.rb) (
      transfer_address b d (if d.regs == 0 then u32 (m.cpu.gpr d.rb + 0x40) else m.cpu.gpr d.rb) _
        (start_in_word (m.cpu.gpr d.rb) d.regs h)
      ∙ total (m.cpu.gpr d.rb) d.regs h)
