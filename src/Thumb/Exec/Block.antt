-- ===== src/Thumb/Exec/Block.antt =====
-- src/cpu/thumb/exec.cc, formats 14 and 15: PUSH, POP, LDMIA and STMIA. A loop over the eight low
-- registers counts the registers that are left.
pub mod Address
pub mod Stack
use matar.Base.{ℕ, zero, suc, ◌+◌, ◌*◌, ◌==◌, if◌then◌else◌, Bool, true, false, to_nat, u32}
use matar.Base.{sub32, bit_and, bit_not}
use matar.Bits.{get_bit}
use matar.BusApi.{Bus, CpuAccess, sequential, non_sequential}
use matar.Cpu.State.{Machine, set_gpr, sp, lr, pc, sp_index, pc_index}
use matar.Cpu.Access.{with_cpu, internal_cycle, read_word, write_word}
use matar.Cpu.Pipeline.{thumb_size}
use matar.Thumb.Instruction
use matar.Thumb.Exec.Transfer.{unrelated}

abbrev pub alignment : ℕ
alignment = 4

-- `std::popcount` of the bits `i` up to `i + n - 1`.
unfoldable pub popcount : ℕ → ℕ → ℕ → ℕ
popcount zero i x = 0
popcount (suc n) i x = to_nat (get_bit x i) + popcount n (suc i) x

-- `std::countr_zero`, starting at bit `i` with `n` bits left.
unfoldable pub countr_zero : ℕ → ℕ → ℕ → ℕ
countr_zero zero i x = 0
countr_zero (suc n) i x = let rest = countr_zero n (suc i) x in if get_bit x i then 0 else suc rest

module _ (b : Bus) where
  -- `gpr[i] = read_word(sp, access); sp += alignment;`, if the bit of the list is set.
  abbrev pub pop_one : Bool → ℕ → CpuAccess → Machine b → CpuAccess × Machine b
  pop_one false i access m = (access, m)
  pop_one true i access m =
      let (value, m') = read_word b m (sp m.cpu) access in
      let c = set_gpr m'.cpu i value in
      (sequential, with_cpu b m' (set_gpr c sp_index (u32 (sp c + alignment))))

  -- `sp -= alignment; write_word(sp, gpr[i], access);`, if the bit is set.
  abbrev pub push_one : Bool → ℕ → CpuAccess → Machine b → CpuAccess × Machine b
  push_one false i access m = (access, m)
  push_one true i access m =
      let m' = with_cpu b m (set_gpr m.cpu sp_index (sub32 (sp m.cpu) alignment)) in
      (sequential, write_word b m' (sp m'.cpu) (m'.cpu.gpr i) access)

  -- From register `i` up, `n` registers.
  unfoldable pub pop_registers : ℕ → ℕ → ℕ → CpuAccess → Machine b → CpuAccess × Machine b
  pop_registers regs zero i access m = (access, m)
  pop_registers regs (suc n) i access m =
      let (access', m') = pop_one (get_bit regs i) i access m in
      pop_registers regs n (suc i) access' m'

  -- From register `n - 1` down to 0.
  unfoldable pub push_registers : ℕ → ℕ → CpuAccess → Machine b → CpuAccess × Machine b
  push_registers regs zero access m = (access, m)
  push_registers regs (suc n) access m =
      let (access', m') = push_one (get_bit regs n) n access m in push_registers regs n access' m'

  -- `if (data.pclr)` of a POP and of a PUSH.
  abbrev pub pop_pc : Bool → CpuAccess → Machine b → Machine b
  pop_pc false access m = m
  pop_pc true access m =
      let (value, m') = read_word b m (sp m.cpu) access in
      let c = set_gpr m'.cpu pc_index (bit_and value (bit_not 32 0b1)) in
      with_cpu b m' (set_gpr c sp_index (u32 (sp c + alignment)))

  abbrev pub push_lr : Bool → Machine b → CpuAccess × Machine b
  push_lr false m = (non_sequential, m)
  push_lr true m =
      let m' = with_cpu b m (set_gpr m.cpu sp_index (sub32 (sp m.cpu) alignment)) in
      (sequential, write_word b m' (sp m'.cpu) (lr m'.cpu) non_sequential)

  unfoldable pub push_pop_register : Instruction.PushPopRegister → Machine b → Bool × Machine b
  push_pop_register d m =
      if d.load
      then (let (access, m') = pop_registers d.regs 8 0 non_sequential m in
          (d.pclr, unrelated b (internal_cycle b (pop_pc d.pclr access m'))))
      else (let (access, m') = push_lr d.pclr m in
          (false, unrelated b ((push_registers d.regs 8 access m').1)))

  -- `gpr[i] = read_word(address, access);` or `write_word(address, gpr[i], access);`, and
  -- `address += alignment;`, if the bit of the list is set.
  abbrev pub load_one : Bool → ℕ → ℕ → CpuAccess → Machine b → ℕ × CpuAccess × Machine b
  load_one false i address access m = (address, access, m)
  load_one true i address access m =
      let (value, m') = read_word b m address access in
      (u32 (address + alignment), sequential, with_cpu b m' (set_gpr m'.cpu i value))

  abbrev pub store_one : Bool → ℕ → ℕ → CpuAccess → Machine b → ℕ × CpuAccess × Machine b
  store_one false i address access m = (address, access, m)
  store_one true i address access m =
      (u32 (address + alignment), sequential, write_word b m address (m.cpu.gpr i) access)

  -- The address after the last register of the list.
  unfoldable pub load_registers : ℕ → ℕ → ℕ → ℕ → CpuAccess → Machine b → ℕ × Machine b
  load_registers regs zero i address access m = (address, m)
  load_registers regs (suc n) i address access m =
      let (address', access', m') = load_one (get_bit regs i) i address access m in
      load_registers regs n (suc i) address' access' m'

  unfoldable pub store_registers : ℕ → ℕ → ℕ → ℕ → CpuAccess → Machine b → ℕ × Machine b
  store_registers regs zero i address access m = (address, m)
  store_registers regs (suc n) i address access m =
      let (address', access', m') = store_one (get_bit regs i) i address access m in
      store_registers regs n (suc i) address' access' m'

  -- The empty list transfers the program counter and moves the base by 0x40.
  unfoldable pub empty_list : Instruction.MultipleLoad → Machine b → Bool × Machine b
  empty_list d m =
      let address = m.cpu.gpr d.rb in
      if d.load
      then (let (value, m') = read_word b m address non_sequential in
          (true, with_cpu b m' (set_gpr m'.cpu pc_index value)))
      else (false, write_word b m address (u32 (pc m.cpu + thumb_size)) non_sequential)

  -- What a store sees in the base while it runs: the address, moved past the whole list when the
  -- base is not the first of its registers.
  abbrev pub base_in_list : Instruction.MultipleLoad → ℕ → Machine b → Machine b
  base_in_list d address m =
      if get_bit d.regs d.rb
      then (with_cpu b m (
          set_gpr m.cpu d.rb (
            if countr_zero 8 0 d.regs == d.rb
            then address
            else u32 (address + popcount 8 0 d.regs * 4))))
      else m

  -- The transfers of the list from `address` up; `old_rb` is put back after a store.
  unfoldable pub transfer : Instruction.MultipleLoad → ℕ → Machine b → ℕ × Machine b
  transfer d address m =
      if d.load
      then (let (a, m') = load_registers d.regs 8 0 address non_sequential m in
          (a, internal_cycle b m'))
      else (let (a, m') =
            store_registers d.regs 8 0 address non_sequential (base_in_list d address m) in
          (
            a,
            if get_bit d.regs d.rb
                then with_cpu b m' (set_gpr m'.cpu d.rb (m.cpu.gpr d.rb))
                else m',
          ))

  unfoldable pub multiple_load : Instruction.MultipleLoad → Machine b → Bool × Machine b
  multiple_load d m =
      let (is_flushed, m1) : Bool × Machine b =
        if d.regs == 0 then empty_list d m else (false, m) in
      let base = m.cpu.gpr d.rb in
      let (address, m2) = transfer d (if d.regs == 0 then u32 (base + 0x40) else base) m1 in
      (is_flushed, unrelated b (with_cpu b m2 (set_gpr m2.cpu d.rb address)))
