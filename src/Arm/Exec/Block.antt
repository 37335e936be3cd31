-- ===== src/Arm/Exec/Block.antt =====
-- src/cpu/arm/exec.cc: LDM and STM. A loop over the sixteen registers counts those that are left.
use matar.Base.{
  ℕ, zero, suc, ◌+◌, ◌-◌, ◌*◌, ◌==◌, ◌&&◌, ◌||◌, if◌then◌else◌, Bool, true, false, not,
}
use matar.Base.{u32, sub32}
use matar.Bits.{get_bit}
use matar.BusApi.{Bus, CpuAccess, sequential, non_sequential}
use matar.Psr
use matar.Psr.{user}
use matar.Cpu.State.{Cpu, Machine, set_gpr, pc, pc_index}
use matar.Cpu.Access.{with_cpu, internal_cycle, read_word, write_word}
use matar.Cpu.Modes.{chg_mode}
use matar.Cpu.Pipeline.{arm_size}
use matar.Arm.Instruction
use matar.Arm.Exec.Transfer.{moved}
use matar.Arm.Exec.Data.{restore_status}
use matar.Thumb.Exec.Transfer.{unrelated}
use matar.Thumb.Exec.Block.{popcount, countr_zero}

-- The user's registers stand for the current ones: with `s`, unless R15 is loaded.
abbrev pub as_user : Instruction.BlockDataTransfer → Cpu → Cpu
as_user d c =
    if (not (get_bit d.regs pc_index) && d.s) || (not d.load && d.s) then chg_mode user c else c

-- A load of R15 with `s` brings the saved status register back.
abbrev pub as_saved : Instruction.BlockDataTransfer → Cpu → Cpu
as_saved d c = if get_bit d.regs pc_index && d.s then restore_status c else c

-- What a store sees in its base, when that is in the list.
abbrev pub base_in_list : Instruction.BlockDataTransfer → ℕ → Cpu → Cpu
base_in_list d base c =
    if get_bit d.regs d.rn
    then set_gpr c d.rn (
        if countr_zero 16 0 d.regs == d.rn
        then base
        else moved d.up (popcount 16 0 d.regs * 4) base)
    else c

-- `pc += 4` and `pc -= 4` around a store that has R15 in the list.
abbrev pub pc_ahead : Instruction.BlockDataTransfer → Cpu → Cpu
pc_ahead d c = if get_bit d.regs pc_index then set_gpr c pc_index (u32 (pc c + 4)) else c

abbrev pub pc_back : Instruction.BlockDataTransfer → Cpu → Cpu
pc_back d c = if get_bit d.regs pc_index then set_gpr c pc_index (sub32 (pc c) 4) else c

module _ (b : Bus) where
  -- One register, if its bit is set.
  abbrev pub load_one : Bool → Bool → ℕ → ℕ → CpuAccess → Machine b → ℕ × CpuAccess × Machine b
  load_one false up i address access m = (address, access, m)
  load_one true up i address access m =
      let (value, m') = read_word b m address access in
      (moved up 4 address, sequential, with_cpu b m' (set_gpr m'.cpu i value))

  abbrev pub store_one : Bool → Bool → ℕ → ℕ → CpuAccess → Machine b → ℕ × CpuAccess × Machine b
  store_one false up i address access m = (address, access, m)
  store_one true up i address access m =
      (moved up 4 address, sequential, write_word b m address (m.cpu.gpr i) access)

  -- With `n` registers left, from register `16 - n` up, or from register `n - 1` down.
  unfoldable pub load_registers :
      Instruction.BlockDataTransfer → ℕ → ℕ → CpuAccess → Machine b → ℕ × Machine b
  load_registers d zero address access m = (address, m)
  load_registers d (suc n) address access m =
      let i = if d.up then 15 - n else n in
      let (address', access', m') = load_one (get_bit d.regs i) d.up i address access m in
      load_registers d n address' access' m'

  unfoldable pub store_registers :
      Instruction.BlockDataTransfer → ℕ → ℕ → CpuAccess → Machine b → ℕ × Machine b
  store_registers d zero address access m = (address, m)
  store_registers d (suc n) address access m =
      let i = if d.up then 15 - n else n in
      let (address', access', m') = store_one (get_bit d.regs i) d.up i address access m in
      store_registers d n address' access' m'

  -- `data.regs == 0`: R15 alone is moved, and the address goes on by 0x40.
  unfoldable pub empty_list : Instruction.BlockDataTransfer → ℕ → Machine b → ℕ × Machine b
  empty_list d base m =
      let low = if d.up then base else sub32 base 0x3c in
      let address = if d.pre then moved d.up 4 low else low in
      let m' : Machine b =
        if d.load
        then (let (value, m1) = read_word b m address non_sequential in
            with_cpu b m1 (set_gpr m1.cpu pc_index value))
        else write_word b m address (u32 (pc m.cpu + arm_size)) non_sequential in
      let after = if d.pre then address else moved d.up 4 address in
      (if d.up then u32 (after + 0x3c) else after, m')

  -- The last lines of a store: R15 and the base as they were.
  abbrev pub put_back : Instruction.BlockDataTransfer → ℕ → Cpu → Cpu
  put_back d old_rn c =
      let c' = pc_back d c in if get_bit d.regs d.rn then set_gpr c' d.rn old_rn else c'

  unfoldable pub full_list : Instruction.BlockDataTransfer → ℕ → Machine b → ℕ × Machine b
  unfolding load_registers store_registers
  full_list d base m =
      let first = if d.pre then moved d.up 4 base else base in
      let (address, m') : ℕ × Machine b =
        if d.load
        then (let (a, m1) =
              load_registers d 16 first non_sequential (with_cpu b m (as_saved d m.cpu)) in
            (a, internal_cycle b m1))
        else (let c = pc_ahead d (base_in_list d base m.cpu) in
            let (a, m1) = store_registers d 16 first non_sequential (with_cpu b m c) in
            (a, with_cpu b m1 (put_back d (m.cpu.gpr d.rn) m1.cpu))) in
      (if d.pre then moved (not d.up) 4 address else address, m')

  -- A load with the base in a list that is not empty does not write the base back.
  abbrev pub writes : Instruction.BlockDataTransfer → Bool
  writes d = d.write && not (d.load && get_bit d.regs d.rn)

  unfoldable pub block_data_transfer : Instruction.BlockDataTransfer → Machine b → Bool × Machine b
  unfolding empty_list full_list
  block_data_transfer d m =
      let base = m.cpu.gpr d.rn in
      let m1 = with_cpu b m (as_user d m.cpu) in
      let (address, m2) : ℕ × Machine b =
        if d.regs == 0 then empty_list d base m1 else full_list d base m1 in
      let c = if writes d then set_gpr m2.cpu d.rn address else m2.cpu in
      (
        d.load && ((d.regs == 0) || get_bit d.regs pc_index),
        unrelated b (with_cpu b m2 (chg_mode (Psr.mode m.cpu.cpsr) c)),
      )
