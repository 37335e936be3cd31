-- ===== src/Thumb/Exec/Transfer.antt =====
-- src/cpu/thumb/exec.cc, formats 6 to 13: loads and stores of one register, and addresses.
use matar.Base.{ℕ, ◌+◌, ◌==◌, if◌then◌else◌, Bool, u32, bit_and, bit_not}
use matar.BusApi.{Bus, sequential, non_sequential}
use matar.Cpu.State.{Cpu, Machine, set_gpr, sp, pc, sp_index}
use matar.Cpu.Access.{with_cpu, internal_cycle, align_word}
use matar.Cpu.Access
use matar.Thumb.Instruction
use matar.Thumb.Decode.Fields.{sign_extend}

module _ (b : Bus) where
  -- `gpr[rd] = value; internal_cycle();` after a read.
  abbrev pub load_into : ℕ → ℕ × Machine b → Machine b
  load_into rd (value, m) = internal_cycle b (with_cpu b m (set_gpr m.cpu rd value))

  -- `next_access = CpuAccess::NonSequential;` after an unrelated access.
  abbrev pub unrelated : Machine b → Machine b
  unrelated m = with_cpu b m (record (m.cpu) { next_access = non_sequential })

  -- A byte or a word at `address`, which formats 7 and 9 share.
  unfoldable pub load_store : Bool → Bool → ℕ → ℕ → Machine b → Machine b
  load_store load byte rd address m = unrelated (
      if load
      then load_into rd (
          if byte
          then Access.read_byte b m address non_sequential
          else Access.read_rotated_word b m address non_sequential)
      else if byte
      then Access.write_byte b m address (bit_and (m.cpu.gpr rd) 0xFF) non_sequential
      else Access.write_word b m address (m.cpu.gpr rd) non_sequential)

  unfoldable pub pc_relative_load : Instruction.PcRelativeLoad → Machine b → Machine b
  pc_relative_load d m =
      let address = u32 (bit_and (pc m.cpu) (bit_not 32 0b10) + d.word) in
      unrelated (load_into d.rd (Access.read_word b m address non_sequential))

  unfoldable pub load_store_register_offset :
      Instruction.LoadStoreRegisterOffset → Machine b → Machine b
  unfolding load_store
  load_store_register_offset d m =
      load_store d.load d.byte d.rd (u32 (m.cpu.gpr d.rb + m.cpu.gpr d.ro)) m

  -- The switch on `s << 1 | h`, in the order 00, 01, 10, 11.
  unfoldable pub load_store_sign_extended_halfword :
      Instruction.LoadStoreSignExtendedHalfword → Machine b → Machine b
  load_store_sign_extended_halfword d m =
      let address = u32 (m.cpu.gpr d.rb + m.cpu.gpr d.ro) in
      let signed_byte : ℕ × Machine b =
        let (value, m') = Access.read_byte b m address non_sequential in
        (sign_extend 8 value, m') in
      let signed_halfword : ℕ × Machine b =
        let (value, m') = Access.read_halfword b m address non_sequential in
        (sign_extend 16 value, m') in
      unrelated (
        if d.s
        then load_into d.rd (
            if d.h
            then (if bit_and address 1 == 0 then signed_halfword else signed_byte)
            else signed_byte)
        else if d.h
        then load_into d.rd (Access.read_rotated_halfword b m address non_sequential)
        else Access.write_halfword b m address (bit_and (m.cpu.gpr d.rd) 0xFFFF) non_sequential)

  unfoldable pub load_store_immediate_offset :
      Instruction.LoadStoreImmediateOffset → Machine b → Machine b
  unfolding load_store
  load_store_immediate_offset d m =
      load_store d.load d.byte d.rd (u32 (m.cpu.gpr d.rb + d.offset)) m

  unfoldable pub load_store_halfword : Instruction.LoadStoreHalfword → Machine b → Machine b
  load_store_halfword d m =
      let address = u32 (m.cpu.gpr d.rb + d.offset) in
      unrelated (
        if d.load
        then load_into d.rd (Access.read_rotated_halfword b m address non_sequential)
        else Access.write_halfword b m address (bit_and (m.cpu.gpr d.rd) 0xFFFF) non_sequential)

  unfoldable pub sp_relative_load : Instruction.SpRelativeLoad → Machine b → Machine b
  sp_relative_load d m =
      let address = u32 (sp m.cpu + d.word) in
      unrelated (
        if d.load
        then load_into d.rd (Access.read_rotated_word b m address sequential)
        else Access.write_word b m address (m.cpu.gpr d.rd) sequential)

unfoldable pub load_address : Instruction.LoadAddress → Cpu → Cpu
load_address d c =
    if d.sp
    then set_gpr c d.rd (u32 (sp c + d.word))
    else set_gpr c d.rd (u32 (align_word (pc c) + d.word))

unfoldable pub add_offset_stack_pointer : Instruction.AddOffsetStackPointer → Cpu → Cpu
add_offset_stack_pointer d c = set_gpr c sp_index (u32 (sp c + d.word))
