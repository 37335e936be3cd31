-- ===== src/Thumb/Decode.antt =====
-- src/cpu/thumb/instruction.cc: from a halfword to an instruction. The tests stand in the order of
-- the source, since some patterns overlap; each format has a function for its fields.
pub mod Fields
pub mod Range
use matar.Base.{ℕ, ◌==◌, if◌then◌else◌, bit_and, false}
use matar.Alu.{ShiftType}
use matar.Thumb.Instruction
use matar.Thumb.Instruction.{Instruction}
use matar.Thumb.Decode.Fields

-- What `data` holds when no pattern matches: the default of the variant's first alternative.
abbrev pub default_instruction : Instruction
default_instruction =
    Instruction.move_shifted_register record { rd = 0; rs = 0; offset = 0; opcode = ShiftType.lsl }

-- Formats 9 to 19.
unfoldable pub decode_upper : ℕ → Instruction
decode_upper insn =
    if bit_and insn 0xE000 == 0x6000
    then Instruction.load_store_immediate_offset (Fields.load_store_immediate_offset insn)
    else if bit_and insn 0xF000 == 0x8000
    then Instruction.load_store_halfword (Fields.load_store_halfword insn)
    else if bit_and insn 0xF000 == 0x9000
    then Instruction.sp_relative_load (Fields.sp_relative_load insn)
    else if bit_and insn 0xF000 == 0xA000
    then Instruction.load_address (Fields.load_address insn)
    else if bit_and insn 0xFF00 == 0xB000
    then Instruction.add_offset_stack_pointer (Fields.add_offset_stack_pointer insn)
    else if bit_and insn 0xF600 == 0xB400
    then Instruction.push_pop_register (Fields.push_pop_register insn)
    else if bit_and insn 0xF000 == 0xC000
    then Instruction.multiple_load (Fields.multiple_load insn)
    else if bit_and insn 0xFF00 == 0xDF00
    then Instruction.software_interrupt (Fields.software_interrupt insn)
    else if bit_and insn 0xF000 == 0xD000
    then Instruction.conditional_branch (Fields.conditional_branch insn)
    else if bit_and insn 0xF800 == 0xE000
    then Instruction.unconditional_branch (Fields.unconditional_branch insn)
    else if bit_and insn 0xF000 == 0xF000
    then Instruction.long_branch_with_link (Fields.long_branch_with_link insn)
    else default_instruction

-- Formats 1 to 8, format 2 before format 1, and the others.
unfoldable pub decode : ℕ → Instruction
decode insn =
    if bit_and insn 0xF800 == 0x1800
    then Instruction.add_subtract (Fields.add_subtract insn)
    else if bit_and insn 0xE000 == 0x0000
    then Instruction.move_shifted_register (Fields.move_shifted_register insn)
    else if bit_and insn 0xE000 == 0x2000
    then Instruction.mov_cmp_add_sub_immediate (Fields.mov_cmp_add_sub_immediate insn)
    else if bit_and insn 0xFC00 == 0x4000
    then Instruction.alu_operations (Fields.alu_operations insn)
    else if bit_and insn 0xFC00 == 0x4400
    then Instruction.hi_register_operations (Fields.hi_register_operations insn)
    else if bit_and insn 0xF800 == 0x4800
    then Instruction.pc_relative_load (Fields.pc_relative_load insn)
    else if bit_and insn 0xF200 == 0x5000
    then Instruction.load_store_register_offset (Fields.load_store_register_offset insn)
    else if bit_and insn 0xF200 == 0x5200
    then Instruction.load_store_sign_extended_halfword
        (Fields.load_store_sign_extended_halfword insn)
    else decode_upper insn
