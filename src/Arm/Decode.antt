-- ===== src/Arm/Decode.antt =====
-- src/cpu/arm/instruction.cc: from a word to an instruction. The tests stand in the order of the
-- source, since some patterns overlap; each format has a function for its fields.
pub mod Fields
pub mod Range
use matar.Base.{ℕ, ◌==◌, if◌then◌else◌, bit_and}
use matar.Bits.{bit_range}
use matar.Psr.{condition_of}
use matar.Arm.Instruction
use matar.Arm.Instruction.{Instruction, InstructionData}
use matar.Arm.Decode.Fields

unfoldable pub decode_data : ℕ → InstructionData
decode_data insn =
    if bit_and insn 0x0FFFFFF0 == 0x012FFF10
    then Instruction.branch_and_exchange (Fields.branch_and_exchange insn)
    else if bit_and insn 0x0E000000 == 0x0A000000
    then Instruction.branch (Fields.branch insn)
    else if bit_and insn 0x0FC000F0 == 0x00000090
    then Instruction.multiply (Fields.multiply insn)
    else if bit_and insn 0x0F8000F0 == 0x00800090
    then Instruction.multiply_long (Fields.multiply_long insn)
    else if bit_and insn 0x0E000010 == 0x06000010
    then Instruction.undefined
    else if bit_and insn 0x0FB00FF0 == 0x01000090
    then Instruction.single_data_swap (Fields.single_data_swap insn)
    else if bit_and insn 0x0C000000 == 0x04000000
    then Instruction.single_data_transfer (Fields.single_data_transfer insn)
    else if bit_and insn 0x0E000090 == 0x00000090
    then Instruction.halfword_transfer (Fields.halfword_transfer insn)
    else if bit_and insn 0x0E000000 == 0x08000000
    then Instruction.block_data_transfer (Fields.block_data_transfer insn)
    else if bit_and insn 0x0C000000 == 0x00000000
    then Fields.data_processing_or_psr insn
    else if bit_and insn 0x0F000000 == 0x0F000000
    then Instruction.software_interrupt
    else if bit_and insn 0x0E000000 == 0x0C000000
    then Instruction.coprocessor_data_transfer (Fields.coprocessor_data_transfer insn)
    else if bit_and insn 0x0F000010 == 0x0E000000
    then Instruction.coprocessor_data_operation (Fields.coprocessor_data_operation insn)
    else if bit_and insn 0x0F000010 == 0x0E000010
    then Instruction.coprocessor_register_transfer (Fields.coprocessor_register_transfer insn)
    else Instruction.undefined

unfoldable pub decode : ℕ → Instruction
decode insn = record {
  condition = condition_of (bit_range 32 insn 28 31);
  data_of = decode_data insn;
}
