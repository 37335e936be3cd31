-- ===== src/Arm/Decode/Range.antt =====
-- The ranges of the fields that src/cpu/arm/instruction.cc decodes.
use matar.Base.{
  ℕ, ◌^◌, ◌<◌, ◌%◌, ◌≡◌, if◌then◌else◌, if_both, Bool, true, false, arith, bit_or, ◌*◌, ◌<<<◌,
  bit_or-lt, bit_and_low,
}
use matar.Bits.{get_bit, bit_range}
use matar.Alu.{Shift, ImmediateRotate}
use matar.Arm.Instruction
use matar.Arm.Instruction.{InstructionData}
use matar.Arm.Decode.{decode_data}
use matar.Arm.Decode.Fields

-- A shift names registers, and shifts by a number below 32 or by a register.
abbrev pub ShiftIsInRange : Shift → Type 0
ShiftIsInRange s = (s.rm < 16) × (s.data_of.operand < (if s.data_of.immediate then 32 else 16))

abbrev pub RotateIsInRange : ImmediateRotate → Type 0
RotateIsInRange r = (r.value < 256) × (r.rot < 16)

abbrev pub OffsetIsInRange : Instruction.TransferOffset → Type 0
OffsetIsInRange (Instruction.immediate n) = n < 4096
OffsetIsInRange (Instruction.shifted s) = ShiftIsInRange s

abbrev pub OperandIsInRange : Instruction.Operand → Type 0
OperandIsInRange (Instruction.shift s) = ShiftIsInRange s
OperandIsInRange (Instruction.Operand.rotate r) = RotateIsInRange r

abbrev pub PsrOperandIsInRange : Instruction.PsrOperand → Type 0
PsrOperandIsInRange (Instruction.register i) = i < 16
PsrOperandIsInRange (Instruction.PsrOperand.rotate r) = RotateIsInRange r

-- Registers are below 16, lists of registers have sixteen bits, a branch is a multiple of 4.
unfoldable pub IsInRange : InstructionData → Type 0
IsInRange (Instruction.branch_and_exchange d) = d.rn < 16
IsInRange (Instruction.multiply d) = (d.rm < 16) × (d.rs < 16) × (d.rn < 16) × (d.rd < 16)
IsInRange (Instruction.multiply_long d) = (d.rm < 16) × (d.rs < 16) × (d.rdlo < 16) × (d.rdhi < 16)
IsInRange (Instruction.single_data_swap d) = (d.rm < 16) × (d.rd < 16) × (d.rn < 16)
IsInRange (Instruction.block_data_transfer d) = (d.rn < 16) × (d.regs < 2 ^ 16)
IsInRange (Instruction.coprocessor_data_transfer d) = (d.crd < 16) × (d.rn < 16)
IsInRange (Instruction.coprocessor_data_operation d) = (d.crm < 16) × (d.crd < 16) × (d.crn < 16)
IsInRange (Instruction.coprocessor_register_transfer d) = (d.crm < 16) × (d.rd < 16) × (d.crn < 16)
IsInRange (Instruction.branch d) = (d.offset < 2 ^ 32) × (d.offset % 4 ≡ 0)
IsInRange (Instruction.single_data_transfer d) =
    (d.rd < 16) × (d.rn < 16) × OffsetIsInRange d.offset
IsInRange (Instruction.halfword_transfer d) =
    (d.rd < 16) × (d.rn < 16) × (d.offset < (if d.imm then 256 else 16))
IsInRange (Instruction.data_processing d) = (d.rd < 16) × (d.rn < 16) × OperandIsInRange d.operand
IsInRange (Instruction.psr_transfer d) = PsrOperandIsInRange d.operand
IsInRange Instruction.undefined = Unit {0}
IsInRange Instruction.software_interrupt = Unit {0}

-- Both branches of a test.
either :
    (test : Bool) (x y : InstructionData)
    → IsInRange x
    → IsInRange y
    → IsInRange (if test then x else y)
either true x y hx hy = hx
either false x y hx hy = hy

psr_fits :
    (operand : Instruction.PsrOperand) (spsr : Bool) (type : Instruction.PsrTransferType)
    → PsrOperandIsInRange operand
    → IsInRange (Instruction.psr_transfer record { operand = operand; spsr = spsr; type = type })
unfolding IsInRange
psr_fits operand spsr type h = h

processing_fits :
    (operand : Instruction.Operand) (rd rn : ℕ) (set : Bool) (opcode : Instruction.OpCode)
    → rd < 16
    → rn < 16
    → OperandIsInRange operand
    → IsInRange (
        Instruction.data_processing
          record { operand = operand; rd = rd; rn = rn; set = set; opcode = opcode })
unfolding IsInRange
processing_fits operand rd rn set opcode h1 h2 h3 = (h1, h2, h3)

module _ (insn : ℕ) where
  multiply_fits : IsInRange (Instruction.multiply (Fields.multiply insn))
  unfolding IsInRange Fields.multiply bit_range
  multiply_fits = (omega arith, omega arith, omega arith, omega arith)

  multiply_long_fits : IsInRange (Instruction.multiply_long (Fields.multiply_long insn))
  unfolding IsInRange Fields.multiply_long bit_range
  multiply_long_fits = (omega arith, omega arith, omega arith, omega arith)

  single_data_swap_fits : IsInRange (Instruction.single_data_swap (Fields.single_data_swap insn))
  unfolding IsInRange Fields.single_data_swap bit_range
  single_data_swap_fits = (omega arith, omega arith, omega arith)

  block_data_transfer_fits :
      IsInRange (Instruction.block_data_transfer (Fields.block_data_transfer insn))
  unfolding IsInRange Fields.block_data_transfer bit_range
  block_data_transfer_fits = (omega arith, omega arith)

  coprocessor_data_transfer_fits :
      IsInRange (Instruction.coprocessor_data_transfer (Fields.coprocessor_data_transfer insn))
  unfolding IsInRange Fields.coprocessor_data_transfer bit_range
  coprocessor_data_transfer_fits = (omega arith, omega arith)

  coprocessor_data_operation_fits :
      IsInRange (Instruction.coprocessor_data_operation (Fields.coprocessor_data_operation insn))
  unfolding IsInRange Fields.coprocessor_data_operation bit_range
  coprocessor_data_operation_fits = (omega arith, omega arith, omega arith)

  coprocessor_register_transfer_fits :
      IsInRange
        (Instruction.coprocessor_register_transfer (Fields.coprocessor_register_transfer insn))
  unfolding IsInRange Fields.coprocessor_register_transfer bit_range
  coprocessor_register_transfer_fits = (omega arith, omega arith, omega arith)

  exchange_fits : IsInRange (Instruction.branch_and_exchange (Fields.branch_and_exchange insn))
  unfolding IsInRange Fields.branch_and_exchange
  exchange_fits = omega (arith, bit_and_low 4 insn)

  branch_fits : IsInRange (Instruction.branch (Fields.branch insn))
  unfolding IsInRange Fields.branch bit_range
  branch_fits = (ground arith, ground arith)

  transfer_fits : IsInRange (Instruction.single_data_transfer (Fields.single_data_transfer insn))
  unfolding IsInRange Fields.single_data_transfer bit_range
  transfer_fits = (
    omega arith,
    omega arith,
    if_both OffsetIsInRange (get_bit insn 25) _ _ (omega arith, omega arith) (omega arith),
  )

  byte_offset : bit_range 32 insn 8 11 * 2 ^ 4 < 2 ^ 8
  unfolding bit_range
  byte_offset = omega arith

  nibble : bit_range 32 insn 0 3 < 2 ^ 4
  unfolding bit_range
  nibble = omega arith

  offset_fits :
      (imm : Bool)
      → bit_or (bit_range 32 insn 0 3) (if imm then bit_range 32 insn 8 11 <<< 4 else 0)
        < (if imm then 256 else 16)
  offset_fits true =
      bit_or-lt 8 (bit_range 32 insn 0 3) (bit_range 32 insn 8 11 <<< 4) (omega (arith, nibble))
        (omega (arith, byte_offset))
  offset_fits false = bit_or-lt 4 (bit_range 32 insn 0 3) 0 nibble (omega arith)

  register_fits : (bit_range 32 insn 12 15 < 16) × (bit_range 32 insn 16 19 < 16)
  unfolding bit_range
  register_fits = (omega arith, omega arith)

  halfword_fits : IsInRange (Instruction.halfword_transfer (Fields.halfword_transfer insn))
  unfolding IsInRange Fields.halfword_transfer
  halfword_fits = (register_fits.0, register_fits.1, offset_fits (get_bit insn 22))

  shift_fits : ShiftIsInRange (Fields.shifted_operand insn)
  unfolding bit_range
  shift_fits = (omega arith, ground arith)

  rotate_fits : RotateIsInRange (Fields.immediate_rotate insn)
  unfolding bit_range
  rotate_fits = (omega arith, omega arith)

  data_fits : IsInRange (Fields.data_processing_or_psr insn)
  unfolding Fields.data_processing_or_psr
  data_fits = either _ _ _ (psr_fits _ _ _ register_fits.0) (
      either _ _ _
        (psr_fits _ _ _ (
          if_both PsrOperandIsInRange (get_bit insn 25)
            (Instruction.PsrOperand.rotate (Fields.immediate_rotate insn))
            (Instruction.register (bit_range 32 insn 0 3)) rotate_fits nibble))
        (processing_fits _ _ _ _ _ register_fits.0 register_fits.1 (
          if_both OperandIsInRange (get_bit insn 25)
            (Instruction.Operand.rotate (Fields.immediate_rotate insn))
            (Instruction.shift (Fields.shifted_operand insn)) rotate_fits shift_fits)))

  undefined_fits : IsInRange Instruction.undefined
  unfolding IsInRange
  undefined_fits = tt

  interrupt_fits : IsInRange Instruction.software_interrupt
  unfolding IsInRange
  interrupt_fits = tt

-- Whatever the word, the decoded register numbers, offsets, shifts, rotations and register lists are
-- in the range that their format allows.
pub decode_data-IsInRange : (insn : ℕ) → IsInRange (decode_data insn)
unfolding decode_data
decode_data-IsInRange insn = either _ _ _ (exchange_fits insn) (
    either _ _ _ (branch_fits insn) (
      either _ _ _ (multiply_fits insn) (
        either _ _ _ (multiply_long_fits insn) (
          either _ _ _ (undefined_fits insn) (
            either _ _ _ (single_data_swap_fits insn) (
              either _ _ _ (transfer_fits insn) (
                either _ _ _ (halfword_fits insn) (
                  either _ _ _ (block_data_transfer_fits insn) (
                    either _ _ _ (data_fits insn) (
                      either _ _ _ (interrupt_fits insn) (
                        either _ _ _ (coprocessor_data_transfer_fits insn) (
                          either _ _ _ (coprocessor_data_operation_fits insn) (
                            either _ _ _ (coprocessor_register_transfer_fits insn)
                              (undefined_fits insn))))))))))))))
