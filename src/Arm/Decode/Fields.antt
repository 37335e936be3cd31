-- ===== src/Arm/Decode/Fields.antt =====
-- The fields of each format of src/cpu/arm/instruction.cc, taken from the word `insn`.
use matar.Base.{ℕ, ◌==◌, if◌then◌else◌, true, not, ◌||◌, ◌&&◌, bit_and, bit_or}
use matar.Base.{◌<<<◌}
use matar.Bits.{get_bit, bit_range}
use matar.Alu.{Shift, ImmediateRotate}
use matar.Arm.Instruction
use matar.Thumb.Decode.Fields.{shift_type_of, sign_extend}

abbrev range : ℕ → ℕ → ℕ → ℕ
range insn start end = bit_range 32 insn start end

-- `static_cast<OpCode>` of four bits
abbrev pub opcode_of : ℕ → Instruction.OpCode
opcode_of n =
    if n == 0
    then Instruction.OpCode.and'
    else if n == 1
    then Instruction.OpCode.eor
    else if n == 2
    then Instruction.OpCode.sub
    else if n == 3
    then Instruction.OpCode.rsb
    else if n == 4
    then Instruction.OpCode.add
    else if n == 5
    then Instruction.OpCode.adc
    else if n == 6
    then Instruction.OpCode.sbc
    else if n == 7
    then Instruction.OpCode.rsc
    else if n == 8
    then Instruction.OpCode.tst
    else if n == 9
    then Instruction.OpCode.teq
    else if n == 10
    then Instruction.OpCode.cmp
    else if n == 11
    then Instruction.OpCode.cmn
    else if n == 12
    then Instruction.OpCode.orr
    else if n == 13
    then Instruction.OpCode.mov
    else if n == 14
    then Instruction.OpCode.bic
    else Instruction.OpCode.mvn

-- The low twelve bits: a register with a shift by a number, or a number.
abbrev pub transfer_offset : ℕ → Instruction.TransferOffset
transfer_offset insn =
    if get_bit insn 25
    then Instruction.shifted record {
      rm = range insn 0 3;
      data_of = record {
        type = shift_type_of (range insn 5 6);
        immediate = true;
        operand = range insn 7 11;
      };
    }
    else Instruction.immediate (range insn 0 11)

unfoldable pub branch_and_exchange : ℕ → Instruction.BranchAndExchange
branch_and_exchange insn = record { rn = bit_and insn 0b1111 }

unfoldable pub branch : ℕ → Instruction.Branch
branch insn = record { link = get_bit insn 24; offset = sign_extend 26 (range insn 0 23 <<< 2) }

unfoldable pub multiply : ℕ → Instruction.Multiply
multiply insn = record {
  rm = range insn 0 3;
  rs = range insn 8 11;
  rn = range insn 12 15;
  rd = range insn 16 19;
  set = get_bit insn 20;
  acc = get_bit insn 21;
}

unfoldable pub multiply_long : ℕ → Instruction.MultiplyLong
multiply_long insn = record {
  rm = range insn 0 3;
  rs = range insn 8 11;
  rdlo = range insn 12 15;
  rdhi = range insn 16 19;
  set = get_bit insn 20;
  acc = get_bit insn 21;
  uns = not (get_bit insn 22);
}

unfoldable pub single_data_swap : ℕ → Instruction.SingleDataSwap
single_data_swap insn = record {
  rm = range insn 0 3;
  rd = range insn 12 15;
  rn = range insn 16 19;
  byte = get_bit insn 22;
}

unfoldable pub single_data_transfer : ℕ → Instruction.SingleDataTransfer
single_data_transfer insn = record {
  offset = transfer_offset insn;
  rd = range insn 12 15;
  rn = range insn 16 19;
  load = get_bit insn 20;
  write = get_bit insn 21;
  byte = get_bit insn 22;
  up = get_bit insn 23;
  pre = get_bit insn 24;
}

unfoldable pub halfword_transfer : ℕ → Instruction.HalfwordTransfer
halfword_transfer insn = record {
  offset = bit_or (range insn 0 3) (if get_bit insn 22 then range insn 8 11 <<< 4 else 0);
  half = get_bit insn 5;
  sign = get_bit insn 6;
  rd = range insn 12 15;
  rn = range insn 16 19;
  load = get_bit insn 20;
  write = get_bit insn 21;
  imm = get_bit insn 22;
  up = get_bit insn 23;
  pre = get_bit insn 24;
}

unfoldable pub block_data_transfer : ℕ → Instruction.BlockDataTransfer
block_data_transfer insn = record {
  regs = range insn 0 15;
  rn = range insn 16 19;
  load = get_bit insn 20;
  write = get_bit insn 21;
  s = get_bit insn 22;
  up = get_bit insn 23;
  pre = get_bit insn 24;
}

unfoldable pub coprocessor_data_transfer : ℕ → Instruction.CoprocessorDataTransfer
coprocessor_data_transfer insn = record {
  offset = range insn 0 7;
  cpn = range insn 8 11;
  crd = range insn 12 15;
  rn = range insn 16 19;
  load = get_bit insn 20;
  write = get_bit insn 21;
  len = get_bit insn 22;
  up = get_bit insn 23;
  pre = get_bit insn 24;
}

unfoldable pub coprocessor_data_operation : ℕ → Instruction.CoprocessorDataOperation
coprocessor_data_operation insn = record {
  crm = range insn 0 3;
  cp = range insn 5 7;
  cpn = range insn 8 11;
  crd = range insn 12 15;
  crn = range insn 16 19;
  cp_opc = range insn 20 23;
}

unfoldable pub coprocessor_register_transfer : ℕ → Instruction.CoprocessorRegisterTransfer
coprocessor_register_transfer insn = record {
  crm = range insn 0 3;
  cp = range insn 5 7;
  cpn = range insn 8 11;
  rd = range insn 12 15;
  crn = range insn 16 19;
  load = get_bit insn 20;
  cp_opc = range insn 21 23;
}

-- `ImmediateRotate{ .value = immediate, .rot = rotate }`
abbrev pub immediate_rotate : ℕ → ImmediateRotate
immediate_rotate insn = record { value = range insn 0 7; rot = range insn 8 11 }

-- The shift amount starts at bit 8 when a register holds it.
abbrev pub shifted_operand : ℕ → Shift
shifted_operand insn =
    let reg = get_bit insn 4 in
    record {
      rm = range insn 0 3;
      data_of = record {
        type = shift_type_of (range insn 5 6);
        immediate = not reg;
        operand = range insn (if reg then 8 else 7) 11;
      };
    }

-- The comparisons without `set` are the transfers of the status registers: MRS in place of TST and
-- CMP, MSR in place of TEQ and CMN.
unfoldable pub data_processing_or_psr : ℕ → Instruction.InstructionData
data_processing_or_psr insn =
    let rd = range insn 12 15 in
    let set = get_bit insn 20 in
    let code = range insn 21 24 in
    let imm = get_bit insn 25 in
    if (code == 8 || code == 10) && not set
    then Instruction.psr_transfer
        record { operand = Instruction.register rd; spsr = get_bit insn 22; type = Instruction.mrs }
    else if (code == 9 || code == 11) && not set
    then Instruction.psr_transfer record {
      operand =
          if imm
          then Instruction.PsrOperand.rotate (immediate_rotate insn)
          else Instruction.register (range insn 0 3);
      spsr = get_bit insn 22;
      type = if get_bit insn 16 then Instruction.msr else Instruction.msr_flg;
    }
    else Instruction.data_processing record {
      operand =
          if imm
          then Instruction.Operand.rotate (immediate_rotate insn)
          else Instruction.shift (shifted_operand insn);
      rd = rd;
      rn = range insn 16 19;
      set = set;
      opcode = opcode_of code;
    }
