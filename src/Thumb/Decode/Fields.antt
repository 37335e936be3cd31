-- ===== src/Thumb/Decode/Fields.antt =====
-- The fields of each format of src/cpu/thumb/instruction.cc, taken from the halfword `insn`.
use matar.Base.{ℕ, ◌+◌, ◌-◌, ◌%◌, ◌^◌, ◌==◌, if◌then◌else◌, Bool, ltb, u8, u16}
use matar.Base.{◌<<<◌, sub32}
use matar.Bits.{get_bit, bit_range}
use matar.Alu.{ShiftType}
use matar.Psr.{condition_of}
use matar.Thumb.Instruction

abbrev pub lo_gpr_count : ℕ
lo_gpr_count = 8

-- The `static_cast`s to the enumerations.
abbrev pub shift_type_of : ℕ → ShiftType
shift_type_of n =
    if n == 0
    then ShiftType.lsl
    else if n == 1
    then ShiftType.lsr
    else if n == 2
    then ShiftType.asr
    else ShiftType.ror

abbrev pub add_op_of : Bool → Instruction.AddOp
add_op_of b = if b then Instruction.AddOp.sub else Instruction.AddOp.add

abbrev pub immediate_op_of : ℕ → Instruction.ImmediateOp
immediate_op_of n =
    if n == 0
    then Instruction.ImmediateOp.mov
    else if n == 1
    then Instruction.ImmediateOp.cmp
    else if n == 2
    then Instruction.ImmediateOp.add
    else Instruction.ImmediateOp.sub

abbrev pub alu_op_of : ℕ → Instruction.AluOp
alu_op_of n =
    if n == 0
    then Instruction.and'
    else if n == 1
    then Instruction.eor
    else if n == 2
    then Instruction.AluOp.lsl
    else if n == 3
    then Instruction.AluOp.lsr
    else if n == 4
    then Instruction.AluOp.asr
    else if n == 5
    then Instruction.adc
    else if n == 6
    then Instruction.sbc
    else if n == 7
    then Instruction.AluOp.ror
    else if n == 8
    then Instruction.tst
    else if n == 9
    then Instruction.neg
    else if n == 10
    then Instruction.AluOp.cmp
    else if n == 11
    then Instruction.cmn
    else if n == 12
    then Instruction.orr
    else if n == 13
    then Instruction.mul
    else if n == 14
    then Instruction.bic
    else Instruction.mvn

abbrev pub hi_op_of : ℕ → Instruction.HiOp
hi_op_of n =
    if n == 0
    then Instruction.HiOp.add
    else if n == 1
    then Instruction.HiOp.cmp
    else if n == 2
    then Instruction.HiOp.mov
    else Instruction.bx

-- `(offset << k) >> k` on `int32_t`: sign extension of a number of `32 - k` bits.
abbrev pub sign_extend : ℕ → ℕ → ℕ
sign_extend bits x =
    if ltb (x % 2 ^ bits) (2 ^ (bits - 1)) then x % 2 ^ bits else x % 2 ^ bits + (2 ^ 32 - 2 ^ bits)

-- A register number or another field of the lower bits.
abbrev range : ℕ → ℕ → ℕ → ℕ
range insn start end = bit_range 16 insn start end

unfoldable pub add_subtract : ℕ → Instruction.AddSubtract
add_subtract insn = record {
  rd = range insn 0 2;
  rs = range insn 3 5;
  offset = range insn 6 8;
  opcode = add_op_of (get_bit insn 9);
  imm = get_bit insn 10;
}

unfoldable pub move_shifted_register : ℕ → Instruction.MoveShiftedRegister
move_shifted_register insn = record {
  rd = range insn 0 2;
  rs = range insn 3 5;
  offset = range insn 6 10;
  opcode = shift_type_of (range insn 11 12);
}

unfoldable pub mov_cmp_add_sub_immediate : ℕ → Instruction.MovCmpAddSubImmediate
mov_cmp_add_sub_immediate insn = record {
  offset = range insn 0 7;
  rd = range insn 8 10;
  opcode = immediate_op_of (range insn 11 12);
}

unfoldable pub alu_operations : ℕ → Instruction.AluOperations
alu_operations insn = record {
  rd = range insn 0 2;
  rs = range insn 3 5;
  opcode = alu_op_of (range insn 6 9);
}

unfoldable pub hi_register_operations : ℕ → Instruction.HiRegisterOperations
hi_register_operations insn = record {
  rd = u8 (range insn 0 2 + (if get_bit insn 7 then lo_gpr_count else 0));
  rs = u8 (range insn 3 5 + (if get_bit insn 6 then lo_gpr_count else 0));
  opcode = hi_op_of (range insn 8 9);
}

unfoldable pub pc_relative_load : ℕ → Instruction.PcRelativeLoad
pc_relative_load insn = record { word = u16 (range insn 0 7 <<< 2); rd = range insn 8 10 }

unfoldable pub load_store_register_offset : ℕ → Instruction.LoadStoreRegisterOffset
load_store_register_offset insn = record {
  rd = range insn 0 2;
  rb = range insn 3 5;
  ro = range insn 6 8;
  byte = get_bit insn 10;
  load = get_bit insn 11;
}

unfoldable pub load_store_sign_extended_halfword : ℕ → Instruction.LoadStoreSignExtendedHalfword
load_store_sign_extended_halfword insn = record {
  rd = range insn 0 2;
  rb = range insn 3 5;
  ro = range insn 6 8;
  s = get_bit insn 10;
  h = get_bit insn 11;
}

unfoldable pub load_store_immediate_offset : ℕ → Instruction.LoadStoreImmediateOffset
load_store_immediate_offset insn = record {
  rd = range insn 0 2;
  rb = range insn 3 5;
  offset = if get_bit insn 12 then range insn 6 10 else u8 (range insn 6 10 <<< 2);
  load = get_bit insn 11;
  byte = get_bit insn 12;
}

unfoldable pub load_store_halfword : ℕ → Instruction.LoadStoreHalfword
load_store_halfword insn = record {
  rd = range insn 0 2;
  rb = range insn 3 5;
  offset = u8 (range insn 6 10 <<< 1);
  load = get_bit insn 11;
}

unfoldable pub sp_relative_load : ℕ → Instruction.SpRelativeLoad
sp_relative_load insn = record {
  word = u16 (range insn 0 7 <<< 2);
  rd = range insn 8 10;
  load = get_bit insn 11;
}

unfoldable pub load_address : ℕ → Instruction.LoadAddress
load_address insn = record {
  word = u16 (range insn 0 7 <<< 2);
  rd = range insn 8 10;
  sp = get_bit insn 11;
}

-- The `int16_t`, of at most 508 in size, as the word that `sp += data.word` adds.
unfoldable pub add_offset_stack_pointer : ℕ → Instruction.AddOffsetStackPointer
add_offset_stack_pointer insn = record {
  word = if get_bit insn 7 then sub32 0 (range insn 0 6 <<< 2) else range insn 0 6 <<< 2;
}

unfoldable pub push_pop_register : ℕ → Instruction.PushPopRegister
push_pop_register insn = record {
  regs = range insn 0 7;
  pclr = get_bit insn 8;
  load = get_bit insn 11;
}

unfoldable pub multiple_load : ℕ → Instruction.MultipleLoad
multiple_load insn = record { regs = range insn 0 7; rb = range insn 8 10; load = get_bit insn 11 }

unfoldable pub software_interrupt : ℕ → Instruction.SoftwareInterrupt
software_interrupt insn = record { vector = range insn 0 7 }

unfoldable pub conditional_branch : ℕ → Instruction.ConditionalBranch
conditional_branch insn = record {
  offset = sign_extend 9 (range insn 0 7 <<< 1);
  condition = condition_of (range insn 8 11);
}

unfoldable pub unconditional_branch : ℕ → Instruction.UnconditionalBranch
unconditional_branch insn = record { offset = sign_extend 12 (range insn 0 10 <<< 1) }

unfoldable pub long_branch_with_link : ℕ → Instruction.LongBranchWithLink
long_branch_with_link insn = record { offset = range insn 0 10; low = get_bit insn 11 }
