-- ===== src/Thumb/Instruction.antt =====
-- include/cpu/thumb/instruction.hh: the Thumb instructions. A field of the source keeps its name and
-- its order; a register is its number. Signed offsets are `uint32_t` patterns, as they are added.
use matar.Base.{ℕ, Bool}
use matar.Alu.{ShiftType}
use matar.Psr.{Condition}

pub data AddOp : Type 0 where
  add sub : AddOp

pub data ImmediateOp : Type 0 where
  mov cmp add sub : ImmediateOp

-- `and'` is AND; the operations of format 4 in the order of their codes.
pub data AluOp : Type 0 where
  and' eor lsl lsr asr adc sbc ror tst neg cmp cmn orr mul bic mvn : AluOp

pub data HiOp : Type 0 where
  add cmp mov bx : HiOp

pub record MoveShiftedRegister : Type 0 where
  pub rd : ℕ
  pub rs : ℕ
  pub offset : ℕ
  pub opcode : ShiftType

pub record AddSubtract : Type 0 where
  pub rd : ℕ
  pub rs : ℕ
  pub offset : ℕ
  pub opcode : AddOp
  pub imm : Bool

pub record MovCmpAddSubImmediate : Type 0 where
  pub offset : ℕ
  pub rd : ℕ
  pub opcode : ImmediateOp

pub record AluOperations : Type 0 where
  pub rd : ℕ
  pub rs : ℕ
  pub opcode : AluOp

pub record HiRegisterOperations : Type 0 where
  pub rd : ℕ
  pub rs : ℕ
  pub opcode : HiOp

pub record PcRelativeLoad : Type 0 where
  pub word : ℕ
  pub rd : ℕ

pub record LoadStoreRegisterOffset : Type 0 where
  pub rd : ℕ
  pub rb : ℕ
  pub ro : ℕ
  pub byte : Bool
  pub load : Bool

pub record LoadStoreSignExtendedHalfword : Type 0 where
  pub rd : ℕ
  pub rb : ℕ
  pub ro : ℕ
  pub s : Bool
  pub h : Bool

pub record LoadStoreImmediateOffset : Type 0 where
  pub rd : ℕ
  pub rb : ℕ
  pub offset : ℕ
  pub load : Bool
  pub byte : Bool

pub record LoadStoreHalfword : Type 0 where
  pub rd : ℕ
  pub rb : ℕ
  pub offset : ℕ
  pub load : Bool

pub record SpRelativeLoad : Type 0 where
  pub word : ℕ
  pub rd : ℕ
  pub load : Bool

pub record LoadAddress : Type 0 where
  pub word : ℕ
  pub rd : ℕ
  pub sp : Bool

pub record AddOffsetStackPointer : Type 0 where
  pub word : ℕ

pub record PushPopRegister : Type 0 where
  pub regs : ℕ
  pub pclr : Bool
  pub load : Bool

pub record MultipleLoad : Type 0 where
  pub regs : ℕ
  pub rb : ℕ
  pub load : Bool

pub record ConditionalBranch : Type 0 where
  pub offset : ℕ
  pub condition : Condition

pub record SoftwareInterrupt : Type 0 where
  pub vector : ℕ

pub record UnconditionalBranch : Type 0 where
  pub offset : ℕ

pub record LongBranchWithLink : Type 0 where
  pub offset : ℕ
  pub low : Bool

-- `InstructionData`, and the whole of `Instruction`, which has no other field.
pub data Instruction : Type 0 where
  move_shifted_register : MoveShiftedRegister → Instruction
  add_subtract : AddSubtract → Instruction
  mov_cmp_add_sub_immediate : MovCmpAddSubImmediate → Instruction
  alu_operations : AluOperations → Instruction
  hi_register_operations : HiRegisterOperations → Instruction
  pc_relative_load : PcRelativeLoad → Instruction
  load_store_register_offset : LoadStoreRegisterOffset → Instruction
  load_store_sign_extended_halfword : LoadStoreSignExtendedHalfword → Instruction
  load_store_immediate_offset : LoadStoreImmediateOffset → Instruction
  load_store_halfword : LoadStoreHalfword → Instruction
  sp_relative_load : SpRelativeLoad → Instruction
  load_address : LoadAddress → Instruction
  add_offset_stack_pointer : AddOffsetStackPointer → Instruction
  push_pop_register : PushPopRegister → Instruction
  multiple_load : MultipleLoad → Instruction
  conditional_branch : ConditionalBranch → Instruction
  software_interrupt : SoftwareInterrupt → Instruction
  unconditional_branch : UnconditionalBranch → Instruction
  long_branch_with_link : LongBranchWithLink → Instruction
