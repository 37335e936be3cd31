-- ===== src/Arm/Instruction.antt =====
-- include/cpu/arm/instruction.hh: the ARM instructions. A field of the source keeps its name and its
-- order; a register is its number, and a signed offset the `uint32_t` pattern that is added.
use matar.Base.{ℕ, Bool}
use matar.Alu.{Shift, ImmediateRotate}
use matar.Psr.{Condition}

-- `DataProcessing::OpCode`; `and'` is AND.
pub data OpCode : Type 0 where
  and' eor sub rsb add adc sbc rsc tst teq cmp cmn orr mov bic mvn : OpCode

-- `PsrTransfer::Type`
pub data PsrTransferType : Type 0 where
  mrs msr msr_flg : PsrTransferType

-- The variants: an offset is a number or a shifted register,
pub data TransferOffset : Type 0 where
  immediate : ℕ → TransferOffset
  shifted : Shift → TransferOffset

-- the operand of data processing a shifted register or a rotated number,
pub data Operand : Type 0 where
  shift : Shift → Operand
  rotate : ImmediateRotate → Operand

-- and that of a status transfer a register or a rotated number.
pub data PsrOperand : Type 0 where
  register : ℕ → PsrOperand
  rotate : ImmediateRotate → PsrOperand

pub record BranchAndExchange : Type 0 where
  pub rn : ℕ

pub record Branch : Type 0 where
  pub link : Bool
  pub offset : ℕ

pub record Multiply : Type 0 where
  pub rm : ℕ
  pub rs : ℕ
  pub rn : ℕ
  pub rd : ℕ
  pub set : Bool
  pub acc : Bool

pub record MultiplyLong : Type 0 where
  pub rm : ℕ
  pub rs : ℕ
  pub rdlo : ℕ
  pub rdhi : ℕ
  pub set : Bool
  pub acc : Bool
  pub uns : Bool

pub record SingleDataSwap : Type 0 where
  pub rm : ℕ
  pub rd : ℕ
  pub rn : ℕ
  pub byte : Bool

pub record SingleDataTransfer : Type 0 where
  pub offset : TransferOffset
  pub rd : ℕ
  pub rn : ℕ
  pub load : Bool
  pub write : Bool
  pub byte : Bool
  pub up : Bool
  pub pre : Bool

pub record HalfwordTransfer : Type 0 where
  pub offset : ℕ
  pub half : Bool
  pub sign : Bool
  pub rd : ℕ
  pub rn : ℕ
  pub load : Bool
  pub write : Bool
  pub imm : Bool
  pub up : Bool
  pub pre : Bool

pub record BlockDataTransfer : Type 0 where
  pub regs : ℕ
  pub rn : ℕ
  pub load : Bool
  pub write : Bool
  pub s : Bool
  pub up : Bool
  pub pre : Bool

pub record DataProcessing : Type 0 where
  pub operand : Operand
  pub rd : ℕ
  pub rn : ℕ
  pub set : Bool
  pub opcode : OpCode

pub record PsrTransfer : Type 0 where
  pub operand : PsrOperand
  pub spsr : Bool
  pub type : PsrTransferType

pub record CoprocessorDataTransfer : Type 0 where
  pub offset : ℕ
  pub cpn : ℕ
  pub crd : ℕ
  pub rn : ℕ
  pub load : Bool
  pub write : Bool
  pub len : Bool
  pub up : Bool
  pub pre : Bool

pub record CoprocessorDataOperation : Type 0 where
  pub crm : ℕ
  pub cp : ℕ
  pub cpn : ℕ
  pub crd : ℕ
  pub crn : ℕ
  pub cp_opc : ℕ

pub record CoprocessorRegisterTransfer : Type 0 where
  pub crm : ℕ
  pub cp : ℕ
  pub cpn : ℕ
  pub rd : ℕ
  pub crn : ℕ
  pub load : Bool
  pub cp_opc : ℕ

-- `InstructionData`
pub data InstructionData : Type 0 where
  branch_and_exchange : BranchAndExchange → InstructionData
  branch : Branch → InstructionData
  multiply : Multiply → InstructionData
  multiply_long : MultiplyLong → InstructionData
  single_data_swap : SingleDataSwap → InstructionData
  single_data_transfer : SingleDataTransfer → InstructionData
  halfword_transfer : HalfwordTransfer → InstructionData
  block_data_transfer : BlockDataTransfer → InstructionData
  data_processing : DataProcessing → InstructionData
  psr_transfer : PsrTransfer → InstructionData
  coprocessor_data_transfer : CoprocessorDataTransfer → InstructionData
  coprocessor_data_operation : CoprocessorDataOperation → InstructionData
  coprocessor_register_transfer : CoprocessorRegisterTransfer → InstructionData
  undefined : InstructionData
  software_interrupt : InstructionData

pub record Instruction : Type 0 where
  pub condition : Condition
  pub data_of : InstructionData
