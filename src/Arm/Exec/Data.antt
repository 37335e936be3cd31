-- ===== src/Arm/Exec/Data.antt =====
-- src/cpu/arm/exec.cc: data processing and the transfers of the status registers.
pub mod Return
use matar.Base.{ℕ, ◌+◌, ◌*◌, ◌==◌, ◌||◌, if◌then◌else◌, Bool, true, false, not, u8, u32}
use matar.Base.{bit_and, bit_or, bit_xor, bit_not}
use matar.Bits.{get_bit}
use matar.Alu
use matar.Alu.{Sum, Shift, ImmediateRotate, eval_shift}
use matar.BusApi.{Bus}
use matar.Psr
use matar.Psr.{Psr, Mode, user, mode_bits}
use matar.Cpu.State.{Cpu, Machine, set_gpr, set_cpsr, pc_index}
use matar.Cpu.Access.{with_cpu, internal_cycle}
use matar.Cpu.Modes.{chg_mode}
use matar.Cpu.Pipeline.{arm_size}
use matar.Arm.Instruction

-- `eval_shift(ShiftType::ROR, false, value, rot * 2, carry)`
abbrev pub rotated : ImmediateRotate → Bool → ℕ × Bool
rotated r carry = eval_shift Alu.ShiftType.ror false r.value (r.rot * 2) carry

-- `uint8_t amount`
abbrev pub shift_amount : Shift → Cpu → ℕ
shift_amount s c =
    if s.data_of.immediate then s.data_of.operand else bit_and (c.gpr s.data_of.operand) 0xFF

-- Both operands, and the carry of the shifter. R15 is 12 bytes ahead when a register holds the
-- amount.
unfoldable pub operands : Instruction.DataProcessing → Cpu → ℕ × ℕ × Bool
operands d c = elim d.operand [
  | Instruction.Operand.rotate r ↦
      (let (op_2, carry) = rotated r (Psr.c c.cpsr) in (c.gpr d.rn, op_2, carry))
  | Instruction.shift s ↦
      (let ahead : ℕ → ℕ = λ (i : ℕ).
          if not s.data_of.immediate
          then (if i == pc_index then u32 (c.gpr i + arm_size) else c.gpr i)
          else c.gpr i in
        let (op_2, carry) =
          eval_shift s.data_of.type s.data_of.immediate (ahead s.rm) (shift_amount s c)
            (Psr.c c.cpsr) in
        (ahead d.rn, op_2, carry))
]

-- The switch on the opcode, with the carry of the shifter where the ALU gives none.
unfoldable pub alu_result : Instruction.OpCode → ℕ → ℕ → Bool → Cpu → Sum
alu_result op op_1 op_2 carry c =
    let carry_in = Psr.c c.cpsr in
    let plain : ℕ → Sum = λ (x : ℕ). record { value = x; carry = carry; overflow = Psr.v c.cpsr } in
    elim op [
      | Instruction.OpCode.and' ↦ plain (bit_and op_1 op_2)
      | Instruction.OpCode.tst ↦ plain (bit_and op_1 op_2)
      | Instruction.OpCode.eor ↦ plain (bit_xor op_1 op_2)
      | Instruction.OpCode.teq ↦ plain (bit_xor op_1 op_2)
      | Instruction.OpCode.sub ↦ Alu.sub op_1 op_2
      | Instruction.OpCode.cmp ↦ Alu.sub op_1 op_2
      | Instruction.OpCode.rsb ↦ Alu.sub op_2 op_1
      | Instruction.OpCode.add ↦ Alu.add op_1 op_2 false
      | Instruction.OpCode.cmn ↦ Alu.add op_1 op_2 false
      | Instruction.OpCode.adc ↦ Alu.add op_1 op_2 carry_in
      | Instruction.OpCode.sbc ↦ Alu.sbc op_1 op_2 carry_in
      | Instruction.OpCode.rsc ↦ Alu.sbc op_2 op_1 carry_in
      | Instruction.OpCode.orr ↦ plain (bit_or op_1 op_2)
      | Instruction.OpCode.mov ↦ plain op_2
      | Instruction.OpCode.bic ↦ plain (bit_and op_1 (bit_not 32 op_2))
      | Instruction.OpCode.mvn ↦ plain (bit_not 32 op_2)
    ]

abbrev pub is_test : Instruction.OpCode → Bool
is_test op = elim op [
  | Instruction.OpCode.tst ↦ true
  | Instruction.OpCode.teq ↦ true
  | Instruction.OpCode.cmp ↦ true
  | Instruction.OpCode.cmn ↦ true
  | _ ↦ false
]

-- `set_conditions`
abbrev pub set_conditions : Sum → Cpu → Cpu
set_conditions r c =
    set_cpsr c (Psr.set_flags c.cpsr r.carry r.overflow (get_bit r.value 31) (r.value == 0))

-- `chg_mode(spsr.mode()); cpsr = old_spsr;`
unfoldable pub restore_status : Cpu → Cpu
restore_status c = set_cpsr (chg_mode (Psr.mode c.spsr) c) c.spsr

-- Whether the pipeline is to be flushed, and the registers.
unfoldable pub data_processing_registers : Instruction.DataProcessing → Cpu → Bool × Cpu
data_processing_registers d c =
    let (op_1, op_2, carry) = operands d c in
    let r = alu_result d.opcode op_1 op_2 carry c in
    let c1 =
      if d.set then (if d.rd == pc_index then restore_status c else set_conditions r c) else c in
    if is_test d.opcode
    then (false, set_conditions r c1)
    else (d.rd == pc_index, set_gpr c1 d.rd r.value)

-- A shift by a register takes a cycle.
abbrev pub takes_cycle : Instruction.DataProcessing → Bool
takes_cycle d = elim d.operand [
  | Instruction.Operand.rotate r ↦ false
  | Instruction.shift s ↦ not s.data_of.immediate
]

module _ (b : Bus) where
  unfoldable pub data_processing : Instruction.DataProcessing → Machine b → Bool × Machine b
  data_processing d m =
      let (is_flushed, c) = data_processing_registers d m.cpu in
      (is_flushed, with_cpu b (if takes_cycle d then internal_cycle b m else m) c)

-- The operand, and the processor with the carry that its rotation writes.
abbrev pub psr_operand : Instruction.PsrTransfer → Cpu → ℕ × Cpu
psr_operand d c = elim d.operand [
  | Instruction.PsrOperand.rotate r ↦
      (let (value, carry) = rotated r (Psr.c c.cpsr) in
        (value, set_cpsr c (Psr.set_c c.cpsr carry)))
  | Instruction.register i ↦ (c.gpr i, c)
]

-- `Psr& psr`, read and written.
abbrev pub psr_of : Bool → Cpu → Psr
psr_of spsr c = if spsr then c.spsr else c.cpsr

abbrev pub put_psr : Bool → Psr → Cpu → Cpu
put_psr spsr p c = if spsr then record c { spsr = p } else set_cpsr c p

-- The decoder gives MRS a register, never a rotated number, for which the source has no index.
unfoldable pub psr_transfer : Instruction.PsrTransfer → Cpu → Cpu
psr_transfer d c =
    let (operand, c1) = psr_operand d c in
    elim d.type [
      | Instruction.mrs ↦ elim d.operand [
        | Instruction.register i ↦ set_gpr c1 i (Psr.raw (psr_of d.spsr c1))
        | Instruction.PsrOperand.rotate r ↦ c1
      ]
      | Instruction.msr ↦
          if mode_bits (Psr.mode c1.cpsr) == mode_bits user
          then c1
          else (let tmp = Psr.make operand in
              let c2 = if d.spsr then c1 else set_cpsr (chg_mode (Psr.mode tmp) c1) tmp in
              put_psr d.spsr (Psr.set_all (psr_of d.spsr c2) operand) c2)
      | Instruction.msr_flg ↦
          (let p = psr_of d.spsr c1 in
            put_psr d.spsr
              (Psr.set_v
                (Psr.set_c (Psr.set_z (Psr.set_n p (get_bit operand 31)) (get_bit operand 30))
                  (get_bit operand 29))
                (get_bit operand 28))
              c1)
    ]
