-- ===== src/Thumb/Exec/Compute.antt =====
-- src/cpu/thumb/exec.cc, formats 1 to 5: the handlers that compute on registers. Each is a lambda of
-- `Cpu::exec`; `set_cc` is `Psr.set_flags`.
use matar.Base.{ℕ, ◌*◌, ◌==◌, if◌then◌else◌, Bool, true, false, u32, sub32, bit_and}
use matar.Base.{bit_or, bit_xor, bit_not}
use matar.Bits.{get_bit, rst_bit}
use matar.Alu
use matar.Alu.{Sum, eval_shift, multiplier_array_cycles}
use matar.BusApi.{Bus}
use matar.Psr
use matar.Psr.{arm, thumb, state_of}
use matar.Cpu.State.{Cpu, Machine, set_gpr, set_cpsr, pc_index}
use matar.Cpu.Access.{with_cpu, internal_cycles}
use matar.Cpu.Pipeline.{even_pc, word_pc}
use matar.Thumb.Instruction
use matar.Thumb.Decode.Fields.{sign_extend}

-- The flags of `result`, by `set_cc`.
abbrev pub flag_result : Cpu → Sum → Cpu
flag_result c r =
    set_cpsr c (Psr.set_flags c.cpsr r.carry r.overflow (get_bit r.value 31) (r.value == 0))

-- An `eval_shift` whose overflow is the old one.
abbrev pub shifted : Cpu → ℕ × Bool → Sum
shifted c (value, carry) = record { value = value; carry = carry; overflow = Psr.v c.cpsr }

unfoldable pub move_shifted_register : Instruction.MoveShiftedRegister → Cpu → Cpu
move_shifted_register d c =
    let r = shifted c (eval_shift d.opcode true (c.gpr d.rs) d.offset (Psr.c c.cpsr)) in
    flag_result (set_gpr c d.rd r.value) r

unfoldable pub add_subtract : Instruction.AddSubtract → Cpu → Cpu
add_subtract d c =
    let offset = if d.imm then sign_extend 8 d.offset else c.gpr d.offset in
    let r : Sum = elim d.opcode [
      | Instruction.AddOp.add ↦ Alu.add (c.gpr d.rs) offset false
      | Instruction.AddOp.sub ↦ Alu.sub (c.gpr d.rs) offset
    ] in
    flag_result (set_gpr c d.rd r.value) r

unfoldable pub mov_cmp_add_sub_immediate : Instruction.MovCmpAddSubImmediate → Cpu → Cpu
mov_cmp_add_sub_immediate d c = elim d.opcode [
  | Instruction.ImmediateOp.mov ↦
      (let r : Sum = record { value = d.offset; carry = false; overflow = Psr.v c.cpsr } in
        set_gpr (flag_result c r) d.rd r.value)
  | Instruction.ImmediateOp.cmp ↦ flag_result c (Alu.sub (c.gpr d.rd) d.offset)
  | Instruction.ImmediateOp.add ↦
      (let r = Alu.add (c.gpr d.rd) d.offset false in set_gpr (flag_result c r) d.rd r.value)
  | Instruction.ImmediateOp.sub ↦
      (let r = Alu.sub (c.gpr d.rd) d.offset in set_gpr (flag_result c r) d.rd r.value)
]

-- `result`, `carry` and `overflow` after the switch of format 4.
unfoldable pub alu_result : Instruction.AluOp → Cpu → ℕ → ℕ → Sum
alu_result op c op_1 op_2 =
    let carry = Psr.c c.cpsr in
    let plain : ℕ → Sum = λ (x : ℕ). record { value = x; carry = carry; overflow = Psr.v c.cpsr } in
    elim op [
      | Instruction.AluOp.and' ↦ plain (bit_and op_1 op_2)
      | Instruction.AluOp.eor ↦ plain (bit_xor op_1 op_2)
      | Instruction.AluOp.lsl ↦ shifted c (eval_shift Alu.ShiftType.lsl false op_1 op_2 carry)
      | Instruction.AluOp.lsr ↦ shifted c (eval_shift Alu.ShiftType.lsr false op_1 op_2 carry)
      | Instruction.AluOp.asr ↦ shifted c (eval_shift Alu.ShiftType.asr false op_1 op_2 carry)
      | Instruction.AluOp.adc ↦ Alu.add op_1 op_2 carry
      | Instruction.AluOp.sbc ↦ Alu.sbc op_1 op_2 carry
      | Instruction.AluOp.ror ↦ shifted c (eval_shift Alu.ShiftType.ror false op_1 op_2 carry)
      | Instruction.AluOp.tst ↦ plain (bit_and op_1 op_2)
      | Instruction.AluOp.neg ↦ plain (sub32 0 op_2)
      | Instruction.AluOp.cmp ↦ Alu.sub op_1 op_2
      | Instruction.AluOp.cmn ↦ Alu.add op_1 op_2 false
      | Instruction.AluOp.orr ↦ plain (bit_or op_1 op_2)
      | Instruction.AluOp.mul ↦ plain (u32 (op_1 * op_2))
      | Instruction.AluOp.bic ↦ plain (bit_and op_1 (bit_not 32 op_2))
      | Instruction.AluOp.mvn ↦ plain (bit_not 32 op_2)
    ]

-- The calls of `internal_cycle` in the same switch.
unfoldable pub alu_cycles : Instruction.AluOp → ℕ → ℕ
alu_cycles op op_2 = elim op [
  | Instruction.AluOp.lsl ↦ 1
  | Instruction.AluOp.lsr ↦ 1
  | Instruction.AluOp.asr ↦ 1
  | Instruction.AluOp.ror ↦ 1
  | Instruction.AluOp.mul ↦ multiplier_array_cycles op_2 false
  | _ ↦ 0
]

-- TST, CMP and CMN write no register.
abbrev pub writes_back : Instruction.AluOp → Bool
writes_back op = elim op [
  | Instruction.AluOp.tst ↦ false
  | Instruction.AluOp.cmp ↦ false
  | Instruction.AluOp.cmn ↦ false
  | _ ↦ true
]

module _ (b : Bus) where
  unfoldable pub alu_operations : Instruction.AluOperations → Machine b → Machine b
  unfolding alu_result alu_cycles
  alu_operations d m =
      let c = m.cpu in
      let op_2 = c.gpr d.rs in
      let r = alu_result d.opcode c (c.gpr d.rd) op_2 in
      let c' = if writes_back d.opcode then set_gpr c d.rd r.value else c in
      with_cpu b (internal_cycles b (alu_cycles d.opcode op_2) m) (flag_result c' r)

-- Whether the pipeline is to be flushed, and the registers.
unfoldable pub hi_register_operations : Instruction.HiRegisterOperations → Cpu → Bool × Cpu
hi_register_operations d c =
    let op_1 = if d.rd == pc_index then rst_bit 32 (c.gpr d.rd) 0 else c.gpr d.rd in
    let op_2 = if d.rs == pc_index then rst_bit 32 (c.gpr d.rs) 0 else c.gpr d.rs in
    elim d.opcode [
      | Instruction.HiOp.add ↦ (d.rd == pc_index, set_gpr c d.rd ((Alu.add op_1 op_2 false).value))
      | Instruction.HiOp.cmp ↦ (false, flag_result c (Alu.sub op_1 op_2))
      | Instruction.HiOp.mov ↦ (d.rd == pc_index, set_gpr c d.rd op_2)
      | Instruction.HiOp.bx ↦
          (let state = state_of (get_bit op_2 0) in
            let c' = set_gpr (set_cpsr c (Psr.set_state c.cpsr state)) pc_index op_2 in
            (true, elim state [ arm ↦ word_pc c' | thumb ↦ even_pc c' ]))
    ]
