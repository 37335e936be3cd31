-- ===== src/Thumb/Decode/Range.antt =====
-- The ranges of the fields that src/cpu/thumb/instruction.cc decodes.
use matar.Base.{ℕ, ◌^◌, ◌<◌, ◌≡◌, ◌%◌, ◌/◌, if◌then◌else◌, Bool, true, false, arith}
use matar.Bits.{bit_range}
use matar.Thumb.Instruction.{Instruction}
use matar.Thumb.Decode.{decode, decode_upper, default_instruction}
use matar.Thumb.Decode.Fields.{sign_extend}
use matar.Thumb.Decode.Fields

-- The registers of a format are below 8, or below 16 where high registers are allowed; offsets of
-- words and halfwords are multiples of 4 and 2, and lists of registers have eight bits.
unfoldable pub IsInRange : Instruction → Type 0
IsInRange (Instruction.move_shifted_register d) = (d.rd < 8) × (d.rs < 8) × (d.offset < 32)
IsInRange (Instruction.add_subtract d) = (d.rd < 8) × (d.rs < 8) × (d.offset < 8)
IsInRange (Instruction.mov_cmp_add_sub_immediate d) = (d.rd < 8) × (d.offset < 256)
IsInRange (Instruction.alu_operations d) = (d.rd < 8) × (d.rs < 8)
IsInRange (Instruction.hi_register_operations d) = (d.rd < 16) × (d.rs < 16)
IsInRange (Instruction.pc_relative_load d) = (d.rd < 8) × (d.word < 1024) × (d.word % 4 ≡ 0)
IsInRange (Instruction.load_store_register_offset d) = (d.rd < 8) × (d.rb < 8) × (d.ro < 8)
IsInRange (Instruction.load_store_sign_extended_halfword d) = (d.rd < 8) × (d.rb < 8) × (d.ro < 8)
IsInRange (Instruction.load_store_immediate_offset d) =
    (d.rd < 8)
    × (d.rb < 8)
    × (d.offset < 128)
    × ((if d.byte then d.offset / 32 else d.offset % 4) ≡ 0)
IsInRange (Instruction.load_store_halfword d) =
    (d.rd < 8) × (d.rb < 8) × (d.offset < 64) × (d.offset % 2 ≡ 0)
IsInRange (Instruction.sp_relative_load d) = (d.rd < 8) × (d.word < 1024) × (d.word % 4 ≡ 0)
IsInRange (Instruction.load_address d) = (d.rd < 8) × (d.word < 1024) × (d.word % 4 ≡ 0)
IsInRange (Instruction.add_offset_stack_pointer d) = (d.word < 2 ^ 32) × (d.word % 4 ≡ 0)
IsInRange (Instruction.push_pop_register d) = d.regs < 256
IsInRange (Instruction.multiple_load d) = (d.regs < 256) × (d.rb < 8)
IsInRange (Instruction.conditional_branch d) = (d.offset < 2 ^ 32) × (d.offset % 2 ≡ 0)
IsInRange (Instruction.software_interrupt d) = d.vector < 256
IsInRange (Instruction.unconditional_branch d) = (d.offset < 2 ^ 32) × (d.offset % 2 ≡ 0)
IsInRange (Instruction.long_branch_with_link d) = d.offset < 2048

-- Both branches of a test.
either :
    (test : Bool) (x y : Instruction)
    → IsInRange x
    → IsInRange y
    → IsInRange (if test then x else y)
either true x y hx hy = hx
either false x y hx hy = hy

module _ (insn : ℕ) where
  low : IsInRange (Instruction.add_subtract (Fields.add_subtract insn))
  unfolding IsInRange Fields.add_subtract bit_range
  low = (omega arith, omega arith, omega arith)

  shift : IsInRange (Instruction.move_shifted_register (Fields.move_shifted_register insn))
  unfolding IsInRange Fields.move_shifted_register bit_range
  shift = (omega arith, omega arith, omega arith)

  immediate :
      IsInRange (Instruction.mov_cmp_add_sub_immediate (Fields.mov_cmp_add_sub_immediate insn))
  unfolding IsInRange Fields.mov_cmp_add_sub_immediate bit_range
  immediate = (omega arith, omega arith)

  alu : IsInRange (Instruction.alu_operations (Fields.alu_operations insn))
  unfolding IsInRange Fields.alu_operations bit_range
  alu = (omega arith, omega arith)

  high : IsInRange (Instruction.hi_register_operations (Fields.hi_register_operations insn))
  unfolding IsInRange Fields.hi_register_operations bit_range
  high = (ground arith, ground arith)

  pc_relative : IsInRange (Instruction.pc_relative_load (Fields.pc_relative_load insn))
  unfolding IsInRange Fields.pc_relative_load bit_range
  pc_relative = (omega arith, omega arith, omega arith)

  register_offset :
      IsInRange (Instruction.load_store_register_offset (Fields.load_store_register_offset insn))
  unfolding IsInRange Fields.load_store_register_offset bit_range
  register_offset = (omega arith, omega arith, omega arith)

  sign_extended : IsInRange (
      Instruction.load_store_sign_extended_halfword (Fields.load_store_sign_extended_halfword insn))
  unfolding IsInRange Fields.load_store_sign_extended_halfword bit_range
  sign_extended = (omega arith, omega arith, omega arith)

  immediate_offset :
      IsInRange (Instruction.load_store_immediate_offset (Fields.load_store_immediate_offset insn))
  unfolding IsInRange Fields.load_store_immediate_offset bit_range
  immediate_offset = (omega arith, omega arith, ground arith, ground arith)

  halfword : IsInRange (Instruction.load_store_halfword (Fields.load_store_halfword insn))
  unfolding IsInRange Fields.load_store_halfword bit_range
  halfword = (omega arith, omega arith, omega arith, omega arith)

  sp_relative : IsInRange (Instruction.sp_relative_load (Fields.sp_relative_load insn))
  unfolding IsInRange Fields.sp_relative_load bit_range
  sp_relative = (omega arith, omega arith, omega arith)

  address : IsInRange (Instruction.load_address (Fields.load_address insn))
  unfolding IsInRange Fields.load_address bit_range
  address = (omega arith, omega arith, omega arith)

  stack_offset :
      IsInRange (Instruction.add_offset_stack_pointer (Fields.add_offset_stack_pointer insn))
  unfolding IsInRange Fields.add_offset_stack_pointer bit_range
  stack_offset = (ground arith, ground arith)

  stack : IsInRange (Instruction.push_pop_register (Fields.push_pop_register insn))
  unfolding IsInRange Fields.push_pop_register bit_range
  stack = omega arith

  block : IsInRange (Instruction.multiple_load (Fields.multiple_load insn))
  unfolding IsInRange Fields.multiple_load bit_range
  block = (omega arith, omega arith)

  conditional : IsInRange (Instruction.conditional_branch (Fields.conditional_branch insn))
  unfolding IsInRange Fields.conditional_branch bit_range
  conditional = (ground arith, ground arith)

  interrupt : IsInRange (Instruction.software_interrupt (Fields.software_interrupt insn))
  unfolding IsInRange Fields.software_interrupt bit_range
  interrupt = omega arith

  unconditional : IsInRange (Instruction.unconditional_branch (Fields.unconditional_branch insn))
  unfolding IsInRange Fields.unconditional_branch bit_range
  unconditional = (ground arith, ground arith)

  long : IsInRange (Instruction.long_branch_with_link (Fields.long_branch_with_link insn))
  unfolding IsInRange Fields.long_branch_with_link bit_range
  long = omega arith

  default : IsInRange default_instruction
  unfolding IsInRange
  default = (omega arith, omega arith, omega arith)

  upper : IsInRange (decode_upper insn)
  unfolding decode_upper
  upper = either _ _ _ immediate_offset (
      either _ _ _ halfword (
        either _ _ _ sp_relative (
          either _ _ _ address (
            either _ _ _ stack_offset (
              either _ _ _ stack (
                either _ _ _ block (
                  either _ _ _ interrupt (
                    either _ _ _ conditional
                      (either _ _ _ unconditional (either _ _ _ long default))))))))))

-- Whatever the halfword, the decoded register numbers, offsets, register lists and vectors are in
-- the range that their format allows.
pub decode-IsInRange : (insn : ℕ) → IsInRange (decode insn)
unfolding decode
decode-IsInRange insn = either _ _ _ (low insn) (
    either _ _ _ (shift insn) (
      either _ _ _ (immediate insn) (
        either _ _ _ (alu insn) (
          either _ _ _ (high insn) (
            either _ _ _ (pc_relative insn) (
              either _ _ _ (register_offset insn)
                (either _ _ _ (sign_extended insn) (upper insn))))))))
