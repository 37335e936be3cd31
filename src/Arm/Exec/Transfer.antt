-- ===== src/Arm/Exec/Transfer.antt =====
-- src/cpu/arm/exec.cc: the swap, and the loads and stores of one register.
use matar.Base.{ℕ, ◌+◌, ◌==◌, ◌&&◌, ◌||◌, if◌then◌else◌, Bool, not, u32, sub32}
use matar.Base.{bit_and}
use matar.Alu.{eval_shift}
use matar.BusApi.{Bus, sequential, non_sequential}
use matar.Psr
use matar.Cpu.State.{Cpu, Machine, set_gpr, set_cpsr, pc_index}
use matar.Cpu.Access.{with_cpu, internal_cycle}
use matar.Cpu.Access
use matar.Cpu.Pipeline.{arm_size}
use matar.Arm.Instruction
use matar.Arm.Exec.Data.{shift_amount}
use matar.Thumb.Decode.Fields.{sign_extend}
use matar.Thumb.Exec.Transfer.{unrelated, load_into}

-- The offset, and the processor with the carry that its shift writes.
unfoldable pub transfer_offset : Instruction.TransferOffset → Cpu → ℕ × Cpu
transfer_offset (Instruction.immediate n) c = (n, c)
transfer_offset (Instruction.shifted s) c =
    let (offset, carry) =
      eval_shift s.data_of.type s.data_of.immediate (c.gpr s.rm) (shift_amount s c)
        (Psr.c c.cpsr) in
    (offset, set_cpsr c (Psr.set_c c.cpsr carry))

-- `address += (data.up ? offset : -offset);`
abbrev pub moved : Bool → ℕ → ℕ → ℕ
moved up offset address = if up then u32 (address + offset) else sub32 address offset

-- The address of the access, and the one after it.
abbrev pub accessed : Bool → Bool → ℕ → ℕ → ℕ
accessed pre up offset base = if pre then moved up offset base else base

-- R15 is stored four bytes further on.
abbrev pub stored_value : ℕ → Cpu → ℕ
stored_value rd c = if rd == pc_index then u32 (c.gpr rd + arm_size) else c.gpr rd

-- The base is written after a post-indexed access or on request, unless a load has just written it.
abbrev pub write_base : Bool → ℕ → ℕ → Bool → Bool → ℕ → Cpu → Cpu
write_base load rd rn pre write address c =
    if not (load && (rd == rn)) && (not pre || write) then set_gpr c rn address else c

module _ (b : Bus) where
  unfoldable pub single_data_swap : Instruction.SingleDataSwap → Machine b → Machine b
  single_data_swap d m =
      let address = m.cpu.gpr d.rn in
      let source = m.cpu.gpr d.rm in
      let (old, m') : ℕ × Machine b =
        if d.byte
        then (let (old, m1) = Access.read_byte b m address non_sequential in
            (old, Access.write_byte b m1 address (bit_and source 0xFF) sequential))
        else (let (old, m1) = Access.read_rotated_word b m address non_sequential in
            (old, Access.write_word b m1 address source sequential)) in
      unrelated b (internal_cycle b (with_cpu b m' (set_gpr m'.cpu d.rd old)))

  unfoldable pub single_data_transfer :
      Instruction.SingleDataTransfer → Machine b → Bool × Machine b
  unfolding transfer_offset
  single_data_transfer d m =
      let base = m.cpu.gpr d.rn in
      let (offset, c) = transfer_offset d.offset m.cpu in
      let m1 = with_cpu b m c in
      let address = accessed d.pre d.up offset base in
      let m2 : Machine b =
        if d.load
        then load_into b d.rd (
            if d.byte
            then Access.read_byte b m1 address non_sequential
            else Access.read_rotated_word b m1 address non_sequential)
        else if d.byte
        then Access.write_byte b m1 address (bit_and (stored_value d.rd c) 0xFF) non_sequential
        else Access.write_word b m1 address (stored_value d.rd c) non_sequential in
      (
        d.load && (d.rd == pc_index),
        unrelated b (
            with_cpu b m2
              (write_base d.load d.rd d.rn d.pre d.write (moved d.up offset base) m2.cpu)),
      )

  -- The value of a load: a byte or a halfword with its sign, an unsigned halfword, or none.
  unfoldable pub load_halfword : Instruction.HalfwordTransfer → ℕ → Machine b → Machine b
  load_halfword d address m =
      let signed_byte : ℕ × Machine b =
        let (value, m') = Access.read_byte b m address non_sequential in
        (sign_extend 8 value, m') in
      let signed_halfword : ℕ × Machine b =
        let (value, m') = Access.read_halfword b m address non_sequential in
        (sign_extend 16 value, m') in
      if d.sign
      then load_into b d.rd (
          if d.half
          then (if bit_and address 1 == 0 then signed_halfword else signed_byte)
          else signed_byte)
      else if d.half
      then load_into b d.rd (Access.read_rotated_halfword b m address non_sequential)
      else internal_cycle b m

  unfoldable pub halfword_transfer : Instruction.HalfwordTransfer → Machine b → Bool × Machine b
  unfolding load_halfword
  halfword_transfer d m =
      let base = m.cpu.gpr d.rn in
      let offset = if d.imm then d.offset else m.cpu.gpr d.offset in
      let address = accessed d.pre d.up offset base in
      let m1 : Machine b =
        if d.load
        then load_halfword d address m
        else if d.half
        then Access.write_halfword b m address (bit_and (stored_value d.rd m.cpu) 0xFFFF)
            non_sequential
        else m in
      (
        d.load && (d.rd == pc_index),
        unrelated b (
            with_cpu b m1
              (write_base d.load d.rd d.rn d.pre d.write (moved d.up offset base) m1.cpu)),
      )
