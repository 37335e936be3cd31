-- ===== src/Arm/Exec/Multiply.antt =====
-- src/cpu/arm/exec.cc: the multiplications.
pub mod Product
use matar.Base.{ℕ, suc, ◌+◌, ◌-◌, ◌*◌, ◌^◌, ◌==◌, ◌&&◌, if◌then◌else◌, Bool, false, u32, u64}
use matar.Base.{bit_or, ◌<<<◌}
use matar.Bits.{get_bit, bit_range}
use matar.Alu.{multiplier_array_cycles}
use matar.BusApi.{Bus}
use matar.Psr
use matar.Cpu.State.{Cpu, Machine, set_gpr, set_cpsr}
use matar.Cpu.Access.{with_cpu, internal_cycle, internal_cycles}
use matar.Arm.Instruction

-- The registers after a multiplication: the product, then the sum, then the flags.
unfoldable pub multiply_registers : Instruction.Multiply → Cpu → Cpu
multiply_registers d c =
    let c1 = set_gpr c d.rd (u32 (c.gpr d.rm * c.gpr d.rs)) in
    let c2 = if d.acc then set_gpr c1 d.rd (u32 (c1.gpr d.rd + c1.gpr d.rn)) else c1 in
    if d.set
    then set_cpsr c2 (
        Psr.set_c (Psr.set_n (Psr.set_z c2.cpsr (c2.gpr d.rd == 0)) (get_bit (c2.gpr d.rd) 31))
          false)
    else c2

-- `static_cast<int64_t>(static_cast<int32_t>(x))`, as a 64-bit pattern.
abbrev pub sign_extend_64 : ℕ → ℕ
sign_extend_64 x = if get_bit x 31 then x + (2 ^ 64 - 2 ^ 32) else x

-- `eval`, whose sums and products wrap at 64 bits, signed or not.
unfoldable pub long_result : Instruction.MultiplyLong → Cpu → ℕ
long_result d c =
    let cast : ℕ → ℕ = λ (x : ℕ). if d.uns then x else sign_extend_64 x in
    let old = bit_or (u64 (cast (c.gpr d.rdhi) <<< 32)) (cast (c.gpr d.rdlo)) in
    u64 (cast (c.gpr d.rm) * cast (c.gpr d.rs) + (if d.acc then old else 0))

-- The lower half is written before the upper one. Of a negative `eval`, `bit_range` extends the sign,
-- which the assignment to `uint32_t` cuts off again.
unfoldable pub multiply_long_registers : Instruction.MultiplyLong → Cpu → Cpu
unfolding long_result
multiply_long_registers d c =
    let eval = long_result d c in
    let c1 = set_gpr (set_gpr c d.rdlo (bit_range 64 eval 0 31)) d.rdhi (bit_range 64 eval 32 63) in
    if d.set
    then set_cpsr c1 (
        Psr.set_v
          (Psr.set_c
            (Psr.set_n (Psr.set_z c1.cpsr ((c1.gpr d.rdhi == 0) && (c1.gpr d.rdlo == 0)))
              (get_bit (c1.gpr d.rdhi) 31))
            false)
          false)
    else c1

module _ (b : Bus) where
  unfoldable pub multiply : Instruction.Multiply → Machine b → Machine b
  multiply d m =
      let m1 = internal_cycles b (multiplier_array_cycles (m.cpu.gpr d.rs) false) m in
      with_cpu b (if d.acc then internal_cycle b m1 else m1) (multiply_registers d m.cpu)

  unfoldable pub multiply_long : Instruction.MultiplyLong → Machine b → Machine b
  multiply_long d m =
      let m1 = if d.acc then internal_cycle b m else m in
      with_cpu b (internal_cycles b (suc (multiplier_array_cycles (m.cpu.gpr d.rs) d.uns)) m1)
        (multiply_long_registers d m.cpu)
