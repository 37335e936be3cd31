-- ===== src/Arm/Exec/Multiply/Product.antt =====
-- The long products of src/cpu/arm/exec.cc, as numbers.
use matar.Base.{ℕ, ◌+◌, ◌*◌, ◌^◌, ◌<◌, ◌≡◌, ◌≢◌, refl, ◌∙◌, sym, arith, true}
use matar.Base.{if◌then◌else◌, if_both, bit_or, bit_or_join, u64, ◌<<<◌, ==_false, ==_same}
use matar.Bits.{bit_range}
use matar.Cpu.State.{Cpu, Registers, set}
use matar.Arm.Instruction
use matar.Arm.Exec.Multiply.{long_result, multiply_long_registers}

-- The number in a pair of registers.
abbrev pub pair : Registers → ℕ → ℕ → ℕ
pair r high low = r high * 2 ^ 32 + r low

halves : (x : ℕ) → x < 2 ^ 64 → bit_range 64 x 32 63 * 2 ^ 32 + bit_range 64 x 0 31 ≡ x
unfolding bit_range
halves x h = omega arith

joined :
    (high low : ℕ)
    → high < 2 ^ 32
    → low < 2 ^ 32
    → bit_or (u64 (high <<< 32)) low ≡ high * 2 ^ 32 + low
joined high low h1 h2 =
    let whole : u64 (high <<< 32) ≡ high * 2 ^ 32 = omega arith in
    rw whole (bit_or_join 32 high low h2)

module _ (d : Instruction.MultiplyLong) (c : Cpu) (unsigned : d.uns ≡ true)
    (distinct : d.rdhi ≢ d.rdlo) (high : c.gpr d.rdhi < 2 ^ 32) (low : c.gpr d.rdlo < 2 ^ 32) where
  abbrev exact : ℕ
  exact = c.gpr d.rm * c.gpr d.rs + (if d.acc then pair c.gpr d.rdhi d.rdlo else 0)

  result : long_result d c ≡ u64 exact
  unfolding long_result
  result = rw (unsigned, joined (c.gpr d.rdhi) (c.gpr d.rdlo) high low) refl

  in_long : long_result d c < 2 ^ 64
  in_long = rw result (omega arith)

  abbrev written : Registers
  written =
      set (set c.gpr d.rdlo (bit_range 64 (long_result d c) 0 31)) d.rdhi
        (bit_range 64 (long_result d c) 32 63)

  pair-written : pair written d.rdhi d.rdlo ≡ u64 exact
  pair-written =
      rw (==_same d.rdhi, ==_same d.rdlo, ==_false d.rdlo d.rdhi (λ e. distinct (sym e)))
        (halves (long_result d c) in_long ∙ result)

  registers : (multiply_long_registers d c).gpr ≡ written
  unfolding multiply_long_registers
  registers = if_both (λ (x : Cpu). x.gpr ≡ written) d.set _ _ refl refl

  -- UMULL and UMLAL leave in their two destination registers, if those are distinct and held words,
  -- the exact product, plus the old value of the pair when they accumulate, modulo 2 ^ 64.
  pub multiply_long-unsigned : pair (multiply_long_registers d c).gpr d.rdhi d.rdlo ≡ u64 exact
  multiply_long-unsigned = rw registers pair-written
