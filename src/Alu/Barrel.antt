-- ===== src/Alu/Barrel.antt =====
-- `eval_shift` of src/cpu/alu.cc, whole: both kinds of shift amount and all four shift types.
use matar.Base.{
  ℕ, zero, suc, ◌+◌, ◌*◌, ◌/◌, ◌%◌, ◌^◌, ◌<◌, ◌==◌, to_nat, Bool, true, false, ◌≡◌, refl, arith,
}
use matar.Base.{◌∙◌, bit_or, bit_or_join, bit_or_comm, if◌then◌else◌}
use matar.Bits.{get_bit}
use matar.Alu.{ShiftType, lsl, lsr, asr, ror, eval_shift}
use matar.Alu.Shifter.{shift_times, not_none}
use matar.Alu.Shifter.Left.{lsl_agrees}
use matar.Alu.Shifter.Right.{lsr_agrees}
use matar.Alu.Shifter.Signed.{asr_agrees}
use matar.Alu.Shifter.Round.{ror_agrees}

-- How many steps an instruction's five-bit amount stands for: none of LSR and ASR stands for 32.
abbrev pub steps : ShiftType → ℕ → ℕ
steps lsl n = n
steps lsr n = if n == 0 then 32 else n
steps asr n = if n == 0 then 32 else n
steps ror n = n

-- A rotation through the carry, which an immediate ROR by none stands for.
abbrev pub rotate_extended : ℕ × Bool → ℕ × Bool
rotate_extended (v, c) = (v / 2 + to_nat c * 2 ^ 31, v % 2 == 1)

-- The shifter's meaning, with the kind of amount, by one-bit steps.
abbrev pub barrel : ShiftType → Bool → ℕ → ℕ × Bool → ℕ × Bool
barrel t false n s = shift_times t n s
barrel lsl true n s = shift_times lsl n s
barrel lsr true n s = shift_times lsr (steps lsr n) s
barrel asr true n s = shift_times asr (steps asr n) s
barrel ror true n s = if n == 0 then rotate_extended s else shift_times ror n s

module _ (v : ℕ) (c : Bool) (in_word : v < 2 ^ 32) where
  by_register : (t : ShiftType) (n : ℕ) → eval_shift t false v n c ≡ shift_times t n (v, c)
  by_register lsl n = lsl_agrees v c in_word n
  by_register lsr n = lsr_agrees v c in_word n
  by_register asr n = asr_agrees v c in_word n
  by_register ror n = ror_agrees v c in_word n

  -- Past zero the kind of amount makes no difference.
  same_kind :
      (t : ShiftType) (n : ℕ) → eval_shift t true v (suc n) c ≡ eval_shift t false v (suc n) c
  unfolding eval_shift
  same_kind lsl n = refl
  same_kind lsr n = ground arith
  same_kind asr n = ground arith
  same_kind ror n = ground arith

  none_is_32 :
      (t : ShiftType) → steps t 0 ≡ 32 → eval_shift t true v 0 c ≡ eval_shift t false v 32 c
  unfolding eval_shift get_bit
  none_is_32 lsl e = absurd (omega arith)
  none_is_32 lsr e = refl
  none_is_32 asr e = refl
  none_is_32 ror e = absurd (omega arith)

  extended : eval_shift ror true v 0 c ≡ rotate_extended (v, c)
  unfolding eval_shift get_bit
  extended =
      let joined : bit_or (v / 2 ^ 1) (to_nat c * 2 ^ 31) ≡ v / 2 + to_nat c * 2 ^ 31 =
        bit_or_comm (v / 2 ^ 1) (to_nat c * 2 ^ 31)
        ∙ bit_or_join 31 (to_nat c) (v / 2 ^ 1) (omega arith)
        ∙ omega arith in
      ground (arith, joined)

  none_left : eval_shift lsl true v 0 c ≡ (v, c)
  unfolding eval_shift
  none_left = refl

  past_zero : (t : ShiftType) (n : ℕ) → eval_shift t true v (suc n) c ≡ shift_times t (suc n) (v, c)
  past_zero t n = same_kind t n ∙ by_register t (suc n)

  by_immediate : (t : ShiftType) (n : ℕ) → eval_shift t true v n c ≡ barrel t true n (v, c)
  unfolding shift_times
  by_immediate lsl zero = none_left
  by_immediate lsl (suc n) = past_zero lsl n
  by_immediate lsr zero = none_is_32 lsr refl ∙ by_register lsr 32
  by_immediate lsr (suc n) = past_zero lsr n ∙ rw (not_none n)
  by_immediate asr zero = none_is_32 asr refl ∙ by_register asr 32
  by_immediate asr (suc n) = past_zero asr n ∙ rw (not_none n)
  by_immediate ror zero = extended
  by_immediate ror (suc n) = past_zero ror n ∙ rw (not_none n)

-- `eval_shift` computes the word and the carry of the barrel shifter, for every shift type, kind
-- of amount, amount and carry in, on every 32-bit word.
pub eval_shift-barrel :
    (t : ShiftType) (immediate : Bool) (v n : ℕ) (c : Bool)
    → v < 2 ^ 32
    → eval_shift t immediate v n c ≡ barrel t immediate n (v, c)
eval_shift-barrel t true v n c h = by_immediate v c h t n
eval_shift-barrel t false v n c h = by_register v c h t n
