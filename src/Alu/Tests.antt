-- ===== src/Alu/Tests.antt =====
-- Runs of the barrel shifter of src/cpu/alu.cc.
use matar.Base.{◌≡◌, true, false, refl, arith}
use matar.Bits.{get_bit}
use matar.Alu.{asr, eval_shift}
use matar.Alu.Barrel.{barrel, eval_shift-barrel}

-- `ASR #4` of a negative word.
asr_four : eval_shift asr true 0x80000018 4 false ≡ (0xF8000001, true)
unfolding eval_shift get_bit
asr_four = refl

eval_shift-barrel_example :
    eval_shift asr true 0x80000018 4 false ≡ barrel asr true 4 (0x80000018, false)
eval_shift-barrel_example = eval_shift-barrel asr true 0x80000018 4 false (omega arith)
