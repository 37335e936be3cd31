-- ===== src/Cpu/Modes.antt =====
-- `Cpu::chg_mode` of src/cpu/cpu.cc: each mode has registers of its own, which a change of mode
-- puts away in their bank, and takes the new mode's from theirs.
pub mod View
pub mod Status
use matar.Base.{ℕ, ◌==◌, if◌then◌else◌}
use matar.Cpu.State.{Cpu, GprBanked, SpsrBanked, Registers, set, copy}
use matar.Psr
use matar.Psr.{Mode, user, fiq, irq, supervisor, abort, undefined, system, reserved, mode_bits}

-- Registers 13 and 14 into places `i` and `i + 1` of a bank, and back.
abbrev pub put_pair : Cpu → Registers → ℕ → ℕ → Registers
put_pair c bank i j = set (set bank i (c.gpr 13)) j (c.gpr 14)

abbrev pub take_pair : Cpu → Registers → ℕ → ℕ → Registers
take_pair c bank i j = set (set c.gpr 13 (bank i)) 14 (bank j)

-- `switch (from)`
unfoldable pub save_bank : Mode → Cpu → Cpu
save_bank user c = record c {
  gpr_banked = record (c.gpr_banked) { usr = put_pair c c.gpr_banked.usr 5 6 };
  spsr_banked = record (c.spsr_banked) { usr = c.spsr };
}
save_bank system c = record c {
  gpr_banked = record (c.gpr_banked) { usr = put_pair c c.gpr_banked.usr 5 6 };
  spsr_banked = record (c.spsr_banked) { usr = c.spsr };
}
save_bank supervisor c = record c {
  gpr_banked = record (c.gpr_banked) { svc = put_pair c c.gpr_banked.svc 0 1 };
  spsr_banked = record (c.spsr_banked) { svc = c.spsr };
}
save_bank abort c = record c {
  gpr_banked = record (c.gpr_banked) { abt = put_pair c c.gpr_banked.abt 0 1 };
  spsr_banked = record (c.spsr_banked) { abt = c.spsr };
}
save_bank irq c = record c {
  gpr_banked = record (c.gpr_banked) { irq = put_pair c c.gpr_banked.irq 0 1 };
  spsr_banked = record (c.spsr_banked) { irq = c.spsr };
}
save_bank undefined c = record c {
  gpr_banked = record (c.gpr_banked) { und = put_pair c c.gpr_banked.und 0 1 };
  spsr_banked = record (c.spsr_banked) { und = c.spsr };
}
save_bank fiq c = record c {
  gpr = copy c.gpr_banked.usr 0 5 c.gpr 8;
  gpr_banked = record (c.gpr_banked) { fiq = copy c.gpr 8 7 c.gpr_banked.fiq 0 };
  spsr_banked = record (c.spsr_banked) { fiq = c.spsr };
}
save_bank (reserved n) c = c

-- `switch (to)`
unfoldable pub load_bank : Mode → Cpu → Cpu
load_bank user c = record c { gpr = take_pair c c.gpr_banked.usr 5 6; spsr = c.spsr_banked.usr }
load_bank system c = record c { gpr = take_pair c c.gpr_banked.usr 5 6; spsr = c.spsr_banked.usr }
load_bank supervisor c = record c {
  gpr = take_pair c c.gpr_banked.svc 0 1;
  spsr = c.spsr_banked.svc;
}
load_bank abort c = record c { gpr = take_pair c c.gpr_banked.abt 0 1; spsr = c.spsr_banked.abt }
load_bank irq c = record c { gpr = take_pair c c.gpr_banked.irq 0 1; spsr = c.spsr_banked.irq }
load_bank undefined c = record c {
  gpr = take_pair c c.gpr_banked.und 0 1;
  spsr = c.spsr_banked.und;
}
load_bank fiq c = record c {
  gpr = copy c.gpr_banked.fiq 0 7 c.gpr 8;
  gpr_banked = record (c.gpr_banked) { usr = copy c.gpr 8 5 c.gpr_banked.usr 0 };
  spsr = c.spsr_banked.fiq;
}
load_bank (reserved n) c = c

unfoldable pub chg_mode : Mode → Cpu → Cpu
chg_mode to c =
    let from = Psr.mode c.cpsr in
    if mode_bits from == mode_bits to
    then c
    else (let c' = load_bank to (save_bank from c) in record c' { cpsr = Psr.set_mode c'.cpsr to })
