-- ===== src/Cpu.antt =====
-- src/cpu/cpu.cc and include/cpu/cpu.hh: the registers and their banks, the pipeline, interrupts.
pub mod State
pub mod Modes
pub mod Access
pub mod Pipeline
pub mod Sample
mod Tests
