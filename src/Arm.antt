-- ===== src/Arm.antt =====
-- The ARM instruction set: include/cpu/arm/instruction.hh and src/cpu/arm/.
pub mod Instruction
pub mod Decode
pub mod Exec
mod Tests
