-- ===== src/Thumb.antt =====
-- src/cpu/thumb/ and include/cpu/thumb/: the Thumb instruction set.
pub mod Instruction
pub mod Decode
pub mod Exec
mod Tests
