-- ===== src/Mos6502.antt =====
-- The 6502 core of src/cpu.
pub mod Registers
pub mod Cpu
pub mod Alu
pub mod Addressing
pub mod Info
pub mod Opcodes
pub mod Execute
pub mod Stack
pub mod Step
pub mod Lines
pub mod Valid
mod Tests
