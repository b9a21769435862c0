-- ===== src/X86.antt =====
-- x86: the 8088, its registers, bus, arithmetic unit, instructions and step.
pub mod Registers
pub mod Bus
pub mod Cpu
pub mod Width
pub mod Alu
pub mod Bcd
pub mod Mul
pub mod Modrm
pub mod Memory
pub mod Execute
pub mod Step
pub mod Div
