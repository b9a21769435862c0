-- ===== src/I386.antt =====
-- x86_32/: the 80386. Its bus and registers, arithmetic, paging, segments, the transfers of control
-- in protected mode, and interrupts.
pub mod Bus
pub mod EFlags
pub mod Cr0
pub mod Pte
pub mod Registers
pub mod Cpu
pub mod Width
pub mod Alu
pub mod Mul
pub mod Div
pub mod Bcd
pub mod Memory
pub mod Paging
pub mod Linear
pub mod Segments
pub mod Protected
pub mod Far
pub mod Calls
pub mod Returns
pub mod Iret
pub mod Interrupts
mod Tests
