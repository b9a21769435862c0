-- ===== src/Lib.antt =====
-- Remu, a library of processor emulators in Rust: the 6502 with its bus, memory and devices, the 8088,
-- the 386 with its paging and protection, the address space of user-mode guests, and the file layer of
-- the guest's operating system.
--
-- The emulated machine is a processor and a bus. The processor (src/cpu) keeps the registers, the
-- flags, a count of cycles and three input lines; `Cpu::step` services an interrupt or fetches,
-- decodes and executes one instruction. It reaches memory only through the trait `Bus` (src/bus.rs),
-- which the machine's owner implements; `FlatMemory` (src/memory/mod.rs) is 64 KiB of RAM, and
-- `SystemBus` (src/device/mod.rs) lays windows of devices over it, such as a UART. Apart from these,
-- `AddressSpace` (src/usermode/addr_space.rs) is the sparse memory of a Linux guest, and `Vfs`
-- (src/os/fs/mod.rs) the file system and descriptor table that its system calls use. The 8088 (src/x86)
-- has a bus trait and a register file of its own, and so has the 386 (src/x86_32). An access of the
-- 386 goes through a segment to a linear address, through the tables in memory and their cache to a
-- physical address, and then to the bus; any of these steps may raise an exception, which the access
-- hands on.
--
--   Bus                   src/bus.rs: the trait, the default `read_u16`, the laws of a bus of bytes
--   Bus/Memory            the laws of a bus that is plain memory
--   Bus/Flat              src/memory/mod.rs: `FlatMemory`; Bus/Flat/Laws shows both sets of laws
--   Mos6502/Registers     src/cpu/registers.rs: `Status`, `set_zn`, `Registers`
--   Mos6502/Cpu           src/cpu/mod.rs, src/interrupt.rs: `Cpu`, its bus accesses, the stack,
--                         `service_interrupt`, `reset` and the input lines
--   Mos6502/Addressing    src/cpu/addressing.rs: the modes and `resolve`
--   Mos6502/Info, Opcodes src/cpu/opcodes.rs: `Operation`, `OpInfo` and the decode table
--   Mos6502/Alu           src/cpu/execute.rs: `adc`, `sbc`, `compare`, `bit` and the shifts
--   Mos6502/Execute       src/cpu/execute.rs: `execute` and the helpers that use the bus
--   Mos6502/Step          src/cpu/dispatch.rs: `exec`, `dispatch`; src/cpu/mod.rs: `step`
--   Mos6502/Valid         the invariant of the processor, and that each method keeps it
--   Mos6502/Stack, Lines  what pushes, returns and the interrupt lines do
--   Device                src/device/mod.rs: `Device`, `SystemBus`; Device/Windows: which accesses a
--                         device gets
--   Device/Uart           src/device/uart.rs: `Uart16550`; Device/Console: what it receives; Device/Traffic:
--                         what it sends, as an automaton of one bit
--   AddressSpace          src/usermode/addr_space.rs: the chunks, the fault latch, the accessors of 8,
--                         16 and 32 bits; AddressSpace/Reads and Writes compare the wide accesses
--                         with bytes, AddressSpace/Cstr has `read_cstr`
--   AddressSpace/Copy     src/usermode/addr_space.rs: `write_bytes`, `read_bytes`, `read_u32`,
--                         `write_u32`; Copy/Bytes compares the first with bytes
--   AddressSpace/Map      src/usermode/addr_space.rs: `map`, `unmap`, `set_brk`, `mmap`, with what they
--                         do in AddressSpace/Mapped and AddressSpace/Break
--   Os/Path               src/os/fs/mod.rs: `Vfs::normalize`; Path/Names: what a normalized path is
--   Os/Files              src/os/fs/mod.rs: `Fd`, `Virt` and the descriptor table of `Vfs`, with its
--                         `read`, `write` and `lseek` in Files/Access; Files/Table and Files/Virtual
--                         have their theorems
--   X86/Registers         src/x86/registers.rs: `Flags`, `reg`, `Registers` and their accessors
--   X86/Bus, Cpu          src/x86/mod.rs: `Bus`, `LinearMemory`, `Cpu`, its memory accesses, the stack
--                         and `interrupt`
--   X86/Memory            what these do over plain memory; Memory/Return: interrupts and `IRET`
--   X86/Modrm             src/x86/modrm.rs: `ModRm`, `Operand`, `modrm` and the operand accesses
--   X86/Execute           src/x86/execute.rs: the helpers of `dispatch`, with the arms in Execute/Arith,
--                         Moves, Strings, Control and Groups, and `dispatch` in Execute/Dispatch
--   X86/Step              src/x86/mod.rs: `step`; Step/Prefixes is about its loops
--   X86/Width, Alu        src/x86/alu.rs: the macro `alu_width`, with the width as an argument, and the
--                         flags `set_szp8` and `set_szp16`; Alu/Sums, Carries and Rotates compare it
--                         with exact arithmetic
--   X86/Mul, Bcd          src/x86/alu.rs: the products and the decimal adjustments; Bcd/Sums has the
--                         decimal arithmetic
--   X86/Div               src/x86/div.rs: the microcode of division; Div/Rounds and Quotient relate
--                         `cord` to the quotient, Div/Unsigned and Div/Signed have `DIV`,
--                         `AAM` and `IDIV`
--   I386/Bus, Cpu         src/x86_32/mod.rs: `Bus`, `LinearMemory`, `Exception`, `Cpu`, with `TlbEntry`
--                         and `Tlb` of paging.rs and the stamps of icache.rs
--   I386/Registers        src/x86_32/registers.rs: `SegReg`, `Registers`, with `EFlags`, `Cr0`
--                         and `Pte` in modules of these names
--   I386/Memory           the laws of a bus that is plain memory, by double words
--   I386/Paging           src/x86_32/paging.rs: `translate` and its walk; Paging/Walk, Marks, Coherent
--                         and Refine compare it with a walk without the cache
--   I386/Linear           src/x86_32/paging.rs: the accesses at linear addresses; Linear/Faults,
--                         System and Kept: what they do on a fault, for the system, and to the registers
--   I386/Segments         src/x86_32/mod.rs: the accesses through a segment and the stack
--   I386/Protected        src/x86_32/protected.rs: `Descriptor` and the loads of segment registers
--   I386/Far              src/x86_32/protected.rs: `jump_far` and the checks of gates; Far/Privilege: the
--                         privilege level across a jump
--   I386/Calls, Returns   src/x86_32/protected.rs: `call_far`, `retf` and what they call
--   I386/Iret             src/x86_32/protected.rs: `iret`, with `popf_mask` of execute.rs; Iret/Flags: which
--                         flags a program may load
--   I386/Interrupts       src/x86_32/protected.rs and mod.rs: `raise`, `software_int`, `io_check`
--   I386/Width, Alu, Mul, Div, Bcd
--                         src/x86_32/alu.rs, the macro `alu_width` with the width as an argument;
--                         Alu/Carries, Div/Signed and Bcd/Sums compare it with exact arithmetic
--
-- A method of the processor is a function on the machine, the processor with the state of its bus,
-- that returns a result and the machine after it; `do` blocks keep the order of the source. A `u8`,
-- `u16` or `u64` is a natural number whose wrap is written out. `Status` of the crate bitflags is
-- eight Booleans, with `bits` and `from_bits` as its byte. The cycle count wraps at 2 ^ 64, as in a
-- release build. The 256 arms of `dispatch` are one function of the opcode, since each arm is `exec`
-- at its own. The devices of one `SystemBus`, boxed trait objects in the source, are the states of one
-- type with the two methods. The sink of the UART, an `io::Write`, is a parameter with `write_all` and
-- `flush`, whose results the code drops. The table of chunks is a function on chunk numbers and a chunk
-- one on offsets; `from_le_bytes` and `to_le_bytes` are written out.
--
-- An instruction of the 6502 has no loop, and the other loops outside the 8088 go over a list or a
-- count, for `read_cstr` the room left below its limit of 4096 bytes. The copies of the host have as
-- much fuel as there are bytes, since each round copies one at least.
--
-- A method of the 8088 that changes only the flags is a function of its operands and the flags; the
-- others are commands like those of the 6502. Its cycle counts of one step are not wrapped. Two of its
-- loops have fuel and give none without it: the repetition of a string instruction has as much as CX
-- counts, which no primitive changes, and the loop over prefixes has 65536, a round for every byte of
-- the code segment, since a segment of prefixes holds the source in its loop for ever. A result none of
-- `dispatch` also stands for the panic on a prefix byte.
--
-- In the file layer a text is a list of characters, the host's files and streams are a parameter with
-- the calls that the code makes, and a descriptor is its index; a read that panics gives none. An
-- offset of `lseek` is forward or backward, and its sum wraps at 2 ^ 63 as in a release build.
--
-- A method of the 386 that may raise an exception is a command that gives a result or the exception,
-- with the machine as it is then (Prelude/Outcome). The register arrays and the cache of translations
-- are functions of an index. Of the instruction cache only the stamps of the pages are there, which the
-- stores advance; its entries are a copy of decoded code. The loops have fixed counts, or the count of
-- a gate's parameters, which is at most 31. A signed division takes sign and magnitude from the words.
--
-- Not modelled: the rest of the 386 (system instructions, decoding, dispatch, the string
-- instructions), the other processors (x86_64, arm32), the
-- JIT, the rest of user mode, the rest of the OS layers (`open` and the host paths, the loader, memory,
-- processes and system calls), the disassembler, the Python bindings and the command-line programs.
-- They are components of their own.
mod Prelude
pub mod Bus
pub mod Mos6502
pub mod Device
pub mod AddressSpace
pub mod X86
pub mod Os
pub mod I386
