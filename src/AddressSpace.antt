-- ===== src/AddressSpace.antt =====
-- usermode/addr_space.rs: the sparse 4 GiB address space of a guest, its state and the accessors of
-- the processor. A chunk of 64 KiB is a function on offsets, and the table one on chunk numbers.
pub mod Reads
pub mod Writes
pub mod Map
pub mod Mapped
pub mod Break
pub mod Cstr
pub mod Copy
mod Tests
use remu.Prelude.{
  ℕ, zero, suc, ◌+◌, ◌-◌, ◌*◌, ◌/◌, Bool, true, false, Option, none, some, leb, ◌==◌, if◌then◌else◌,
  u8, u16, u32, bit_and, bit_or,
}

-- `CHUNK_SIZE`, `CHUNK_COUNT` and `CHUNK_MASK`
abbrev pub chunk_size : ℕ
chunk_size = 65536

abbrev pub chunk_count : ℕ
chunk_count = 65536

abbrev pub chunk_mask : ℕ
chunk_mask = 65535

abbrev pub page_size : ℕ
page_size = 4096

abbrev pub stack_top : ℕ
stack_top = 0xC0000000

abbrev pub stack_size : ℕ
stack_size = 8 * 1024 * 1024

abbrev pub mmap_base : ℕ
mmap_base = 0x40000000

pub record Segv : Type 0 where
  pub addr : ℕ
  pub write : Bool

abbrev pub Chunk : Type 0
Chunk = ℕ → ℕ

pub record AddressSpace : Type 0 where
  pub chunks : ℕ → Option Chunk
  pub brk : ℕ
  pub brk_base : ℕ
  pub mmap_next : ℕ
  pub segv : Option Segv

abbrev pub new_chunk : Chunk
new_chunk = λ _. 0

-- `AddressSpace::new`
abbrev pub new_space : AddressSpace
new_space = record { chunks = λ _. none; brk = 0; brk_base = 0; mmap_next = mmap_base; segv = none }

-- The first access that faults is kept.
abbrev pub latch : Segv → Option Segv → Option Segv
latch fault none = some fault
latch fault (some first) = some first

abbrev pub note_segv : ℕ → Bool → AddressSpace → AddressSpace
note_segv addr write s = record s { segv = latch (record { addr = addr; write = write }) s.segv }

abbrev pub take_segv : AddressSpace → Option Segv × AddressSpace
take_segv s = (s.segv, record s { segv = none })

-- `addr >> CHUNK_SHIFT` and `addr & CHUNK_MASK`
abbrev pub chunk_of : ℕ → ℕ
chunk_of addr = addr / chunk_size

abbrev pub offset_of : ℕ → ℕ
offset_of addr = bit_and addr chunk_mask

abbrev pub set_chunk : ℕ → Option Chunk → AddressSpace → AddressSpace
set_chunk index c s = record s { chunks = λ i. if i == index then c else s.chunks i }

-- `c[off] = value`
abbrev pub set_byte : ℕ → ℕ → Chunk → Chunk
set_byte off value c = λ o. if o == off then value else c o

-- The bytes of `v`, the lowest first, at `off` and after it: `copy_from_slice` of `to_le_bytes`.
abbrev pub write_slice : ℕ → ℕ → ℕ → Chunk → Chunk
write_slice zero off v c = c
write_slice (suc n) off v c = write_slice n (off + 1) (v / 256) (set_byte off (u8 v) c)

-- `from_le_bytes` of the slice of `n` bytes at `off`.
abbrev pub read_slice : ℕ → ℕ → Chunk → ℕ
read_slice zero off c = 0
read_slice (suc n) off c = c off + 256 * read_slice n (off + 1) c

-- The two arms of an access: what the slice gives in a chunk that is mapped, else a fault.
abbrev pub read_chunk : ℕ → (Chunk → ℕ) → Option Chunk → AddressSpace → ℕ × AddressSpace
read_chunk addr slice none s = (0, note_segv addr false s)
read_chunk addr slice (some c) s = (slice c, s)

abbrev pub write_chunk : ℕ → (Chunk → Chunk) → Option Chunk → AddressSpace → AddressSpace
write_chunk addr slice none s = note_segv addr true s
write_chunk addr slice (some c) s = set_chunk (chunk_of addr) (some (slice c)) s

unfoldable pub read8 : ℕ → AddressSpace → ℕ × AddressSpace
read8 addr s = read_chunk addr (λ c. c (offset_of addr)) (s.chunks (chunk_of addr)) s

unfoldable pub write8 : ℕ → ℕ → AddressSpace → AddressSpace
write8 addr value s =
    write_chunk addr (set_byte (offset_of addr) value) (s.chunks (chunk_of addr)) s

unfoldable pub read16 : ℕ → AddressSpace → ℕ × AddressSpace
read16 addr s =
    let off = offset_of addr in
    if leb off (chunk_size - 2)
    then read_chunk addr (read_slice 2 off) (s.chunks (chunk_of addr)) s
    else let (lo, s1) = read8 addr s in
      let (hi, s2) = read8 (u32 (addr + 1)) s1 in (bit_or lo (hi * 256), s2)

unfoldable pub read32 : ℕ → AddressSpace → ℕ × AddressSpace
read32 addr s =
    let off = offset_of addr in
    if leb off (chunk_size - 4)
    then read_chunk addr (read_slice 4 off) (s.chunks (chunk_of addr)) s
    else let (lo, s1) = read16 addr s in
      let (hi, s2) = read16 (u32 (addr + 2)) s1 in (bit_or lo (hi * 65536), s2)

unfoldable pub write16 : ℕ → ℕ → AddressSpace → AddressSpace
write16 addr value s =
    let off = offset_of addr in
    if leb off (chunk_size - 2)
    then write_chunk addr (write_slice 2 off value) (s.chunks (chunk_of addr)) s
    else write8 (u32 (addr + 1)) (u8 (value / 256)) (write8 addr (u8 value) s)

unfoldable pub write32 : ℕ → ℕ → AddressSpace → AddressSpace
write32 addr value s =
    let off = offset_of addr in
    if leb off (chunk_size - 4)
    then write_chunk addr (write_slice 4 off value) (s.chunks (chunk_of addr)) s
    else write16 (u32 (addr + 2)) (u16 (value / 65536)) (write16 addr (u16 value) s)
