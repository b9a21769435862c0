-- ===== src/AddressSpace/Map.antt =====
-- usermode/addr_space.rs: `align_up`, `map`, `unmap`, `is_mapped`, `set_brk` and `mmap`.
use remu.Prelude.{
  ℕ, zero, suc, ◌+◌, ◌-◌, ◌/◌, ◌^◌, min, Bool, true, false, not, ◌||◌, Option, none, some, ltb,
  ◌==◌, if◌then◌else◌, bit_and,
}
use remu.AddressSpace.{
  Chunk, AddressSpace, new_chunk, chunk_size, page_size, stack_top, stack_size, mmap_base, chunk_of,
}

abbrev pub Chunks : Type 0
Chunks = ℕ → Option Chunk

-- `checked_add` of two words of 32 bits
abbrev pub checked_add : ℕ → ℕ → Option ℕ
checked_add a b = if ltb (a + b) (2 ^ 32) then some (a + b) else none

-- `x & !(align - 1)` of 32 bits
abbrev pub align_down : ℕ → ℕ → ℕ
align_down align x = bit_and x (2 ^ 32 - 1 - (align - 1))

abbrev pub and_then : {A B : Type 0} → Option A → (A → B) → B → B
and_then none f other = other
and_then (some a) f other = f a

abbrev pub align_up : ℕ → ℕ → Option ℕ
align_up v align = and_then (checked_add v (align - 1)) (λ x. some (align_down align x)) none

abbrev pub or_new : Option Chunk → Option Chunk
or_new none = some new_chunk
or_new (some c) = some c

abbrev pub put : ℕ → Option Chunk → Chunks → Chunks
put index c t = λ i. if i == index then c else t i

-- The loop over `count` chunks from `first` on.
unfoldable pub map_chunks : ℕ → ℕ → Chunks → Chunks
map_chunks zero first t = t
map_chunks (suc count) first t = map_chunks count (first + 1) (put first (or_new (t first)) t)

-- The last chunk that `[addr, addr + len)` meets.
abbrev pub last_chunk : ℕ → ℕ → ℕ
last_chunk addr len = min (addr + len - 1) (2 ^ 32 - 1) / chunk_size

unfoldable pub map : ℕ → ℕ → AddressSpace → AddressSpace
map addr len s =
    if len == 0
    then s
    else let first = chunk_of addr in
      record s { chunks = map_chunks (last_chunk addr len + 1 - first) first s.chunks }

-- The loop over `first..last`.
unfoldable pub unmap_chunks : ℕ → ℕ → Chunks → Chunks
unmap_chunks zero first t = t
unmap_chunks (suc count) first t = unmap_chunks count (first + 1) (put first none t)

unfoldable pub unmap : ℕ → ℕ → AddressSpace → AddressSpace
unmap addr len s =
    let first = (addr + (chunk_size - 1)) / chunk_size in
    let last = min (addr + len) (2 ^ 32) / chunk_size in
    record s { chunks = unmap_chunks (last - first) first s.chunks }

abbrev pub is_some : Option Chunk → Bool
is_some none = false
is_some (some c) = true

abbrev pub is_mapped : ℕ → AddressSpace → Bool
is_mapped addr s = is_some (s.chunks (chunk_of addr))

unfoldable pub set_brk : ℕ → AddressSpace → ℕ × AddressSpace
set_brk new s =
    if ltb new s.brk_base || ltb mmap_base new
    then (s.brk, s)
    else let grown = if ltb s.brk new then map s.brk (new - s.brk) s else s in
      (new, record grown { brk = new })

-- `mmap` once its length is rounded up: a fixed address, else the next free one.
abbrev pub mmap_fixed : ℕ → ℕ → AddressSpace → Option ℕ × AddressSpace
mmap_fixed addr len s =
    if not (bit_and addr (page_size - 1) == 0) || not (ltb (addr + (len - 1)) (2 ^ 32))
    then (none, s)
    else (some addr, map addr len s)

abbrev pub mmap_bump : ℕ → AddressSpace → Option ℕ × AddressSpace
mmap_bump len s =
    let base = s.mmap_next in
    let end = base + len in
    if ltb (stack_top - stack_size) end
    then (none, s)
    else (some base, record (map base len s) { mmap_next = end })

unfoldable pub mmap : ℕ → ℕ → Bool → AddressSpace → Option ℕ × AddressSpace
mmap addr len fixed s =
    if len == 0
    then (none, s)
    else and_then (align_up len page_size)
        (λ len. if fixed then mmap_fixed addr len s else mmap_bump len s) (none, s)
