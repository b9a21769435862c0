-- ===== src/AddressSpace/Mapped.antt =====
-- What `map`, `unmap`, `set_brk` and `mmap` do to the table of chunks.
use remu.Prelude.{
  ℕ, zero, suc, ◌+◌, ◌-◌, ◌*◌, ◌/◌, ◌%◌, ◌^◌, ◌≤◌, ◌<◌, ◌≡◌, refl, arith, ap, ◌∙◌, Bool, true,
  false, ◌&&◌, Option, none, some, ltb, leb, ◌==◌, if◌then◌else◌, Bool-cases, inl, inr,
}
use remu.Prelude.Bits.{bit_and_mask, bit_and_shift}
use remu.AddressSpace.{Chunk, AddressSpace, stack_top, stack_size, mmap_base, page_size}
use remu.AddressSpace.Reads.{byte_of}
use remu.AddressSpace.Map.{
  Chunks, align_up, align_down, or_new, put, map_chunks, map, unmap_chunks, unmap, is_some,
  is_mapped, mmap,
}

abbrev in_range : ℕ → ℕ → ℕ → Bool
in_range first count i = leb first i && ltb i (first + count)

or_new_twice : (o : Option Chunk) → or_new (or_new o) ≡ or_new o
or_new_twice none = refl
or_new_twice (some c) = refl

map_chunks_lem :
    (count first : ℕ) (t : Chunks) (i : ℕ)
    → map_chunks count first t i ≡ (if in_range first count i then or_new (t i) else t i)
unfolding map_chunks
map_chunks_lem zero first t i = ground arith
map_chunks_lem (suc count) first t i =
    map_chunks_lem count (first + 1) (put first (or_new (t first)) t) i ∙ ground arith

unmap_chunks_lem :
    (count first : ℕ) (t : Chunks) (i : ℕ)
    → unmap_chunks count first t i ≡ (if in_range first count i then none else t i)
unfolding unmap_chunks
unmap_chunks_lem zero first t i = ground arith
unmap_chunks_lem (suc count) first t i =
    unmap_chunks_lem count (first + 1) (put first none t) i ∙ ground arith

-- `unmap` clears just the chunks that lie in `[addr, addr + len)` as a whole.
pub unmap_lem :
    (addr len i : ℕ) (s : AddressSpace)
    → i < 65536
    → (unmap addr len s).chunks i
      ≡ (if leb addr (i * 65536) && leb ((i + 1) * 65536) (addr + len) then none else s.chunks i)
unfolding unmap
unmap_lem addr len i s h = rw unmap_chunks_lem (ground arith)

-- `map` maps every chunk that `[addr, addr + len)` meets and no other.
map_lem :
    (addr len i : ℕ) (s : AddressSpace)
    → i < 65536
    → addr < 2 ^ 32
    → (map addr len s).chunks i ≡ (
        if ltb 0 len && (leb addr (i * 65536 + 65535) && ltb (i * 65536) (addr + len))
        then or_new (s.chunks i)
        else s.chunks i)
unfolding map
map_lem addr len i s h k = elim (Bool-cases (len == 0)) [
  | inl e ↦ rw e (ground arith)
  | inr e ↦ rw e (rw map_chunks_lem (ground arith))
]

or_new-is_some : (o : Option Chunk) → is_some (or_new o) ≡ true
or_new-is_some none = refl
or_new-is_some (some c) = refl

or_new-byte_of : (o : Option Chunk) (off : ℕ) → byte_of (or_new o) off ≡ byte_of o off
or_new-byte_of none off = refl
or_new-byte_of (some c) off = refl

-- Every address below 2 ^ 32 of the range that `map` is given is mapped afterwards.
pub map-is_mapped :
    (addr len a : ℕ) (s : AddressSpace)
    → addr ≤ a
    → a < addr + len
    → a < 2 ^ 32
    → is_mapped a (map addr len s) ≡ true
map-is_mapped addr len a s low high h =
    let met : (ltb 0 len
          && (leb addr (a / 65536 * 65536 + 65535) && ltb (a / 65536 * 65536) (addr + len)))
        ≡ true =
      ground arith in
    rw (map_lem addr len (a / 65536) s (omega arith) (omega arith))
      (rw met (or_new-is_some (s.chunks (a / 65536))))

-- `map` at an address below 2 ^ 32 changes no byte: a chunk that was mapped keeps its content, and a new one reads as zero.
pub map-byte_of :
    (addr len i off : ℕ) (s : AddressSpace)
    → i < 65536
    → addr < 2 ^ 32
    → byte_of ((map addr len s).chunks i) off ≡ byte_of (s.chunks i) off
map-byte_of addr len i off s h k =
    let met = ltb 0 len && (leb addr (i * 65536 + 65535) && ltb (i * 65536) (addr + len)) in
    rw (map_lem addr len i s h k)
      (elim (Bool-cases met) [ inl e ↦ rw e (or_new-byte_of (s.chunks i) off) | inr e ↦ rw e refl ])

align_down_page : (x : ℕ) → x < 2 ^ 32 → align_down 4096 x ≡ x / 4096 * 4096
align_down_page x h =
    omega (arith, bit_and_shift 12 0xFFFFF x, bit_and_mask 20 0xFFFFF (x / 4096) refl)

-- The round-up to pages, when it does not overflow.
align_up_page :
    (len : ℕ) → len + 4095 < 2 ^ 32 → align_up len page_size ≡ some ((len + 4095) / 4096 * 4096)
align_up_page len h =
    let e : ltb (len + 4095) (2 ^ 32) ≡ true = ground arith in
    rw e (ap some (align_down_page (len + 4095) h))

-- The next free address is a page and lies between the base of the area and the stack.
pub record IsValidCursor (s : AddressSpace) : Type 0 where
  pub page : s.mmap_next % 4096 ≡ 0
  pub low : mmap_base ≤ s.mmap_next
  pub high : s.mmap_next ≤ stack_top - stack_size

-- The state after an allocation that fits.
bumped :
    (addr len : ℕ) (s : AddressSpace)
    → 0 < len
    → s.mmap_next + (len + 4095) / 4096 * 4096 ≤ stack_top - stack_size
    → mmap addr len false s ≡ (
        let rounded = (len + 4095) / 4096 * 4096 in
        (
          some s.mmap_next,
          record (map s.mmap_next rounded s) { mmap_next = s.mmap_next + rounded },
        ))
unfolding mmap
bumped addr len s positive fits =
    let rounded = (len + 4095) / 4096 * 4096 in
    let nonzero : (len == 0) ≡ false = ground arith in
    let room : ltb (stack_top - stack_size) (s.mmap_next + rounded) ≡ false = ground arith in
    rw nonzero (rw (align_up_page len (omega arith)) (rw room refl))

-- From a valid next free address, an `mmap` at no fixed address succeeds whenever its length, which
-- is not zero and not yet rounded up, fits below the
-- stack: it returns the next free address, every byte that was asked for is mapped, the next free
-- address is then beyond them, so that later allocations do not overlap, and it is valid again.
pub mmap_alloc :
    (addr len a : ℕ) (s : AddressSpace)
    → IsValidCursor s
    → 0 < len
    → s.mmap_next + len ≤ stack_top - stack_size
    → s.mmap_next ≤ a
    → a < s.mmap_next + len
    → let (r, t) = mmap addr len false s in
      (r ≡ some s.mmap_next)
      × (is_mapped a t ≡ true)
      × (s.mmap_next + len ≤ t.mmap_next)
      × IsValidCursor t
mmap_alloc addr len a s v positive fits low high =
    let rounded = (len + 4095) / 4096 * 4096 in
    let page = v.page in
    let room : s.mmap_next + rounded ≤ stack_top - stack_size = omega arith in
    rw (bumped addr len s positive room) (
      refl,
      map-is_mapped s.mmap_next rounded a s low (omega arith) (omega arith),
      omega arith,
      record { page = omega arith; low = omega (arith, v.low); high = room },
    )
