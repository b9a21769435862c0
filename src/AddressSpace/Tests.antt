-- ===== src/AddressSpace/Tests.antt =====
-- The theorems about the address space at one with two mapped pages.
use remu.Prelude.{
  ◌+◌, ◌≤◌, ◌≡◌, refl, arith, true, false, ◌&&◌, some, none, ◌==◌, [], ◌∷◌, leb, Bool-cases, inl,
  inr, if◌then◌else◌,
}
use remu.AddressSpace.Copy.{write_bytes}
use remu.AddressSpace.Copy.Bytes.{put_bytes, write_bytes-put_bytes}
use remu.AddressSpace.{AddressSpace, new_space, new_chunk, read32, write32, mmap_base}
use remu.AddressSpace.Reads.{HoldsBytes, read_le, read32-read_le}
use remu.AddressSpace.Writes.{write_le, write32-write_le}
use remu.AddressSpace.Map.{is_mapped, set_brk, mmap}
use remu.AddressSpace.Mapped.{IsValidCursor, mmap_alloc}
use remu.AddressSpace.Cstr.{Terminated, read_cstr, read_cstr-Terminated}
use remu.AddressSpace.Break.{set_brk_area, set_brk-is_mapped}

-- The chunk at 0x10000 only.
abbrev space : AddressSpace
space = record (new_space) { chunks = λ i. if leb 1 i && leb i 1 then some new_chunk else none }

space-HoldsBytes : HoldsBytes space
space-HoldsBytes i off = elim (Bool-cases (leb 1 i && leb i 1)) [
  | inl e ↦ rw e (omega arith)
  | inr e ↦ rw e (omega arith)
]

read32-read_le_example : read32 0x1FFFE space ≡ read_le 4 0x1FFFE space
read32-read_le_example = read32-read_le 0x1FFFE space (omega arith) space-HoldsBytes

write32-write_le_example : write32 0x1FFFE 0x12345678 space ≡ write_le 4 0x1FFFE 0x12345678 space
write32-write_le_example = write32-write_le 0x1FFFE 0x12345678 space (omega arith)

space-IsValidCursor : IsValidCursor space
space-IsValidCursor = record { page = refl; low = omega arith; high = omega arith }

mmap_alloc_example :
    let (r, t) = mmap 0 100 false space in
    (r ≡ some mmap_base)
    × (is_mapped (mmap_base + 99) t ≡ true)
    × (mmap_base + 100 ≤ t.mmap_next)
    × IsValidCursor t
mmap_alloc_example =
    mmap_alloc 0 100 (mmap_base + 99) space space-IsValidCursor (omega arith) (omega arith)
      (omega arith) (omega arith)

set_brk_area_example :
    let (r, t) = set_brk 0x4000 space in
    (r ≡ t.brk) × (t.brk_base ≡ space.brk_base) × (space.brk_base ≤ t.brk) × (t.brk ≤ mmap_base)
set_brk_area_example = set_brk_area 0x4000 space (omega arith) (omega arith)

-- The string `A` at 0x10000.
abbrev lettered : AddressSpace
lettered = record (space) { chunks = λ i. some (λ off. if off == 0 then 65 else 0) }

read_cstr-Terminated_example : read_cstr 0x10000 lettered ≡ some (65 ∷ [])
read_cstr-Terminated_example =
    read_cstr-Terminated 0x10000 (65 ∷ []) lettered
      (Terminated.byte refl refl (Terminated.done refl)) (omega arith) (omega arith)

raised : (set_brk 0x4000 space).0 ≡ 0x4000
unfolding set_brk
raised = refl

set_brk-is_mapped_example : is_mapped 0x3FFF (set_brk 0x4000 space).1 ≡ true
set_brk-is_mapped_example =
    set_brk-is_mapped 0x4000 0x3FFF space (omega arith) (omega (arith, raised))

write_bytes-put_bytes_example :
    write_bytes 0x1FFFE (1 ∷ 2 ∷ 3 ∷ []) space ≡ put_bytes 0x1FFFE (1 ∷ 2 ∷ 3 ∷ []) space
write_bytes-put_bytes_example = write_bytes-put_bytes 0x1FFFE (1 ∷ 2 ∷ 3 ∷ []) space
