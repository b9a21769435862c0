-- ===== src/AddressSpace/Writes.antt =====
-- The wide writes against writes byte by byte, as in Reads.
use remu.Prelude.{
  ℕ, zero, suc, ◌+◌, ◌/◌, ◌%◌, ◌^◌, ◌≤◌, ◌<◌, ◌≡◌, refl, arith, ap, sym, ◌∙◌, Bool, true, false,
  Option, none, some, leb, ◌==◌, if◌then◌else◌, Bool-cases, inl, inr, u8, u16, u32, fun_ext,
}
use remu.AddressSpace.{
  Chunk, AddressSpace, note_segv, chunk_of, offset_of, set_chunk, set_byte, write_slice,
  write_chunk, write8, write16, write32,
}
use remu.AddressSpace.Reads.{offset_of-mod, note_again, fits}

-- `n` bytes of `v` from `addr` on, one by one, the lowest first.
unfoldable pub write_le : ℕ → ℕ → ℕ → AddressSpace → AddressSpace
write_le zero addr v s = s
write_le (suc n) addr v s = write_le n (u32 (addr + 1)) (v / 256) (write8 addr (u8 v) s)

write8_mapped :
    (addr v : ℕ) (s : AddressSpace) (c : Chunk)
    → s.chunks (chunk_of addr) ≡ some c
    → write8 addr v s ≡ set_chunk (chunk_of addr) (some (set_byte (addr % 65536) v c)) s
unfolding write8
write8_mapped addr v s c e = rw e (rw offset_of-mod refl)

write8_unmapped :
    (addr v : ℕ) (s : AddressSpace)
    → s.chunks (chunk_of addr) ≡ none
    → write8 addr v s ≡ note_segv addr true s
unfolding write8
write8_unmapped addr v s e = rw e refl

if_again :
    {A : Type 0} (b : Bool) (x y z : A)
    → (if b then x else (if b then y else z)) ≡ (if b then x else z)
if_again true x y z = refl
if_again false x y z = refl

pub set_chunk_again :
    (i : ℕ) (x y : Option Chunk) (s : AddressSpace)
    → set_chunk i x (set_chunk i y s) ≡ set_chunk i x s
set_chunk_again i x y s =
    let same : (λ j. if j == i then x else (if j == i then y else s.chunks j))
        ≡ (λ j. if j == i then x else s.chunks j) =
      fun_ext (λ j. if_again (j == i) x y (s.chunks j)) in
    λ k. record s { chunks = same k }

pub chunk_set : (i : ℕ) (x : Option Chunk) (s : AddressSpace) → (set_chunk i x s).chunks i ≡ x
chunk_set i x s = let e : (i == i) ≡ true = ground arith in rw e refl

write_inside :
    (n addr v : ℕ) (s : AddressSpace) (c : Chunk)
    → s.chunks (chunk_of addr) ≡ some c
    → addr % 65536 + suc n ≤ 65536
    → addr < 2 ^ 32
    → write_le (suc n) addr v s
      ≡ set_chunk (chunk_of addr) (some (write_slice (suc n) (addr % 65536) v c)) s
unfolding write_le
write_inside zero addr v s c e h k = write8_mapped addr (u8 v) s c e
write_inside (suc n) addr v s c e h k =
    let i = chunk_of addr in
    let c1 = set_byte (addr % 65536) (u8 v) c in
    let same : chunk_of (u32 (addr + 1)) ≡ i = omega arith in
    let next : u32 (addr + 1) % 65536 ≡ addr % 65536 + 1 = omega arith in
    let s1 = set_chunk i (some c1) s in
    let found = ap s1.chunks same ∙ chunk_set i (some c1) s in
    let rest = write_inside n (u32 (addr + 1)) (v / 256) s1 c1 found (omega arith) (omega arith) in
    let moved : set_chunk (chunk_of (u32 (addr + 1)))
          (some (write_slice (suc n) (u32 (addr + 1) % 65536) (v / 256) c1)) s1
        ≡ set_chunk i (some (write_slice (suc n) (addr % 65536 + 1) (v / 256) c1)) s1 =
      λ j. set_chunk (same j) (some (write_slice (suc n) (next j) (v / 256) c1)) s1 in
    ap (λ (t : AddressSpace). write_le (suc n) (u32 (addr + 1)) (v / 256) t)
      (write8_mapped addr (u8 v) s c e)
    ∙ rest
    ∙ moved
    ∙ set_chunk_again i _ (some c1) s

write_outside :
    (n addr v : ℕ) (s : AddressSpace)
    → s.chunks (chunk_of addr) ≡ none
    → addr % 65536 + suc n ≤ 65536
    → addr < 2 ^ 32
    → write_le (suc n) addr v s ≡ note_segv addr true s
unfolding write_le
write_outside zero addr v s e h k = write8_unmapped addr (u8 v) s e
write_outside (suc n) addr v s e h k =
    let same : chunk_of (u32 (addr + 1)) ≡ chunk_of addr = omega arith in
    let rest =
      write_outside n (u32 (addr + 1)) (v / 256) (note_segv addr true s) (ap s.chunks same ∙ e)
        (omega arith) (omega arith) in
    ap (λ (t : AddressSpace). write_le (suc n) (u32 (addr + 1)) (v / 256) t)
      (write8_unmapped addr (u8 v) s e)
    ∙ rest
    ∙ note_again (u32 (addr + 1)) addr true true s

write_fast :
    (n addr v : ℕ) (s : AddressSpace)
    → addr % 65536 + suc n ≤ 65536
    → addr < 2 ^ 32
    → (o : Option Chunk) → s.chunks (chunk_of addr) ≡ o
    → write_chunk addr (write_slice (suc n) (offset_of addr) v) o s ≡ write_le (suc n) addr v s
write_fast n addr v s h k none e = sym (write_outside n addr v s e h k)
write_fast n addr v s h k (some c) e = rw offset_of-mod (sym (write_inside n addr v s c e h k))

-- A 16-bit write below 2 ^ 32, on the fast path as on the slow one, writes the two bytes in
-- little-endian order and latches the same fault as writing them one by one.
pub write16-write_le :
    (addr v : ℕ) (s : AddressSpace) → addr < 2 ^ 32 → write16 addr v s ≡ write_le 2 addr v s
unfolding write16 write_le
write16-write_le addr v s k = elim (Bool-cases (leb (offset_of addr) 65534)) [
  | inl e ↦
      rw e (write_fast 1 addr v s (fits 2 addr e (omega arith)) k (s.chunks (chunk_of addr)) refl)
  | inr e ↦ rw e refl
]

slow32 :
    (addr v : ℕ) (s : AddressSpace)
    → addr < 2 ^ 32
    → write16 (u32 (addr + 2)) (u16 (v / 65536)) (write16 addr (u16 v) s) ≡ write_le 4 addr v s
unfolding write_le
slow32 addr v s k =
    let a1 = u32 (addr + 1) in
    let b0 : u8 (u16 v) ≡ u8 v = omega arith in
    let b1 : u8 (u16 v / 256) ≡ u8 (v / 256) = omega arith in
    let b2 : u8 (u16 (v / 65536)) ≡ u8 (v / 256 / 256) = omega arith in
    let b3 : u8 (u16 (v / 65536) / 256) ≡ u8 (v / 256 / 256 / 256) = omega arith in
    let a2 : u32 (addr + 2) ≡ u32 (a1 + 1) = omega arith in
    rw (write16-write_le addr (u16 v) s k) (
      rw
        (write16-write_le (u32 (addr + 2)) (u16 (v / 65536)) (write_le 2 addr (u16 v) s)
          (omega arith))
        (λ i.
          write8 (u32 (a2 i + 1)) (b3 i)
            (write8 (a2 i) (b2 i) (write8 a1 (b1 i) (write8 addr (b0 i) s)))))

-- A 32-bit write below 2 ^ 32, on the fast path as on the slow one, writes the four bytes in
-- little-endian order and latches the same fault as writing them one by one.
pub write32-write_le :
    (addr v : ℕ) (s : AddressSpace) → addr < 2 ^ 32 → write32 addr v s ≡ write_le 4 addr v s
unfolding write32
write32-write_le addr v s k = elim (Bool-cases (leb (offset_of addr) 65532)) [
  | inl e ↦
      rw e (write_fast 3 addr v s (fits 4 addr e (omega arith)) k (s.chunks (chunk_of addr)) refl)
  | inr e ↦ rw e (slow32 addr v s k)
]
