-- ===== src/AddressSpace/Reads.antt =====
-- The wide reads against reads byte by byte: the path within a chunk and the one across the end of
-- a chunk agree, with the same fault latched.
use remu.Prelude.{
  ℕ, zero, suc, ◌+◌, ◌-◌, ◌*◌, ◌%◌, ◌^◌, ◌≤◌, ◌<◌, ◌≡◌, refl, arith, ap, sym, ◌∙◌, Bool, true,
  false, Option, none, some, leb, u32, bit_or, Bool-cases, inl, inr,
}
use native.Mathlib.Nat.{pow-suc, mul_comm}
use remu.Prelude.Bits.{bit_and_mask, bit_or_sum, bit_or_comm}
use remu.AddressSpace.{
  Segv, Chunk, AddressSpace, latch, note_segv, chunk_of, offset_of, read_slice, read_chunk, read8,
  read16, read32,
}

-- `n` bytes from `addr` on, one by one, the lowest first.
unfoldable pub read_le : ℕ → ℕ → AddressSpace → ℕ × AddressSpace
read_le zero addr s = (0, s)
read_le (suc n) addr s =
    let (lo, s1) = read8 addr s in
    let (hi, s2) = read_le n (u32 (addr + 1)) s1 in (lo + 256 * hi, s2)

pub offset_of-mod : (addr : ℕ) → offset_of addr ≡ addr % 65536
offset_of-mod addr = bit_and_mask 16 65535 addr refl

latch_again : (f g : Segv) (r : Option Segv) → latch f (latch g r) ≡ latch g r
latch_again f g none = refl
latch_again f g (some r) = refl

pub note_again :
    (addr a : ℕ) (v w : Bool) (s : AddressSpace)
    → note_segv addr w (note_segv a v s) ≡ note_segv a v s
note_again addr a v w s =
    let e =
      latch_again (record { addr = addr; write = w }) (record { addr = a; write = v }) s.segv in
    λ i. record s { segv = e i }

read8_mapped :
    (addr : ℕ) (s : AddressSpace) (c : Chunk)
    → s.chunks (chunk_of addr) ≡ some c
    → read8 addr s ≡ (c (addr % 65536), s)
unfolding read8
read8_mapped addr s c e = rw e (rw offset_of-mod refl)

read8_unmapped :
    (addr : ℕ) (s : AddressSpace)
    → s.chunks (chunk_of addr) ≡ none
    → read8 addr s ≡ (0, note_segv addr false s)
unfolding read8
read8_unmapped addr s e = rw e refl

pub read_one : (addr : ℕ) (s : AddressSpace) → read_le 1 addr s ≡ read8 addr s
unfolding read_le
read_one addr s = λ i. (plus_none i, (read8 addr s).1)
  where
    plus_none : (read8 addr s).0 + 256 * 0 ≡ (read8 addr s).0
    plus_none = omega arith

read_step :
    (n addr : ℕ) (s : AddressSpace) {b hi : ℕ} {s1 s2 : AddressSpace}
    → read8 addr s ≡ (b, s1)
    → read_le n (u32 (addr + 1)) s1 ≡ (hi, s2)
    → read_le (suc n) addr s ≡ (b + 256 * hi, s2)
unfolding read_le
read_step n addr s e rest = rw e (rw rest refl)

-- Reads within a chunk that is mapped.
read_inside :
    (n addr : ℕ) (s : AddressSpace) (c : Chunk)
    → s.chunks (chunk_of addr) ≡ some c
    → addr % 65536 + n ≤ 65536
    → addr < 2 ^ 32
    → read_le n addr s ≡ (read_slice n (addr % 65536) c, s)
unfolding read_le
read_inside zero addr s c e h k = refl
read_inside (suc zero) addr s c e h k = read_step 0 addr s (read8_mapped addr s c e) refl
read_inside (suc (suc n)) addr s c e h k =
    let same : chunk_of (u32 (addr + 1)) ≡ chunk_of addr = omega arith in
    let next : u32 (addr + 1) % 65536 ≡ addr % 65536 + 1 = omega arith in
    let rest =
      read_inside (suc n) (u32 (addr + 1)) s c (ap s.chunks same ∙ e) (omega arith) (omega arith) in
    read_step (suc n) addr s (read8_mapped addr s c e)
      (rest ∙ ap (λ (o : ℕ). (read_slice (suc n) o c, s)) next)

-- Reads within a chunk that is not mapped fault at the first byte.
read_outside :
    (n addr : ℕ) (s : AddressSpace)
    → s.chunks (chunk_of addr) ≡ none
    → addr % 65536 + suc n ≤ 65536
    → addr < 2 ^ 32
    → read_le (suc n) addr s ≡ (0, note_segv addr false s)
unfolding read_le
read_outside zero addr s e h k = read_step 0 addr s (read8_unmapped addr s e) refl
read_outside (suc n) addr s e h k =
    let same : chunk_of (u32 (addr + 1)) ≡ chunk_of addr = omega arith in
    let rest =
      read_outside n (u32 (addr + 1)) (note_segv addr false s) (ap s.chunks same ∙ e) (omega arith)
        (omega arith) in
    read_step (suc n) addr s (read8_unmapped addr s e)
      (rest ∙ λ i. (0, note_again (u32 (addr + 1)) addr false false s i))

-- The fast path.
read_fast :
    (n addr : ℕ) (s : AddressSpace)
    → addr % 65536 + suc n ≤ 65536
    → addr < 2 ^ 32
    → (o : Option Chunk) → s.chunks (chunk_of addr) ≡ o
    → read_chunk addr (read_slice (suc n) (offset_of addr)) o s ≡ read_le (suc n) addr s
read_fast n addr s h k none e = sym (read_outside n addr s e h k)
read_fast n addr s h k (some c) e = rw offset_of-mod (sym (read_inside (suc n) addr s c e h k))

abbrev pub byte_of : Option Chunk → ℕ → ℕ
byte_of none off = 0
byte_of (some c) off = c off

-- Every byte that is mapped is a byte.
abbrev pub HoldsBytes : AddressSpace → Type 0
HoldsBytes s = (i off : ℕ) → byte_of (s.chunks i) off < 256

read_chunk-lt :
    (addr : ℕ) (s : AddressSpace) (o : Option Chunk)
    → ((off : ℕ) → byte_of o off < 256)
    → (read_chunk addr (λ c. c (offset_of addr)) o s).0 < 256
read_chunk-lt addr s none h = omega arith
read_chunk-lt addr s (some c) h = h (offset_of addr)

read_chunk-chunks :
    (addr : ℕ) (f : Chunk → ℕ) (s : AddressSpace) (o : Option Chunk)
    → (read_chunk addr f o s).1.chunks ≡ s.chunks
read_chunk-chunks addr f s none = refl
read_chunk-chunks addr f s (some c) = refl

pub read8-lt : (addr : ℕ) (s : AddressSpace) → HoldsBytes s → (read8 addr s).0 < 256
unfolding read8
read8-lt addr s h = read_chunk-lt addr s (s.chunks (chunk_of addr)) (h (chunk_of addr))

read8-chunks : (addr : ℕ) (s : AddressSpace) → (read8 addr s).1.chunks ≡ s.chunks
unfolding read8
read8-chunks addr s = read_chunk-chunks addr _ s (s.chunks (chunk_of addr))

read8-HoldsBytes : (addr : ℕ) (s : AddressSpace) → HoldsBytes s → HoldsBytes (read8 addr s).1
read8-HoldsBytes addr s h i off = rw (read8-chunks addr s) (h i off)

read_le-lt : (n addr : ℕ) (s : AddressSpace) → HoldsBytes s → (read_le n addr s).0 < 256 ^ n
unfolding read_le
read_le-lt zero addr s h = omega arith
read_le-lt (suc n) addr s h =
    let rest = read_le-lt n (u32 (addr + 1)) (read8 addr s).1 (read8-HoldsBytes addr s h) in
    omega (arith, rest, read8-lt addr s h, pow-suc 256 n)

read_le-HoldsBytes :
    (n addr : ℕ) (s : AddressSpace) → HoldsBytes s → HoldsBytes (read_le n addr s).1
unfolding read_le
read_le-HoldsBytes zero addr s h = h
read_le-HoldsBytes (suc n) addr s h =
    read_le-HoldsBytes n (u32 (addr + 1)) (read8 addr s).1 (read8-HoldsBytes addr s h)

-- `lo | (hi << k)` for a low part of `k` bits.
join_lem : (k lo hi : ℕ) → lo < 2 ^ k → bit_or lo (hi * 2 ^ k) ≡ lo + 2 ^ k * hi
join_lem k lo hi h = bit_or_comm lo (hi * 2 ^ k) ∙ bit_or_sum k hi lo h ∙ flip
  where
    flip : hi * 2 ^ k + lo ≡ lo + 2 ^ k * hi
    flip = omega (arith, mul_comm hi (2 ^ k))

pub fits :
    (size addr : ℕ)
    → leb (offset_of addr) (65536 - size) ≡ true
    → size ≤ 65536
    → addr % 65536 + size ≤ 65536
fits size addr h le =
    let e = offset_of-mod addr in
    let bound : offset_of addr ≤ 65536 - size = ground arith in omega arith

slow16 :
    (addr : ℕ) (s : AddressSpace)
    → HoldsBytes s
    → (let (lo, s1) = read8 addr s in
        let (hi, s2) = read8 (u32 (addr + 1)) s1 in (bit_or lo (hi * 256), s2))
      ≡ read_le 2 addr s
slow16 addr s h =
    let first = read8 addr s in
    let second = read8 (u32 (addr + 1)) first.1 in
    let join = join_lem 8 first.0 second.0 (read8-lt addr s h) in
    (λ i. (join i, second.1)) ∙ sym (read_step 1 addr s refl (read_one (u32 (addr + 1)) first.1))

-- In a space whose chunks hold bytes, a 16-bit read below 2 ^ 32, on the fast path as on the slow one, gives the two bytes in little-endian order
-- and latches the same fault as reading them one by one.
pub read16-read_le :
    (addr : ℕ) (s : AddressSpace) → addr < 2 ^ 32 → HoldsBytes s → read16 addr s ≡ read_le 2 addr s
unfolding read16
read16-read_le addr s k h = elim (Bool-cases (leb (offset_of addr) 65534)) [
  | inl e ↦
      rw e (read_fast 1 addr s (fits 2 addr e (omega arith)) k (s.chunks (chunk_of addr)) refl)
  | inr e ↦ rw e (slow16 addr s h)
]

two_words :
    (a b c d : ℕ)
    → a + 256 * (b + 256 * (c + 256 * (d + 256 * 0)))
      ≡ a + 256 * (b + 256 * 0) + 65536 * (c + 256 * (d + 256 * 0))
two_words a b c d = omega arith

-- Four bytes are two words.
read_two :
    (addr : ℕ) (s : AddressSpace)
    → let (lo, s1) = read_le 2 addr s in
      let (hi, s2) = read_le 2 (u32 (addr + 2)) s1 in read_le 4 addr s ≡ (lo + 65536 * hi, s2)
unfolding read_le
read_two addr s =
    let a1 = u32 (addr + 1) in
    let e2 : u32 (a1 + 1) ≡ u32 (addr + 2) = omega arith in
    let e3 : u32 (u32 (a1 + 1) + 1) ≡ u32 (u32 (addr + 2) + 1) = omega arith in
    let r1 = read8 addr s in
    let r2 = read8 a1 r1.1 in
    let r3 = read8 (u32 (addr + 2)) r2.1 in
    let r4 = read8 (u32 (u32 (addr + 2) + 1)) r3.1 in
    let sum = two_words r1.0 r2.0 r3.0 r4.0 in rw (e3, e2) λ i. (sum i, r4.1)

slow32 :
    (addr : ℕ) (s : AddressSpace)
    → HoldsBytes s
    → addr < 2 ^ 32
    → (let (lo, s1) = read16 addr s in
        let (hi, s2) = read16 (u32 (addr + 2)) s1 in (bit_or lo (hi * 65536), s2))
      ≡ read_le 4 addr s
slow32 addr s h k =
    let first = read_le 2 addr s in
    let h1 : HoldsBytes first.1 = read_le-HoldsBytes 2 addr s h in
    let second = read_le 2 (u32 (addr + 2)) first.1 in
    let join = join_lem 16 first.0 second.0 (read_le-lt 2 addr s h) in
    rw (read16-read_le addr s k h) (
      rw (read16-read_le (u32 (addr + 2)) first.1 (omega arith) h1)
        ((λ i. (join i, second.1)) ∙ sym (read_two addr s)))

-- In a space whose chunks hold bytes, a 32-bit read below 2 ^ 32, on the fast path as on the slow one, gives the four bytes in little-endian order
-- and latches the same fault as reading them one by one.
pub read32-read_le :
    (addr : ℕ) (s : AddressSpace) → addr < 2 ^ 32 → HoldsBytes s → read32 addr s ≡ read_le 4 addr s
unfolding read32
read32-read_le addr s k h = elim (Bool-cases (leb (offset_of addr) 65532)) [
  | inl e ↦
      rw e (read_fast 3 addr s (fits 4 addr e (omega arith)) k (s.chunks (chunk_of addr)) refl)
  | inr e ↦ rw e (slow32 addr s h k)
]
