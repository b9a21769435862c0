-- ===== src/I386/Memory.antt =====
-- A bus of the 386 whose double words are plain memory, as page tables need it: reads leave it
-- alone, and a double word written is the one read. Addresses may be mirrored: a double word lies in
-- a cell, and different addresses may share theirs.
use remu.Prelude.{
  ==_iff, u8, ◌+◌, ◌*◌, ◌/◌, ◌∙◌, refl, ap, arith, true, false, leb, Bool-cases, inl, inr, bit_and,
  ℕ, ◌%◌, ◌^◌, ◌<◌, ◌≡◌, ◌==◌, if◌then◌else◌, u32,
}
use remu.Prelude.Bits.{bit_and_mask}
use remu.I386.Bus.{
  Bus, LinearMemory, linear_bus, linear_mask, word32, linear_read32, linear_write32, put_word32,
  put_byte,
}

pub record IsMemory {S : Type 0} (b : Bus S) : Type 0 where
  pub cell : ℕ → ℕ
  pub words : S → ℕ → ℕ
  pub read32-words : (a : ℕ) (s : S) → a % 4 ≡ 0 → a < 2 ^ 32 → b.read32 a s ≡ (words s (cell a), s)
  pub words-write32 :
      (a v c : ℕ) (s : S)
      → a % 4 ≡ 0
      → a < 2 ^ 32
      → words (b.write32 a v s) c ≡ (if c == cell a then u32 v else words s c)

-- `LinearMemory`, mirrored every 16 MiB, by double words.
abbrev word_of : LinearMemory → ℕ → ℕ
word_of m c = word32 (m.ram (4 * c)) (m.ram (4 * c + 1)) (m.ram (4 * c + 2)) (m.ram (4 * c + 3))

masked : (a : ℕ) → bit_and a linear_mask ≡ a % 16777216
masked a = bit_and_mask 24 linear_mask a (omega arith)

abbrev cell_of : ℕ → ℕ
cell_of a = a % 16777216 / 4

read32_at :
    (a k : ℕ) (m : LinearMemory)
    → bit_and a linear_mask ≡ 4 * k
    → leb (4 * k + 3) linear_mask ≡ true
    → linear_read32 a m ≡ (word_of m k, m)
unfolding linear_read32
read32_at a k m h i = rw (h, i) refl

write32_at :
    (a k v : ℕ) (m : LinearMemory)
    → bit_and a linear_mask ≡ 4 * k
    → leb (4 * k + 3) linear_mask ≡ true
    → linear_write32 a v m ≡ put_word32 (4 * k) v m
unfolding linear_write32
write32_at a k v m h i = rw (h, i) refl

-- The bytes of a double word written at the cell `k`.
bytes_of-put_word32 :
    (k v : ℕ) (m : LinearMemory)
    → ((put_word32 (4 * k) v m).ram (4 * k) ≡ u8 v)
      × ((put_word32 (4 * k) v m).ram (4 * k + 1) ≡ u8 (v / 256))
      × ((put_word32 (4 * k) v m).ram (4 * k + 2) ≡ u8 (v / 65536))
      × ((put_word32 (4 * k) v m).ram (4 * k + 3) ≡ u8 (v / 16777216))
unfolding put_word32 put_byte
bytes_of-put_word32 k v m = (ground arith, ground arith, ground arith, ground arith)

put_word32_other :
    (k v x : ℕ) (m : LinearMemory) → (x / 4 == k) ≡ false → (put_word32 (4 * k) v m).ram x ≡ m.ram x
unfolding put_word32 put_byte
put_word32_other k v x m h = ground (arith, h)

word_of-put_word32 :
    (k v c : ℕ) (m : LinearMemory)
    → word_of (put_word32 (4 * k) v m) c ≡ (if c == k then u32 v else word_of m c)
word_of-put_word32 k v c m = elim (Bool-cases (c == k)) [
  | inl e ↦
      let same : c ≡ k = (==_iff c k).0 e in
      let bytes = bytes_of-put_word32 k v m in
      rw (e, same) (rw (bytes.0, bytes.1, bytes.2, bytes.3) (omega arith))
  | inr e ↦
      let other : (i : ℕ) → i < 4 → (put_word32 (4 * k) v m).ram (4 * c + i) ≡ m.ram (4 * c + i) =
        λ i h. put_word32_other k v (4 * c + i) m (ground (arith, e)) in
      rw e (
        ground (
          arith,
          other 0 (omega arith),
          other 1 (omega arith),
          other 2 (omega arith),
          other 3 (omega arith),
        ))
]

pub linear_memory : IsMemory linear_bus
linear_memory = record {
  cell = λ a. a % 16777216 / 4;
  words = word_of;
  read32-words = λ a m h k.
      let e : bit_and a linear_mask ≡ 4 * (a % 16777216 / 4) = omega (arith, masked a) in
      read32_at a (a % 16777216 / 4) m e (ground arith);
  words-write32 = λ a v c m h k.
      let e : bit_and a linear_mask ≡ 4 * (a % 16777216 / 4) = omega (arith, masked a) in
      ap (λ (n : LinearMemory). word_of n c) (write32_at a (a % 16777216 / 4) v m e (ground arith))
      ∙ word_of-put_word32 (a % 16777216 / 4) v c m;
}
