-- ===== src/I386/Bus.antt =====
-- x86_32/mod.rs: the `Bus` trait of the 386 as an interface over the state `S` behind it, with the
-- accesses that an implementation may override, and `LinearMemory`.
use remu.Prelude.{
  ℕ, ◌+◌, ◌*◌, ◌/◌, List, [], ◌∷◌, ◌==◌, leb, ltb, if◌then◌else◌, u8, u16, u32, bit_and, bit_or,
}

pub record Bus (S : Type 0) : Type 0 where
  pub read : ℕ → S → ℕ × S
  pub write : ℕ → ℕ → S → S
  pub read16 : ℕ → S → ℕ × S
  pub read32 : ℕ → S → ℕ × S
  pub write16 : ℕ → ℕ → S → S
  pub write32 : ℕ → ℕ → S → S
  pub io_read : ℕ → S → ℕ × S
  pub io_write : ℕ → ℕ → S → S

-- The trait's default methods, from the accesses they call.
module _ {S : Type 0} where
  abbrev pub default_read16 : (ℕ → S → ℕ × S) → ℕ → S → ℕ × S
  default_read16 read addr s =
      let (lo, s1) = read addr s in
      let (hi, s2) = read (u32 (addr + 1)) s1 in (bit_or lo (u16 (hi * 256)), s2)

  abbrev pub default_read32 : (ℕ → S → ℕ × S) → ℕ → S → ℕ × S
  default_read32 read16 addr s =
      let (lo, s1) = read16 addr s in
      let (hi, s2) = read16 (u32 (addr + 2)) s1 in (bit_or lo (u32 (hi * 65536)), s2)

  abbrev pub default_write16 : (ℕ → ℕ → S → S) → ℕ → ℕ → S → S
  default_write16 write addr value s =
      write (u32 (addr + 1)) (u8 (value / 256)) (write addr (u8 value) s)

  abbrev pub default_write32 : (ℕ → ℕ → S → S) → ℕ → ℕ → S → S
  default_write32 write16 addr value s =
      write16 (u32 (addr + 2)) (u16 (value / 65536)) (write16 addr (u16 value) s)

  abbrev pub open_read : ℕ → S → ℕ × S
  open_read port s = (0xFF, s)

  abbrev pub ignored_write : ℕ → ℕ → S → S
  ignored_write port value s = s

pub record LinearMemory : Type 0 where
  pub ram : ℕ → ℕ

abbrev pub linear_mask : ℕ
linear_mask = 0xFFFFFF

-- `LinearMemory::new`
abbrev pub new_memory : LinearMemory
new_memory = record { ram = λ _. 0 }

-- `self.ram[i] = value`
unfoldable pub put_byte : ℕ → ℕ → LinearMemory → LinearMemory
put_byte i value m = record { ram = λ a. if a == i then value else m.ram a }

-- The loop of `load` from index `i` on.
load_from : ℕ → ℕ → List ℕ → LinearMemory → LinearMemory
load_from i addr [] m = m
load_from i addr (byte ∷ bytes) m =
    load_from (i + 1) addr bytes (put_byte (bit_and (addr + i) linear_mask) byte m)

unfoldable pub load : ℕ → List ℕ → LinearMemory → LinearMemory
unfolding load_from
load addr bytes m = load_from 0 addr bytes m

-- `u16::from_le_bytes` and `u32::from_le_bytes`
abbrev pub word16 : ℕ → ℕ → ℕ
word16 b0 b1 = b0 + 256 * b1

abbrev pub word32 : ℕ → ℕ → ℕ → ℕ → ℕ
word32 b0 b1 b2 b3 = b0 + 256 * b1 + 65536 * b2 + 16777216 * b3

unfoldable pub linear_read : ℕ → LinearMemory → ℕ × LinearMemory
linear_read addr m = (m.ram (bit_and addr linear_mask), m)

unfoldable pub linear_write : ℕ → ℕ → LinearMemory → LinearMemory
linear_write addr value m = put_byte (bit_and addr linear_mask) value m

unfoldable pub linear_read16 : ℕ → LinearMemory → ℕ × LinearMemory
linear_read16 addr m =
    let a = bit_and addr linear_mask in
    if ltb a linear_mask
    then (word16 (m.ram a) (m.ram (a + 1)), m)
    else default_read16 linear_read addr m

unfoldable pub linear_read32 : ℕ → LinearMemory → ℕ × LinearMemory
linear_read32 addr m =
    let a = bit_and addr linear_mask in
    if leb (a + 3) linear_mask
    then (word32 (m.ram a) (m.ram (a + 1)) (m.ram (a + 2)) (m.ram (a + 3)), m)
    else default_read32 linear_read16 addr m

unfoldable pub linear_write16 : ℕ → ℕ → LinearMemory → LinearMemory
linear_write16 addr value m =
    let a = bit_and addr linear_mask in
    if ltb a linear_mask
    then put_byte (a + 1) (u8 (value / 256)) (put_byte a (u8 value) m)
    else default_write16 linear_write addr value m

-- `to_le_bytes`, and the copy of the bytes.
unfoldable pub put_word32 : ℕ → ℕ → LinearMemory → LinearMemory
put_word32 a value m = put_byte (a + 3) (u8 (value / 16777216)) (
    put_byte (a + 2) (u8 (value / 65536))
      (put_byte (a + 1) (u8 (value / 256)) (put_byte a (u8 value) m)))

unfoldable pub linear_write32 : ℕ → ℕ → LinearMemory → LinearMemory
linear_write32 addr value m =
    let a = bit_and addr linear_mask in
    if leb (a + 3) linear_mask
    then put_word32 a value m
    else default_write32 linear_write16 addr value m

instance abbrev pub linear_bus : Bus LinearMemory
linear_bus = record {
  read = linear_read;
  write = linear_write;
  read16 = linear_read16;
  read32 = linear_read32;
  write16 = linear_write16;
  write32 = linear_write32;
  io_read = open_read;
  io_write = ignored_write;
}
