-- ===== src/X86/Bus.antt =====
-- x86/mod.rs: the `Bus` trait of the 8086 as an interface over the state `S` behind it, and
-- `LinearMemory`.
use remu.Prelude.{ℕ, ◌+◌, ◌<◌, ◌≡◌, refl, arith, List, [], ◌∷◌, ◌==◌, if◌then◌else◌, bit_and}
use remu.Prelude.Bits.{bit_and_mask}

pub record Bus (S : Type 0) : Type 0 where
  pub read : ℕ → S → ℕ × S
  pub write : ℕ → ℕ → S → S
  pub io_read : ℕ → S → ℕ × S
  pub io_write : ℕ → ℕ → S → S

-- The trait's default methods.
abbrev pub open_read : {S : Type 0} → ℕ → S → ℕ × S
open_read port s = (0xFF, s)

abbrev pub ignored_write : {S : Type 0} → ℕ → ℕ → S → S
ignored_write port value s = s

pub record LinearMemory : Type 0 where
  pub ram : ℕ → ℕ

-- `LinearMemory::new`
abbrev pub new_memory : LinearMemory
new_memory = record { ram = λ _. 0 }

unfoldable pub poke : ℕ → ℕ → LinearMemory → LinearMemory
poke addr value m =
    let i = bit_and addr 0xFFFFF in record { ram = λ a. if a == i then value else m.ram a }

instance abbrev pub linear_bus : Bus LinearMemory
linear_bus = record {
  read = λ addr m. (m.ram (bit_and addr 0xFFFFF), m);
  write = poke;
  io_read = open_read;
  io_write = ignored_write;
}

-- The loop of `load` from index `i` on.
unfoldable load_from : ℕ → ℕ → List ℕ → LinearMemory → LinearMemory
load_from i addr [] m = m
load_from i addr (byte ∷ bytes) m = load_from (i + 1) addr bytes (poke (addr + i) byte m)

unfoldable pub load : ℕ → List ℕ → LinearMemory → LinearMemory
unfolding load_from
load addr bytes m = load_from 0 addr bytes m

-- A bus whose memory is plain: at the addresses of 20 bits, reads leave it alone and a byte written is
-- the byte read.
pub record IsMemory {S : Type 0} (b : Bus S) : Type 0 where
  pub peek : S → ℕ → ℕ
  pub read-peek : (a : ℕ) (s : S) → a < 0x100000 → b.read a s ≡ (peek s a, s)
  pub peek-write :
      (a v c : ℕ) (s : S) → a < 0x100000 → peek (b.write a v s) c ≡ (if c == a then v else peek s c)

masked : (a : ℕ) → a < 0x100000 → bit_and a 0xFFFFF ≡ a
masked a h = omega (arith, bit_and_mask 20 0xFFFFF a (omega arith))

linear_write :
    (a v c : ℕ) (m : LinearMemory)
    → a < 0x100000
    → (poke a v m).ram c ≡ (if c == a then v else m.ram c)
unfolding poke
linear_write a v c m h = rw (masked a h) refl

pub linear_memory : IsMemory linear_bus
linear_memory = record {
  peek = λ m a. m.ram a;
  read-peek = λ a m h. rw (masked a h) refl;
  peek-write = linear_write;
}

pub linear_peek : (m : LinearMemory) (a : ℕ) → linear_memory.peek m a ≡ m.ram a
unfolding linear_memory
linear_peek m a = refl
