-- ===== src/Bus/Flat.antt =====
-- memory/mod.rs: 64 KiB of RAM, `FlatMemory`, and the laws of a bus that is memory.
pub mod Laws
use remu.Prelude.{ℕ, ◌+◌, ◌/◌, List, [], ◌∷◌, ◌==◌, if◌then◌else◌, u8, u16}
use remu.Bus.{Bus}

pub record FlatMemory : Type 0 where
  pub ram : ℕ → ℕ

-- `FlatMemory::new`
abbrev pub new_memory : FlatMemory
new_memory = record { ram = λ _. 0 }

-- `self.ram[addr] = value`
unfoldable pub poke : ℕ → ℕ → FlatMemory → FlatMemory
poke addr value m = record { ram = λ a. if a == addr then value else m.ram a }

instance abbrev pub flat_bus : Bus FlatMemory
flat_bus = record { read = λ addr m. (m.ram addr, m); write = poke }

-- The loop of `load` from index `i` on.
load_from : ℕ → ℕ → List ℕ → FlatMemory → FlatMemory
load_from i addr [] m = m
load_from i addr (byte ∷ bytes) m = load_from (i + 1) addr bytes (poke (u16 (addr + u16 i)) byte m)

unfoldable pub load : ℕ → List ℕ → FlatMemory → FlatMemory
unfolding load_from poke
load addr bytes m = load_from 0 addr bytes m

unfoldable pub set_reset_vector : ℕ → FlatMemory → FlatMemory
unfolding poke
set_reset_vector addr m = poke 0xFFFD (u8 (addr / 256)) (poke 0xFFFC (u8 addr) m)
