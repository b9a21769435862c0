-- ===== src/Bus.antt =====
-- bus.rs: the `Bus` trait as an interface over the state `S` of whatever sits on the other end of
-- the lines. Accesses may change that state, as `&mut self` says, and have no way to fail.
pub mod Flat
pub mod Memory
use remu.Prelude.{ℕ, ◌+◌, ◌<◌, u16, word}

pub record Bus (S : Type 0) : Type 0 where
  pub read : ℕ → S → ℕ × S
  pub write : ℕ → ℕ → S → S

-- The trait's default method.
unfoldable pub read_u16 : {S : Type 0} ⦃b : Bus S⦄ → ℕ → S → ℕ × S
read_u16 ⦃b⦄ addr s =
    let (lo, s1) = b.read addr s in let (hi, s2) = b.read (u16 (addr + 1)) s1 in (word lo hi, s2)

-- What the types `u16` and `u8` say of an implementation: in a state that `Holds`, a read yields a
-- byte, and accesses at addresses below 2 ^ 16 lead to such states again.
pub record ByteBus {S : Type 0} (b : Bus S) : Type 1 where
  pub Holds : S → Type 0
  pub read_byte : (a : ℕ) (s : S) → a < 65536 → Holds s → (b.read a s).0 < 256
  pub read_holds : (a : ℕ) (s : S) → a < 65536 → Holds s → Holds (b.read a s).1
  pub write_holds : (a v : ℕ) (s : S) → a < 65536 → v < 256 → Holds s → Holds (b.write a v s)
