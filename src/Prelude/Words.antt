-- ===== src/Prelude/Words.antt =====
-- Machine words as native numbers: casts, wrapping arithmetic, shifts and masks of u8 and u16.
use Prim.Native.Nat.{ℕ, ◌+◌, ◌-◌, ◌*◌, ◌%◌, ◌^◌, bit_and, bit_or}
use mathlib.Core.Bool.{Bool, not}
use remu.Prelude.Tests.{◌==◌}

abbrev pub u8 : ℕ → ℕ
u8 n = n % 256

abbrev pub u16 : ℕ → ℕ
u16 n = n % 65536

abbrev pub u32 : ℕ → ℕ
u32 n = n % 2 ^ 32

abbrev pub u64 : ℕ → ℕ
u64 n = n % 2 ^ 64

-- `a.wrapping_sub(b)` on u8 and u16 words.
abbrev pub sub8 : ℕ → ℕ → ℕ
sub8 a b = (a + 256 - b) % 256

abbrev pub sub16 : ℕ → ℕ → ℕ
sub16 a b = (a + 65536 - b) % 65536

-- `!a` on a u8.
abbrev pub not8 : ℕ → ℕ
not8 a = 255 - a

-- `v & mask != 0`
unfoldable pub test : ℕ → ℕ → Bool
test v mask = not (bit_and v mask == 0)

-- `lo | (hi << 8)` on u16 words.
unfoldable pub word : ℕ → ℕ → ℕ
word lo hi = bit_or lo (u16 (hi * 256))
