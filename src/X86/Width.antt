-- ===== src/X86/Width.antt =====
-- The two instances of the macros `alu_width` and `div_width`: their parameters, and the flags that
-- depend on the width.
use remu.Prelude.{ℕ, ◌+◌, ◌-◌, ◌%◌, ◌==◌, test}
use remu.X86.Registers.{Flags, even_parity}

pub data Width : Type 0 where
  byte : Width
  wide : Width

-- `$bits`, and `$t::MAX + 1`
abbrev pub bit_count : Width → ℕ
bit_count byte = 8
bit_count wide = 16

abbrev pub modulus : Width → ℕ
modulus byte = 256
modulus wide = 65536

-- `$sign`
abbrev pub sign : Width → ℕ
sign byte = 0x80
sign wide = 0x8000

-- `v as $t`
abbrev pub wrap : Width → ℕ → ℕ
wrap byte v = v % 256
wrap wide v = v % 65536

abbrev pub wrapping_sub : Width → ℕ → ℕ → ℕ
wrapping_sub w a b = wrap w (a + modulus w - b)

-- `set_szp8` and `set_szp16`
unfoldable pub set_szp : Width → ℕ → Flags → Flags
set_szp w v f = record f { sf = test v (sign w); zf = v == 0; pf = even_parity v }
