-- ===== src/I386/Width.antt =====
-- x86_32/alu.rs: the three instances of the macro `alu_width`: their parameters.
use remu.Prelude.{ℕ, ◌+◌, ◌-◌, ◌*◌, ◌/◌, ◌%◌, ◌^◌}

pub data Width : Type 0 where
  byte : Width
  word : Width
  double : Width

-- `$bits`, and `$t::MAX + 1`
abbrev pub bit_count : Width → ℕ
bit_count byte = 8
bit_count word = 16
bit_count double = 32

abbrev pub modulus : Width → ℕ
modulus byte = 256
modulus word = 65536
modulus double = 4294967296

-- `$sign`
abbrev pub sign : Width → ℕ
sign byte = 0x80
sign word = 0x8000
sign double = 0x80000000

-- `v as $t`
abbrev pub wrap : Width → ℕ → ℕ
wrap byte v = v % 256
wrap word v = v % 65536
wrap double v = v % 4294967296

abbrev pub wrapping_sub : Width → ℕ → ℕ → ℕ
wrapping_sub w a b = wrap w (a + modulus w - b)

-- `rotate_left` and `rotate_right`, for a count below the width's.
abbrev pub rotate_left : Width → ℕ → ℕ → ℕ
rotate_left w v k = wrap w (v * 2 ^ k) + v / 2 ^ (bit_count w - k)

abbrev pub rotate_right : Width → ℕ → ℕ → ℕ
rotate_right w v k = v / 2 ^ k + wrap w (v * 2 ^ (bit_count w - k))
