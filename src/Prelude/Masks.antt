-- ===== src/Prelude/Masks.antt =====
-- The masks and shifts of the source, as arithmetic on digits.
use Prim.Native.Nat.{ℕ, ◌+◌, ◌*◌, ◌/◌, ◌%◌, ◌<◌, bit_and, bit_or}
use mathlib.Core.Path.{◌≡◌}
use native.Mathlib.Omega.{arith}
use remu.Prelude.Tests.{◌==◌}
use remu.Prelude.Words.{test, word}
use remu.Prelude.Bits.{
  digit-lt, digit_zero, digit_four, digit_fifteen, digit_thirty_one, digit_six, digit_seven,
  bit_and-pow, bit_and_mask, bit_and_shift, bit_or_sum, bit_or_comm,
}

-- A test of one bit is a test of one digit.
pub test-0x80 : (v : ℕ) → test v 0x80 ≡ (v / 128 % 2 == 1)
unfolding test
test-0x80 v = ground (arith, bit_and-pow 7 v, digit-lt v 7, digit_seven v)

pub test-0x8000 : (v : ℕ) → test v 0x8000 ≡ (v / 32768 % 2 == 1)
unfolding test
test-0x8000 v = ground (arith, bit_and-pow 15 v, digit-lt v 15, digit_fifteen v)

pub test-0x80000000 : (v : ℕ) → test v 0x80000000 ≡ (v / 2147483648 % 2 == 1)
unfolding test
test-0x80000000 v = ground (arith, bit_and-pow 31 v, digit-lt v 31, digit_thirty_one v)

pub test-0x10 : (v : ℕ) → test v 0x10 ≡ (v / 16 % 2 == 1)
unfolding test
test-0x10 v = ground (arith, bit_and-pow 4 v, digit-lt v 4, digit_four v)

pub test-0x40 : (v : ℕ) → test v 0x40 ≡ (v / 64 % 2 == 1)
unfolding test
test-0x40 v = ground (arith, bit_and-pow 6 v, digit-lt v 6, digit_six v)

pub test-0x01 : (v : ℕ) → test v 0x01 ≡ (v % 2 == 1)
unfolding test
test-0x01 v = ground (arith, bit_and-pow 0 v, digit-lt v 0, digit_zero v)

pub bit_and-0xff : (v : ℕ) → bit_and v 0xff ≡ v % 256
bit_and-0xff v = bit_and_mask 8 0xff v (omega arith)

pub bit_and-0x0f : (v : ℕ) → bit_and v 0x0f ≡ v % 16
bit_and-0x0f v = bit_and_mask 4 0x0f v (omega arith)

pub bit_and-0xf0 : (v : ℕ) → bit_and v 0xf0 ≡ v / 16 % 16 * 16
bit_and-0xf0 v = omega (arith, bit_and_shift 4 0x0f v, bit_and-0x0f (v / 16))

pub bit_and-0xff00 : (v : ℕ) → bit_and v 0xff00 ≡ v / 256 % 256 * 256
bit_and-0xff00 v = omega (arith, bit_and_shift 8 0xff v, bit_and-0xff (v / 256))

-- A word is the sum of its bytes.
pub word_sum : (lo hi : ℕ) → lo < 256 → hi < 256 → word lo hi ≡ lo + 256 * hi
unfolding word
word_sum lo hi p q = ground (arith, bit_or_comm lo (hi * 256), bit_or_sum 8 hi lo)

pub word-lt : (lo hi : ℕ) → lo < 256 → hi < 256 → word lo hi < 65536
word-lt lo hi p q = omega (arith, word_sum lo hi p q)

-- The stack page: `0x0100 | sp`.
pub stack_address : (sp : ℕ) → sp < 256 → bit_or 0x0100 sp ≡ 0x0100 + sp
stack_address sp h = bit_or_sum 8 1 sp h
