-- ===== src/X86/Alu/Sums.antt =====
-- The sums and differences of the arithmetic unit, with the flags that describe them.
use remu.Prelude.{
  ℕ, ◌+◌, ◌-◌, ◌*◌, ◌/◌, ◌%◌, ◌<◌, min, ◌≡◌, arith, ◌∙◌, Bool, not, ◌&&◌, ltb, leb, test, bit_and,
  bit_xor,
}
use remu.Prelude.Bits.{digit_seven, digit_four, digit_fifteen, digit-bit_and, digit-bit_xor}
use remu.Prelude.Masks.{test-0x80, test-0x8000, test-0x10}
use remu.X86.Width.{Width, byte, wide, sign, wrap}

-- The digit of an exclusive or, by one of the two halves of a sum.
pub nibble_xor :
    (a b r : ℕ) → bit_xor (bit_xor a b) r / 16 % 2 ≡ (a / 16 % 2 + b / 16 % 2 + r / 16 % 2) % 2
nibble_xor a b r = omega (
  arith,
  digit-bit_xor 4 (bit_xor a b) r,
  digit-bit_xor 4 a b,
  digit_four (bit_xor (bit_xor a b) r),
  digit_four a,
  digit_four b,
  digit_four r,
)

pub sign_pair8 :
    (a b c d : ℕ)
    → bit_and (bit_xor a b) (bit_xor c d) / 128 % 2
      ≡ min ((a / 128 + b / 128) % 2) ((c / 128 + d / 128) % 2)
sign_pair8 a b c d = omega (
  arith,
  digit_seven (bit_and (bit_xor a b) (bit_xor c d)),
  digit-bit_and 7 (bit_xor a b) (bit_xor c d),
  digit-bit_xor 7 a b,
  digit-bit_xor 7 c d,
  digit_seven a,
  digit_seven b,
  digit_seven c,
  digit_seven d,
)

pub sign_pair16 :
    (a b c d : ℕ)
    → bit_and (bit_xor a b) (bit_xor c d) / 32768 % 2
      ≡ min ((a / 32768 + b / 32768) % 2) ((c / 32768 + d / 32768) % 2)
sign_pair16 a b c d = omega (
  arith,
  digit_fifteen (bit_and (bit_xor a b) (bit_xor c d)),
  digit-bit_and 15 (bit_xor a b) (bit_xor c d),
  digit-bit_xor 15 a b,
  digit-bit_xor 15 c d,
  digit_fifteen a,
  digit_fifteen b,
  digit_fifteen c,
  digit_fifteen d,
)

-- A word plus half the range: its signed value, counted from the least one.
abbrev pub biased : Width → ℕ → ℕ
biased w v = wrap w (v + sign w)

-- The signed sum, and the signed difference, with the carry `c`, fits the width.
abbrev pub sum_fits : Width → ℕ → ℕ → ℕ → Bool
sum_fits w a b c =
    leb (sign w) (biased w a + biased w b + c) && ltb (biased w a + biased w b + c) (3 * sign w)

abbrev pub difference_fits : Width → ℕ → ℕ → ℕ → Bool
difference_fits w a b c =
    leb (biased w b + c) (biased w a + sign w) && ltb (biased w a) (biased w b + c + sign w)

pub sum_aux_byte :
    (a b c : ℕ)
    → c < 2
    → test (bit_xor (bit_xor a b) ((a + b + c) % 256)) 0x10 ≡ leb 16 (a % 16 + b % 16 + c)
sum_aux_byte a b c hc = test-0x10 _ ∙ ground (arith, nibble_xor a b ((a + b + c) % 256))

pub sum_aux_wide :
    (a b c : ℕ)
    → c < 2
    → test (bit_xor (bit_xor a b) ((a + b + c) % 65536)) 0x10 ≡ leb 16 (a % 16 + b % 16 + c)
sum_aux_wide a b c hc = test-0x10 _ ∙ ground (arith, nibble_xor a b ((a + b + c) % 65536))

pub sum_overflow8 :
    (a b c : ℕ)
    → a < 256
    → b < 256
    → c < 2
    → test (bit_and (bit_xor a ((a + b + c) % 256)) (bit_xor b ((a + b + c) % 256))) 0x80
      ≡ not (sum_fits byte a b c)
sum_overflow8 a b c ha hb hc =
    test-0x80 _ ∙ ground (arith, sign_pair8 a ((a + b + c) % 256) b ((a + b + c) % 256))

pub sum_overflow16 :
    (a b c : ℕ)
    → a < 65536
    → b < 65536
    → c < 2
    → test (bit_and (bit_xor a ((a + b + c) % 65536)) (bit_xor b ((a + b + c) % 65536))) 0x8000
      ≡ not (sum_fits wide a b c)
sum_overflow16 a b c ha hb hc =
    test-0x8000 _ ∙ ground (arith, sign_pair16 a ((a + b + c) % 65536) b ((a + b + c) % 65536))

pub difference_aux_byte :
    (a b c : ℕ)
    → c < 2
    → b < 256
    → test (bit_xor (bit_xor a b) ((a + 256 - b + 256 - c) % 256)) 0x10 ≡ ltb (a % 16) (b % 16 + c)
difference_aux_byte a b c hc hb =
    test-0x10 _ ∙ ground (arith, nibble_xor a b ((a + 256 - b + 256 - c) % 256))

pub difference_aux_wide :
    (a b c : ℕ)
    → c < 2
    → b < 65536
    → test (bit_xor (bit_xor a b) ((a + 65536 - b + 65536 - c) % 65536)) 0x10
      ≡ ltb (a % 16) (b % 16 + c)
difference_aux_wide a b c hc hb =
    test-0x10 _ ∙ ground (arith, nibble_xor a b ((a + 65536 - b + 65536 - c) % 65536))

pub difference_overflow8 :
    (a b c : ℕ)
    → a < 256
    → b < 256
    → c < 2
    → test (bit_and (bit_xor a b) (bit_xor a ((a + 256 - b + 256 - c) % 256))) 0x80
      ≡ not (difference_fits byte a b c)
difference_overflow8 a b c ha hb hc =
    test-0x80 _ ∙ ground (arith, sign_pair8 a b a ((a + 256 - b + 256 - c) % 256))

pub difference_overflow16 :
    (a b c : ℕ)
    → a < 65536
    → b < 65536
    → c < 2
    → test (bit_and (bit_xor a b) (bit_xor a ((a + 65536 - b + 65536 - c) % 65536))) 0x8000
      ≡ not (difference_fits wide a b c)
difference_overflow16 a b c ha hb hc =
    test-0x8000 _ ∙ ground (arith, sign_pair16 a b a ((a + 65536 - b + 65536 - c) % 65536))
