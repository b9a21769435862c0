-- ===== src/I386/Alu/Sums.antt =====
-- The flags of a sum and a difference of the 386, by what they say of the operands.
use remu.Prelude.{
  ℕ, ◌+◌, ◌-◌, ◌*◌, ◌/◌, ◌%◌, ◌<◌, min, ◌≡◌, arith, ◌∙◌, Bool, not, ◌&&◌, ltb, leb, test, bit_and,
  bit_xor,
}
use remu.Prelude.Bits.{digit_thirty_one, digit-bit_and, digit-bit_xor}
use remu.Prelude.Masks.{test-0x10, test-0x80, test-0x8000, test-0x80000000}
use remu.X86.Alu.Sums.{nibble_xor, sign_pair8, sign_pair16}
use remu.I386.Width.{Width, byte, word, double, modulus, sign, wrap}
use remu.I386.Alu.{aux_carry, add_overflow, sub_overflow}

-- A word plus half the range: its signed value, counted from the least one.
abbrev pub biased : Width → ℕ → ℕ
biased w v = wrap w (v + sign w)

-- The signed sum, and the signed difference, with the carry `c`, fits the width.
abbrev pub sum_fits : Width → ℕ → ℕ → ℕ → Bool
sum_fits w a b c =
    leb (sign w) (biased w a + biased w b + c) && ltb (biased w a + biased w b + c) (3 * sign w)

abbrev pub difference_fits : Width → ℕ → ℕ → ℕ → Bool
difference_fits w a b c =
    leb (biased w b + c) (biased w a + sign w) && ltb (biased w a) (biased w b + c + sign w)

sign_pair32 :
    (a b c d : ℕ)
    → bit_and (bit_xor a b) (bit_xor c d) / 2147483648 % 2
      ≡ min ((a / 2147483648 + b / 2147483648) % 2) ((c / 2147483648 + d / 2147483648) % 2)
sign_pair32 a b c d = omega (
  arith,
  digit_thirty_one (bit_and (bit_xor a b) (bit_xor c d)),
  digit-bit_and 31 (bit_xor a b) (bit_xor c d),
  digit-bit_xor 31 a b,
  digit-bit_xor 31 c d,
  digit_thirty_one a,
  digit_thirty_one b,
  digit_thirty_one c,
  digit_thirty_one d,
)

-- The sign of a result.
pub test-sign : (w : Width) (v : ℕ) → v < modulus w → test v (sign w) ≡ leb (sign w) v
test-sign byte v h = test-0x80 v ∙ ground arith
test-sign word v h = test-0x8000 v ∙ ground arith
test-sign double v h = test-0x80000000 v ∙ ground arith

-- The sum and the difference of words, wrapped.
abbrev pub sum_of : Width → ℕ → ℕ → ℕ → ℕ
sum_of w a b c = wrap w (a + b + c)

abbrev pub difference_of : Width → ℕ → ℕ → ℕ → ℕ
difference_of w a b c = wrap w (a + modulus w - b + modulus w - c)

pub sum_aux :
    (w : Width) (a b c : ℕ) → c < 2 → aux_carry a b (sum_of w a b c) ≡ leb 16 (a % 16 + b % 16 + c)
sum_aux byte a b c h = test-0x10 _ ∙ ground (arith, nibble_xor a b (sum_of byte a b c))
sum_aux word a b c h = test-0x10 _ ∙ ground (arith, nibble_xor a b (sum_of word a b c))
sum_aux double a b c h = test-0x10 _ ∙ ground (arith, nibble_xor a b (sum_of double a b c))

pub difference_aux :
    (w : Width) (a b c : ℕ)
    → c < 2
    → b < modulus w
    → aux_carry a b (difference_of w a b c) ≡ ltb (a % 16) (b % 16 + c)
difference_aux byte a b c h k =
    test-0x10 _ ∙ ground (arith, nibble_xor a b (difference_of byte a b c))
difference_aux word a b c h k =
    test-0x10 _ ∙ ground (arith, nibble_xor a b (difference_of word a b c))
difference_aux double a b c h k =
    test-0x10 _ ∙ ground (arith, nibble_xor a b (difference_of double a b c))

pub sum_overflow :
    (w : Width) (a b c : ℕ)
    → a < modulus w
    → b < modulus w
    → c < 2
    → add_overflow w a b (sum_of w a b c) ≡ not (sum_fits w a b c)
sum_overflow byte a b c ha hb hc =
    test-0x80 _ ∙ ground (arith, sign_pair8 a (sum_of byte a b c) b (sum_of byte a b c))
sum_overflow word a b c ha hb hc =
    test-0x8000 _ ∙ ground (arith, sign_pair16 a (sum_of word a b c) b (sum_of word a b c))
sum_overflow double a b c ha hb hc =
    test-0x80000000 _ ∙ ground (arith, sign_pair32 a (sum_of double a b c) b (sum_of double a b c))

pub difference_overflow :
    (w : Width) (a b c : ℕ)
    → a < modulus w
    → b < modulus w
    → c < 2
    → sub_overflow w a b (difference_of w a b c) ≡ not (difference_fits w a b c)
difference_overflow byte a b c ha hb hc =
    test-0x80 _ ∙ ground (arith, sign_pair8 a b a (difference_of byte a b c))
difference_overflow word a b c ha hb hc =
    test-0x8000 _ ∙ ground (arith, sign_pair16 a b a (difference_of word a b c))
difference_overflow double a b c ha hb hc =
    test-0x80000000 _ ∙ ground (arith, sign_pair32 a b a (difference_of double a b c))

pub wrap-lt : (w : Width) (v : ℕ) → wrap w v < modulus w
wrap-lt byte v = omega arith
wrap-lt word v = omega arith
wrap-lt double v = omega arith
