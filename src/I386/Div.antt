-- ===== src/I386/Div.antt =====
-- x86_32/alu.rs: the divisions, which change only the general registers: none is a divide fault, the
-- `false` of the source, which leaves all as it was.
pub mod Lossy
pub mod Exact
pub mod Pair
pub mod Signed
use remu.Prelude.{
  ℕ, zero, suc, ◌+◌, ◌-◌, ◌*◌, ◌/◌, ◌%◌, ◌^◌, Bool, true, false, not, xor, leb, ltb, ◌==◌, Option,
  none, some, if◌then◌else◌, u8, u16, bit_and, bit_or,
}
use remu.I386.Registers.{Registers, with_gpr, reg16, set_reg16, set_reg8}
use remu.I386.Width.{Width, byte, word, double, modulus, sign, bit_count, wrap, wrapping_sub}

-- The dividend in the accumulator pair, and the pair with a quotient and a remainder.
unfoldable pub dividend_of : Width → Registers → ℕ
dividend_of byte r = reg16 0 r
dividend_of word r = bit_or (reg16 2 r * 65536) (reg16 0 r)
dividend_of double r = bit_or (r.gpr 2 * 4294967296) (r.gpr 0)

unfoldable pub put_quotient : Width → ℕ → ℕ → Registers → Registers
put_quotient byte quot rem r = set_reg8 4 rem (set_reg8 0 quot r)
put_quotient word quot rem r = set_reg16 2 rem (set_reg16 0 quot r)
put_quotient double quot rem r = with_gpr 2 rem (with_gpr 0 quot r)

unfoldable pub divide : Width → ℕ → Registers → Option Registers
divide w v r =
    let dividend = dividend_of w r in
    let q = dividend / v in
    if v == 0
    then none
    else (if ltb (modulus w - 1) q
        then none
        else some (put_quotient w (wrap w q) (wrap w (dividend % v)) r))

abbrev pub div8 : ℕ → Registers → Option Registers
div8 = divide byte

abbrev pub div16 : ℕ → Registers → Option Registers
div16 = divide word

abbrev pub div32 : ℕ → Registers → Option Registers
div32 = divide double

-- The registers of the restoring division: the remainder and the quotient.
abbrev pub Lossy : Type 0
Lossy = ℕ × ℕ

-- The round of the loop for the bit `i`.
unfoldable pub lossy_round : Width → ℕ → ℕ → ℕ → Lossy → Lossy
lossy_round w lo divisor i (r, q) =
    let shifted = bit_or (wrap w (r * 2)) (bit_and (lo / 2 ^ i) 1) in
    if leb divisor shifted then (shifted - wrap w divisor, bit_or q (2 ^ i)) else (shifted, q)

-- The rounds for the bits below `n`, the highest first.
unfoldable pub lossy_rounds : Width → ℕ → ℕ → ℕ → Lossy → Lossy
lossy_rounds w lo divisor zero s = s
lossy_rounds w lo divisor (suc i) s = lossy_rounds w lo divisor i (lossy_round w lo divisor i s)

-- The quotient and the remainder.
unfoldable pub idiv_lossy : Width → ℕ → ℕ → ℕ × ℕ
idiv_lossy w dividend divisor =
    let (r, q) =
      lossy_rounds w (wrap w dividend) divisor (bit_count w) (wrap w (dividend / modulus w), 0) in
    (q, r)

-- The sign and the magnitude of a word of the width, and of the double width.
abbrev pub is_negative : Width → ℕ → Bool
is_negative w v = leb (sign w) v

abbrev pub magnitude : Width → ℕ → ℕ
magnitude w v = if is_negative w v then modulus w - v else v

abbrev pub wide_sign : Width → ℕ
wide_sign w = sign w * modulus w

abbrev pub wide_negative : Width → ℕ → Bool
wide_negative w v = leb (wide_sign w) v

abbrev pub wide_magnitude : Width → ℕ → ℕ
wide_magnitude w v = if wide_negative w v then modulus w * modulus w - v else v

-- `wrapping_neg`, where the sign asks for it.
abbrev pub negate_if : Width → Bool → ℕ → ℕ
negate_if w b v = if b then wrapping_sub w 0 v else v

-- The check of the quotient's sign, and the result.
abbrev pub signed_result : Width → Bool → Bool → ℕ × ℕ → Registers → Option Registers
signed_result w neg negative (q, rem) r =
    if (if neg then ltb (sign w) q else leb (sign w) q)
    then none
    else some (put_quotient w (negate_if w neg q) (negate_if w negative rem) r)

unfoldable pub signed_divide : Width → ℕ → Registers → Option Registers
signed_divide w v r =
    let dividend = dividend_of w r in
    let negative = wide_negative w dividend in
    if v == 0
    then none
    else (if dividend == wide_sign w
        then none
        else signed_result w (xor negative (is_negative w v)) negative
            (idiv_lossy w (wide_magnitude w dividend) (magnitude w v)) r)

abbrev pub idiv8 : ℕ → Registers → Option Registers
idiv8 = signed_divide byte

abbrev pub idiv16 : ℕ → Registers → Option Registers
idiv16 = signed_divide word

abbrev pub idiv32 : ℕ → Registers → Option Registers
idiv32 = signed_divide double
