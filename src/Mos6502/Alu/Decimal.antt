-- ===== src/Mos6502/Alu/Decimal.antt =====
-- Decimal mode: on packed decimal operands `ADC` and `SBC` add and subtract decimal numbers.
use remu.Prelude.{
  ℕ, ◌+◌, ◌-◌, ◌*◌, ◌/◌, ◌%◌, ◌<◌, ◌≡◌, refl, ltb, arith, u16, sub16, true, leb, of_bool,
  of_bool-lt, bit_and, if◌then◌else◌,
}
use remu.Prelude.Masks.{bit_and-0xff, bit_and-0x0f, bit_and-0xf0}
use remu.Mos6502.Registers.{Registers, set_zn}
use remu.Mos6502.Alu.{
  adc, adc_decimal, adc_low, adc_intermediate, adc_high, sbc, sbc_low, sbc_decimal, sbc_difference,
  is_negative,
}

-- Two decimal digits in a byte, and the number that they stand for.
abbrev pub IsDecimal : ℕ → Type 0
IsDecimal v = (v / 16 < 10) × (v % 16 < 10)

abbrev pub decimal : ℕ → ℕ
decimal v = v / 16 * 10 + v % 16

adc_low_value :
    (a v c : ℕ)
    → IsDecimal a
    → IsDecimal v
    → c < 2
    → adc_low a v c
      ≡ (if leb 10 (a % 16 + v % 16 + c) then a % 16 + v % 16 + c + 6 else a % 16 + v % 16 + c)
adc_low_value a v c ha hv hc = rw (bit_and-0x0f a, bit_and-0x0f v, bit_and-0x0f) (ground arith)

adc_value :
    (x y s t c : ℕ)
    → x < 10
    → y < 10
    → s < 10
    → t < 10
    → c < 2
    → let low = if leb 10 (y + t + c) then y + t + c + 6 else y + t + c in
      let fixed = adc_high (x * 16 + s * 16 + low) in
      IsDecimal (fixed % 256)
      × (decimal (fixed % 256) + 100 * of_bool (leb 0x100 fixed) ≡ x * 10 + y + (s * 10 + t) + c)
adc_value x y s t c hx hy hs ht hc = ground arith

adc_intermediate_value :
    (a v c : ℕ)
    → IsDecimal a
    → IsDecimal v
    → c < 2
    → let low =
        if leb 10 (a % 16 + v % 16 + c) then a % 16 + v % 16 + c + 6 else a % 16 + v % 16 + c in
      adc_intermediate a v c ≡ a / 16 * 16 + v / 16 * 16 + low
adc_intermediate_value a v c ha hv hc =
    rw (adc_low_value a v c ha hv hc, bit_and-0xf0 a, bit_and-0xf0 v) (omega arith)

-- In decimal mode `ADC` of packed decimal operands adds them with the carry: the accumulator is
-- packed decimal again, and with the carry out as a hundred it is the sum.
pub adc-decimal_sum :
    (v : ℕ) (r : Registers)
    → IsDecimal r.a
    → IsDecimal v
    → r.p.d ≡ true
    → let s = adc v r in
      IsDecimal s.a × (decimal s.a + 100 * of_bool s.p.c ≡ decimal r.a + decimal v + of_bool r.p.c)
unfolding adc adc_decimal
adc-decimal_sum v r ha hv hd =
    let c = of_bool r.p.c in
    rw hd (
      rw (adc_intermediate_value r.a v c ha hv (of_bool-lt r.p.c), bit_and-0xff)
        (adc_value (r.a / 16) (r.a % 16) (v / 16) (v % 16) c ha.0 ha.1 hv.0 hv.1
          (of_bool-lt r.p.c)))

sbc_low_arith :
    (y t c : ℕ)
    → y < 10
    → t < 10
    → c < 2
    → let lo = sub16 (u16 (sub16 y t + c)) 1 in
      (if is_negative lo then sub16 (sub16 lo 0x06 % 16) 0x10 else lo)
      ≡ (if leb (t + 1) (y + c) then y + c - t - 1 else 65536 + y + c - t - 7)
sbc_low_arith y t c hy ht hc = ground arith

-- The low digit of a difference, as the bit pattern of an i16.
sbc_low_value :
    (a v c : ℕ)
    → IsDecimal a
    → IsDecimal v
    → c < 2
    → sbc_low a v c ≡ (
        if leb (v % 16 + 1) (a % 16 + c)
        then a % 16 + c - v % 16 - 1
        else 65536 + a % 16 + c - v % 16 - 7)
sbc_low_value a v c ha hv hc =
    rw (bit_and-0x0f a, bit_and-0x0f v, bit_and-0x0f)
      (sbc_low_arith (a % 16) (v % 16) c ha.1 hv.1 hc)

sbc_value :
    (x y s t c : ℕ)
    → x < 10
    → y < 10
    → s < 10
    → t < 10
    → c < 2
    → let low = if leb (t + 1) (y + c) then y + c - t - 1 else 65536 + y + c - t - 7 in
      let hi = u16 (sub16 (x * 16) (s * 16) + low) in
      let fixed = (if is_negative hi then sub16 hi 0x60 else hi) % 256 in
      let borrow = of_bool (leb (s * 10 + t + 1) (x * 10 + y + c)) in
      IsDecimal fixed × (decimal fixed + (s * 10 + t) + 1 ≡ x * 10 + y + c + 100 * (1 - borrow))
sbc_value x y s t c hx hy hs ht hc = ground arith

sbc_carry_value :
    (a v c : ℕ)
    → IsDecimal a
    → IsDecimal v
    → c < 2
    → ltb (sbc_difference a v c) 0x8000 ≡ leb (v / 16 * 10 + v % 16 + 1) (a / 16 * 10 + a % 16 + c)
sbc_carry_value a v c ha hv hc = ground arith

sbc_decimal_value :
    (a v c : ℕ)
    → IsDecimal a
    → IsDecimal v
    → c < 2
    → let low =
        if leb (v % 16 + 1) (a % 16 + c)
        then a % 16 + c - v % 16 - 1
        else 65536 + a % 16 + c - v % 16 - 7 in
      let hi = u16 (sub16 (a / 16 * 16) (v / 16 * 16) + low) in
      sbc_decimal a v c ≡ (if is_negative hi then sub16 hi 0x60 else hi) % 256
sbc_decimal_value a v c ha hv hc =
    let high_a : bit_and a 0xF0 ≡ a / 16 * 16 = omega (arith, bit_and-0xf0 a) in
    let high_v : bit_and v 0xF0 ≡ v / 16 * 16 = omega (arith, bit_and-0xf0 v) in
    rw (sbc_low_value a v c ha hv hc, high_a, high_v, bit_and-0xff) refl

-- In decimal mode `SBC` of packed decimal operands subtracts the operand and the borrow, which is a
-- clear carry: the accumulator is packed decimal again, and less a hundred if the carry out is clear
-- it is the difference.
pub sbc-decimal_difference :
    (v : ℕ) (r : Registers)
    → IsDecimal r.a
    → IsDecimal v
    → r.p.d ≡ true
    → let s = sbc v r in
      IsDecimal s.a
      × (decimal s.a + decimal v + 1 ≡ decimal r.a + of_bool r.p.c + 100 * (1 - of_bool s.p.c))
unfolding sbc set_zn
sbc-decimal_difference v r ha hv hd =
    let c = of_bool r.p.c in
    let hc = of_bool-lt r.p.c in
    rw hd (
      rw (sbc_decimal_value r.a v c ha hv hc, sbc_carry_value r.a v c ha hv hc)
        (sbc_value (r.a / 16) (r.a % 16) (v / 16) (v % 16) c ha.0 ha.1 hv.0 hv.1 hc))
