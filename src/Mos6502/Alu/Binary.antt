-- ===== src/Mos6502/Alu/Binary.antt =====
-- Binary addition and subtraction, comparison, shifts and rotates: what the results and flags mean.
use remu.Prelude.{
  ℕ, ◌+◌, ◌-◌, ◌*◌, ◌/◌, ◌%◌, ◌<◌, ◌≡◌, refl, arith, Bool, false, not, ◌&&◌, ltb, leb, ◌==◌,
  of_bool, of_bool-lt, ◌∙◌, sym, u8, bit_and, bit_xor, test, min, ap,
}
use remu.Prelude.Bits.{digit_seven, digit-bit_and, digit-bit_xor}
use remu.Prelude.Masks.{test-0x80, bit_and-0xff}
use remu.Mos6502.Registers.{Registers, set_zn}
use remu.Mos6502.Alu.{add_overflows, sbc_difference, adc, adc_binary, sbc, compare}

-- The number that a byte stands for in two's complement, plus 128.
abbrev pub biased : ℕ → ℕ
biased v = (v + 128) % 256

-- The signed sum of two bytes and a carry fits a signed byte.
abbrev pub sum_fits : ℕ → ℕ → ℕ → Bool
sum_fits a v cin = leb 128 (biased a + biased v + cin) && ltb (biased a + biased v + cin) 384

-- The sign of `(a ^ b) & (c ^ d)`, from the four signs.
test_signs :
    (a b c d : ℕ)
    → test (bit_and (bit_xor a b) (bit_xor c d)) 0x80
      ≡ (min ((a / 128 + b / 128) % 2) ((c / 128 + d / 128) % 2) == 1)
test_signs a b c d =
    let x = bit_and (bit_xor a b) (bit_xor c d) in
    let e : x / 128 % 2 ≡ min ((a / 128 + b / 128) % 2) ((c / 128 + d / 128) % 2) = omega (
      arith,
      digit_seven a,
      digit_seven b,
      digit_seven c,
      digit_seven d,
      digit_seven x,
      digit-bit_and 7 (bit_xor a b) (bit_xor c d),
      digit-bit_xor 7 a b,
      digit-bit_xor 7 c d,
    ) in
    test-0x80 x ∙ ap (λ (t : ℕ). t == 1) e

pub test_sign : (v : ℕ) → v < 256 → test v 0x80 ≡ leb 128 v
test_sign v h = ground (arith, test-0x80 v)

overflow_arith :
    (a v c : ℕ)
    → a < 256
    → v < 256
    → c < 2
    → (min ((a / 128 + (a + v + c) / 128) % 2) ((v / 128 + (a + v + c) / 128) % 2) == 1)
      ≡ not (sum_fits a v c)
overflow_arith a v c ha hv hc = ground arith

sign_of_overflow :
    (a v c : ℕ) → a < 256 → v < 256 → c < 2 → add_overflows a v (a + v + c) ≡ not (sum_fits a v c)
sign_of_overflow a v c ha hv hc =
    test_signs a (a + v + c) v (a + v + c) ∙ overflow_arith a v c ha hv hc

-- In binary mode, for an accumulator and an operand of a byte, `ADC` adds the operand and the carry: the accumulator and the carry out are the
-- sum, `Z` and `N` describe the accumulator, and `V` is set exactly if the signed sum does not fit.
pub adc_sum :
    (v : ℕ) (r : Registers)
    → r.a < 256
    → v < 256
    → r.p.d ≡ false
    → let s = adc v r in
      (s.a + 256 * of_bool s.p.c ≡ r.a + v + of_bool r.p.c)
      × (s.p.z ≡ (s.a == 0))
      × (s.p.n ≡ leb 128 s.a)
      × (s.p.v ≡ not (sum_fits r.a v (of_bool r.p.c)))
unfolding adc adc_binary set_zn
adc_sum v r ha hv hd = rw hd (
  ground (arith, bit_and-0xff (r.a + v + of_bool r.p.c)),
  refl,
  test_sign (bit_and (r.a + v + of_bool r.p.c) 0xFF) (omega (arith, bit_and-0xff)),
  sign_of_overflow r.a v (of_bool r.p.c) ha hv (of_bool-lt r.p.c),
)

sbc_result :
    (a v c : ℕ)
    → a < 256
    → v < 256
    → c < 2
    → u8 (sbc_difference a v c) ≡ bit_and (a + (255 - v) + c) 0xFF
sbc_result a v c ha hv hc = ground (arith, bit_and-0xff (a + (255 - v) + c))

sbc_carry :
    (a v c : ℕ)
    → a < 256
    → v < 256
    → c < 2
    → ltb (sbc_difference a v c) 0x8000 ≡ ltb 0xFF (a + (255 - v) + c)
sbc_carry a v c ha hv hc = ground arith

-- The overflow of a difference, on the three signs.
overflow_signs :
    (x y z : ℕ)
    → x < 2
    → y < 2
    → z < 2
    → min ((x + y) % 2) ((x + z) % 2) ≡ min ((x + z) % 2) ((1 - y + z) % 2)
overflow_signs x y z hx hy hz = ground arith

sbc_signs :
    (a v c : ℕ)
    → a < 256
    → v < 256
    → c < 2
    → let sum = a + (255 - v) + c in
      min ((a / 128 + v / 128) % 2) ((a / 128 + sum % 256 / 128) % 2)
      ≡ min ((a / 128 + sum / 128) % 2) (((255 - v) / 128 + sum / 128) % 2)
sbc_signs a v c ha hv hc =
    let sum = a + (255 - v) + c in
    let flip : (255 - v) / 128 ≡ 1 - v / 128 = omega arith in
    let sign : sum % 256 / 128 ≡ sum / 128 % 2 = omega arith in
    let signs =
      overflow_signs (a / 128) (v / 128) (sum / 128 % 2) (omega arith) (omega arith)
        (omega arith) in
    rw (flip, sign) (omega (arith, signs))

sbc_overflow :
    (a v c : ℕ)
    → a < 256
    → v < 256
    → c < 2
    → test (bit_and (bit_xor a v) (bit_xor a (u8 (sbc_difference a v c)))) 0x80
      ≡ add_overflows a (255 - v) (a + (255 - v) + c)
sbc_overflow a v c ha hv hc =
    let sum = a + (255 - v) + c in
    rw (sbc_result a v c ha hv hc, bit_and-0xff sum, test_signs)
      (ap (λ (t : ℕ). t == 1) (sbc_signs a v c ha hv hc) ∙ sym (test_signs a sum (255 - v) sum))

-- In binary mode, for an accumulator and an operand of a byte, `SBC` is `ADC` of the complement, in the accumulator and in every flag.
pub sbc-adc :
    (v : ℕ) (r : Registers) → r.a < 256 → v < 256 → r.p.d ≡ false → sbc v r ≡ adc (255 - v) r
unfolding sbc adc adc_binary set_zn
sbc-adc v r ha hv hd =
    let c = of_bool r.p.c in
    let hc = of_bool-lt r.p.c in
    rw hd
      (rw (sbc_overflow r.a v c ha hv hc, sbc_carry r.a v c ha hv hc, sbc_result r.a v c ha hv hc))

-- `CMP`, `CPX` and `CPY` on bytes: the carry is set exactly if the register is at least the operand, `Z`
-- exactly if they are equal, and `N` is the sign of the wrapped difference.
pub compare_flags :
    (reg v : ℕ) (r : Registers)
    → reg < 256
    → v < 256
    → let p = (compare reg v r).p in
      (p.c ≡ leb v reg) × (p.z ≡ (reg == v)) × (p.n ≡ leb 128 ((reg + 256 - v) % 256))
unfolding compare set_zn
compare_flags reg v r hr hv = (refl, ground arith, test_sign ((reg + 256 - v) % 256) (omega arith))
