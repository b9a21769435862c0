-- ===== src/Mos6502/Alu.antt =====
-- cpu/execute.rs, the helpers that work on registers alone: addition and subtraction with carry in
-- binary and decimal mode, comparison, shifts and rotates.
-- An i16 is its bit pattern, a number below 2 ^ 16 that is negative from 2 ^ 15 on.
pub mod Binary
pub mod Decimal
pub mod Rotate
use remu.Prelude.{
  ℕ, ◌+◌, ◌-◌, ◌*◌, ◌/◌, Bool, ltb, leb, ◌==◌, if◌then◌else◌, of_bool, u8, u16, sub8, sub16,
  bit_and, bit_or, bit_xor, test,
}
use remu.Mos6502.Registers.{Registers, set_zn}

-- `(a ^ sum) & (v ^ sum) & 0x80 != 0`
abbrev pub add_overflows : ℕ → ℕ → ℕ → Bool
add_overflows a v sum = test (bit_and (bit_xor a sum) (bit_xor v sum)) 0x80

unfoldable pub adc_binary : ℕ → Registers → Registers
adc_binary v r =
    let sum = r.a + v + of_bool r.p.c in
    let result = bit_and sum 0xFF in
    record r {
      a = result;
      p = set_zn result (record (r.p) { c = ltb 0xFF sum; v = add_overflows r.a v sum });
    }

-- The low digit with its carry into the high one.
abbrev pub adc_low : ℕ → ℕ → ℕ → ℕ
adc_low a v cin =
    let lo = bit_and a 0x0F + bit_and v 0x0F + cin in
    if leb 0x0A lo then bit_and (lo + 0x06) 0x0F + 0x10 else lo

-- The sum before the high digit is fixed, which decides `N` and `V`.
abbrev pub adc_intermediate : ℕ → ℕ → ℕ → ℕ
adc_intermediate a v cin = bit_and a 0xF0 + bit_and v 0xF0 + adc_low a v cin

abbrev pub adc_high : ℕ → ℕ
adc_high sum = if leb 0xA0 sum then sum + 0x60 else sum

unfoldable pub adc_decimal : ℕ → Registers → Registers
adc_decimal v r =
    let cin = of_bool r.p.c in
    let binsum = r.a + v + cin in
    let sum = adc_intermediate r.a v cin in
    let fixed = adc_high sum in
    record r {
      a = bit_and fixed 0xFF;
      p = record (r.p) {
        z = bit_and binsum 0xFF == 0;
        n = test sum 0x80;
        v = add_overflows r.a v sum;
        c = leb 0x100 fixed;
      };
    }

unfoldable pub adc : ℕ → Registers → Registers
adc v r = if r.p.d then adc_decimal v r else adc_binary v r

-- `x < 0` for an i16.
abbrev pub is_negative : ℕ → Bool
is_negative x = leb 0x8000 x

-- `a as i16 - v as i16 - (1 - cin)`
abbrev pub sbc_difference : ℕ → ℕ → ℕ → ℕ
sbc_difference a v cin = sub16 (sub16 a v) (1 - cin)

abbrev pub sbc_low : ℕ → ℕ → ℕ → ℕ
sbc_low a v cin =
    let lo = sub16 (u16 (sub16 (bit_and a 0x0F) (bit_and v 0x0F) + cin)) 1 in
    if is_negative lo then sub16 (bit_and (sub16 lo 0x06) 0x0F) 0x10 else lo

abbrev pub sbc_decimal : ℕ → ℕ → ℕ → ℕ
sbc_decimal a v cin =
    let hi = u16 (sub16 (bit_and a 0xF0) (bit_and v 0xF0) + sbc_low a v cin) in
    bit_and (if is_negative hi then sub16 hi 0x60 else hi) 0xFF

unfoldable pub sbc : ℕ → Registers → Registers
sbc v r =
    let cin = of_bool r.p.c in
    let diff = sbc_difference r.a v cin in
    let result = u8 diff in
    let overflow = test (bit_and (bit_xor r.a v) (bit_xor r.a result)) 0x80 in
    record r {
      a = if r.p.d then sbc_decimal r.a v cin else result;
      p = set_zn result (record (r.p) { c = ltb diff 0x8000; v = overflow });
    }

-- `compare`: the flags of `reg - v`.
unfoldable pub compare : ℕ → ℕ → Registers → Registers
compare reg v r = record r { p = set_zn (sub8 reg v) (record (r.p) { c = leb v reg }) }

-- The flags of `BIT`.
unfoldable pub bit : ℕ → Registers → Registers
bit v r = record r { p = record (r.p) { z = bit_and r.a v == 0; v = test v 0x40; n = test v 0x80 } }

-- A shift returns its result, and the registers with the flags set.
abbrev shifted : ℕ → Bool → Registers → ℕ × Registers
shifted result carry r = (result, record r { p = set_zn result (record (r.p) { c = carry }) })

unfoldable pub asl_val : ℕ → Registers → ℕ × Registers
asl_val v r = shifted (u8 (v * 2)) (test v 0x80) r

unfoldable pub lsr_val : ℕ → Registers → ℕ × Registers
lsr_val v r = shifted (v / 2) (test v 0x01) r

unfoldable pub rol_val : ℕ → Registers → ℕ × Registers
rol_val v r = shifted (bit_or (u8 (v * 2)) (of_bool r.p.c)) (test v 0x80) r

unfoldable pub ror_val : ℕ → Registers → ℕ × Registers
ror_val v r = shifted (bit_or (v / 2) (of_bool r.p.c * 128)) (test v 0x01) r
