-- ===== src/Mos6502/Valid/Alu.antt =====
-- The register operations keep every register in range and leave the unused flags alone.
use remu.Prelude.{ℕ, ◌+◌, ◌<◌, arith, of_bool, of_bool-lt}
use remu.Prelude.Bits.{bit_or-lt}
use remu.Prelude.Masks.{bit_and-0xff}
use remu.Mos6502.Registers.{Registers, set_zn}
use remu.Mos6502.Alu.{
  adc, adc_binary, adc_decimal, sbc, compare, bit, asl_val, lsr_val, rol_val, ror_val,
  adc_intermediate, adc_high, sbc_decimal,
}
use remu.Mos6502.Valid.{IsValidRegisters}
use remu.Mos6502.Execute.{load_a, load_x, load_y, inc_val, dec_val}

pub adc_binary-IsValid :
    (v : ℕ) (r : Registers) → IsValidRegisters r → IsValidRegisters (adc_binary v r)
unfolding adc_binary set_zn
adc_binary-IsValid v r h = record {
  a = omega (arith, bit_and-0xff (r.a + v + of_bool r.p.c));
  x = h.x;
  y = h.y;
  sp = h.sp;
  pc = h.pc;
  unused = h.unused;
  no_break = h.no_break;
}

pub adc_decimal-IsValid :
    (v : ℕ) (r : Registers) → IsValidRegisters r → IsValidRegisters (adc_decimal v r)
unfolding adc_decimal
adc_decimal-IsValid v r h = record {
  a = omega (arith, bit_and-0xff (adc_high (adc_intermediate r.a v (of_bool r.p.c))));
  x = h.x;
  y = h.y;
  sp = h.sp;
  pc = h.pc;
  unused = h.unused;
  no_break = h.no_break;
}

pub adc-IsValid : (v : ℕ) (r : Registers) → IsValidRegisters r → IsValidRegisters (adc v r)
unfolding adc
adc-IsValid v r h = ground (arith, adc_binary-IsValid v r h, adc_decimal-IsValid v r h)

sbc_decimal-lt : (a v cin : ℕ) → sbc_decimal a v cin < 256
sbc_decimal-lt a v cin = omega (arith, bit_and-0xff)

pub sbc-IsValid : (v : ℕ) (r : Registers) → IsValidRegisters r → IsValidRegisters (sbc v r)
unfolding sbc set_zn
sbc-IsValid v r h = record {
  a = ground (arith, sbc_decimal-lt r.a v (of_bool r.p.c));
  x = h.x;
  y = h.y;
  sp = h.sp;
  pc = h.pc;
  unused = h.unused;
  no_break = h.no_break;
}

pub compare-IsValid :
    (reg v : ℕ) (r : Registers) → IsValidRegisters r → IsValidRegisters (compare reg v r)
unfolding compare set_zn
compare-IsValid reg v r h = ground arith

pub bit-IsValid : (v : ℕ) (r : Registers) → IsValidRegisters r → IsValidRegisters (bit v r)
unfolding bit
bit-IsValid v r h = ground arith

pub load_a-IsValid :
    (v : ℕ) (r : Registers) → v < 256 → IsValidRegisters r → IsValidRegisters (load_a v r)
unfolding set_zn
load_a-IsValid v r h g = ground arith

pub load_x-IsValid :
    (v : ℕ) (r : Registers) → v < 256 → IsValidRegisters r → IsValidRegisters (load_x v r)
unfolding set_zn
load_x-IsValid v r h g = ground arith

pub load_y-IsValid :
    (v : ℕ) (r : Registers) → v < 256 → IsValidRegisters r → IsValidRegisters (load_y v r)
unfolding set_zn
load_y-IsValid v r h g = ground arith

-- A transformed value is a byte again, and the registers stay valid.
pub record IsTransform (f : ℕ → Registers → ℕ × Registers) : Type 0 where
  pub byte : (v : ℕ) (r : Registers) → v < 256 → (f v r).0 < 256
  pub regs : (v : ℕ) (r : Registers) → IsValidRegisters r → IsValidRegisters (f v r).1

pub inc_val-IsTransform : IsTransform inc_val
unfolding set_zn
inc_val-IsTransform = record { byte = λ v r h. omega arith; regs = λ v r h. ground arith }

pub dec_val-IsTransform : IsTransform dec_val
unfolding set_zn
dec_val-IsTransform = record { byte = λ v r h. omega arith; regs = λ v r h. ground arith }

pub asl_val-IsTransform : IsTransform asl_val
unfolding asl_val set_zn
asl_val-IsTransform = record { byte = λ v r h. omega arith; regs = λ v r h. ground arith }

pub lsr_val-IsTransform : IsTransform lsr_val
unfolding lsr_val set_zn
lsr_val-IsTransform = record { byte = λ v r h. omega arith; regs = λ v r h. ground arith }

pub rol_val-IsTransform : IsTransform rol_val
unfolding rol_val set_zn
rol_val-IsTransform = record {
  byte = λ v r h. bit_or-lt 8 _ _ (omega arith) (omega (arith, of_bool-lt r.p.c));
  regs = λ v r h. ground arith;
}

pub ror_val-IsTransform : IsTransform ror_val
unfolding ror_val set_zn
ror_val-IsTransform = record {
  byte = λ v r h. bit_or-lt 8 _ _ (omega arith) (omega (arith, of_bool-lt r.p.c));
  regs = λ v r h. ground arith;
}
