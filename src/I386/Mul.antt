-- ===== src/I386/Mul.antt =====
-- x86_32/alu.rs: the products. A signed number is its word modulo the width's modulus, so that an
-- extension adds the high bits, and a product is taken modulo the double width.
use remu.Prelude.{
  ℕ, ◌+◌, ◌-◌, ◌*◌, ◌/◌, ◌%◌, Bool, false, not, leb, ◌==◌, if◌then◌else◌, u8, u16, u32, bit_and,
}
use remu.I386.EFlags.{set_szp}
use remu.I386.Registers.{Registers, with_gpr, reg8, reg16, set_reg16}
use remu.I386.Width.{Width, byte, word, double, modulus, sign, wrap}

-- The flags of a product whose low half is `low`.
abbrev product_flags : Width → Bool → ℕ → Registers → Registers
product_flags w over low r = record r {
  eflags = set_szp (sign w) low (record (r.eflags) { cf = over; oflag = over; af = false });
}

unfoldable pub mul8 : ℕ → Registers → Registers
mul8 v r =
    let p = reg8 0 r * v in
    product_flags byte (not (bit_and p 0xFF00 == 0)) (u8 p) (set_reg16 0 p r)

unfoldable pub mul16 : ℕ → Registers → Registers
mul16 v r =
    let p = reg16 0 r * v in
    product_flags word (not (bit_and p 0xFFFF0000 == 0)) (u16 p)
      (set_reg16 2 (u16 (p / 65536)) (set_reg16 0 (u16 p) r))

unfoldable pub mul32 : ℕ → Registers → Registers
mul32 v r =
    let p = r.gpr 0 * v in
    product_flags double (not (p / 4294967296 == 0)) (u32 p)
      (with_gpr 2 (u32 (p / 4294967296)) (with_gpr 0 (u32 p) r))

-- The extension of a word to the double width.
abbrev pub extend : Width → ℕ → ℕ
extend w v = if leb (sign w) v then v + modulus w * (modulus w - 1) else v

abbrev pub signed_product : Width → ℕ → ℕ → ℕ
signed_product w a b = extend w a * extend w b % (modulus w * modulus w)

-- Whether a product is not that of its low half.
abbrev pub truncated : Width → ℕ → Bool
truncated w p = not (p == extend w (wrap w p))

unfoldable pub imul8 : ℕ → Registers → Registers
imul8 v r =
    let p = signed_product byte (reg8 0 r) v in
    product_flags byte (truncated byte p) (u8 p) (set_reg16 0 p r)

unfoldable pub imul16 : ℕ → Registers → Registers
imul16 v r =
    let p = signed_product word (reg16 0 r) v in
    product_flags word (truncated word p) (u16 p)
      (set_reg16 2 (u16 (p / 65536)) (set_reg16 0 (u16 p) r))

unfoldable pub imul32 : ℕ → Registers → Registers
imul32 v r =
    let p = signed_product double (r.gpr 0) v in
    product_flags double (truncated double p) (u32 p)
      (with_gpr 2 (u32 (p / 4294967296)) (with_gpr 0 (u32 p) r))

unfoldable pub imul_trunc16 : ℕ → ℕ → Registers → ℕ × Registers
imul_trunc16 a b r =
    let p = signed_product word a b in (u16 p, product_flags word (truncated word p) (u16 p) r)

unfoldable pub imul_trunc32 : ℕ → ℕ → Registers → ℕ × Registers
imul_trunc32 a b r =
    let p = signed_product double a b in
    (u32 p, product_flags double (truncated double p) (u32 p) r)
