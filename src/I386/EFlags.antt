-- ===== src/I386/EFlags.antt =====
-- x86_32/registers.rs, `EFlags`: the flags, as what their bits say, with the bits as a number.
use remu.Prelude.{
  ℕ, zero, suc, ◌+◌, ◌-◌, ◌*◌, ◌/◌, ◌%◌, Bool, false, ◌==◌, u8, u16, of_bool, test, bit_and, bit_or,
}

-- The two bits of `IOPL` are a number below 4.
pub record EFlags : Type 0 where
  pub cf : Bool
  pub pf : Bool
  pub af : Bool
  pub zf : Bool
  pub sf : Bool
  pub tf : Bool
  pub iflag : Bool
  pub df : Bool
  pub oflag : Bool
  pub iopl : ℕ
  pub nt : Bool
  pub rf : Bool
  pub vm : Bool

abbrev pub empty : EFlags
empty = record {
  cf = false;
  pf = false;
  af = false;
  zf = false;
  sf = false;
  tf = false;
  iflag = false;
  df = false;
  oflag = false;
  iopl = 0;
  nt = false;
  rf = false;
  vm = false;
}

-- `bits`
unfoldable pub bits : EFlags → ℕ
bits f =
    of_bool f.cf
    + of_bool f.pf * 0x4
    + of_bool f.af * 0x10
    + of_bool f.zf * 0x40
    + of_bool f.sf * 0x80
    + of_bool f.tf * 0x100
    + of_bool f.iflag * 0x200
    + of_bool f.df * 0x400
    + of_bool f.oflag * 0x800
    + f.iopl * 0x1000
    + of_bool f.nt * 0x4000
    + of_bool f.rf * 0x10000
    + of_bool f.vm * 0x20000

-- `from_bits_truncate`
unfoldable pub from_bits : ℕ → EFlags
from_bits v = record {
  cf = test v 0x1;
  pf = test v 0x4;
  af = test v 0x10;
  zf = test v 0x40;
  sf = test v 0x80;
  tf = test v 0x100;
  iflag = test v 0x200;
  df = test v 0x400;
  oflag = test v 0x800;
  iopl = v / 0x1000 % 4;
  nt = test v 0x4000;
  rf = test v 0x10000;
  vm = test v 0x20000;
}

-- `!a` on a u32.
abbrev pub not32 : ℕ → ℕ
not32 a = 0xFFFFFFFF - a

unfoldable pub image16 : EFlags → ℕ
image16 f = bit_or (u16 (bits f)) 0x2

-- The mask is that of `VM` and `RF`.
unfoldable pub image32 : EFlags → ℕ
image32 f = bit_and (bit_or (bits f) 0x2) (not32 0x30000)

unfoldable pub load : ℕ → ℕ → EFlags → EFlags
load value mask f = from_bits (bit_or (bit_and (bits f) (not32 mask)) (bit_and value mask))

unfoldable pub iopl_of : EFlags → ℕ
iopl_of f = u8 (bit_and (bits f / 0x1000) 3)

-- The bits of `v` that are set, of the lowest `n`.
unfoldable pub count_ones : ℕ → ℕ → ℕ
count_ones zero v = 0
count_ones (suc n) v = v % 2 + count_ones n (v / 2)

-- `(v as u8).count_ones().is_multiple_of(2)`
unfoldable pub even_parity : ℕ → Bool
even_parity v = count_ones 8 (u8 v) % 2 == 0

-- `set_szp8`, `set_szp16` and `set_szp32`, by the sign bit of the width.
unfoldable pub set_szp : ℕ → ℕ → EFlags → EFlags
set_szp sign v f = record f { sf = test v sign; zf = v == 0; pf = even_parity v }
