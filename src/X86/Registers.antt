-- ===== src/X86/Registers.antt =====
-- x86/registers.rs: FLAGS and the register file. The nine flags are Booleans, named as in the source
-- except for IF and OF, here `iflag` and `oflag`.
pub mod Laws
use remu.Prelude.{
  ℕ, zero, suc, ◌+◌, ◌*◌, ◌/◌, ◌%◌, Bool, false, ◌==◌, if◌then◌else◌, of_bool, test, u8, bit_and,
  bit_or,
}

pub record Flags : Type 0 where
  pub cf : Bool
  pub pf : Bool
  pub af : Bool
  pub zf : Bool
  pub sf : Bool
  pub tf : Bool
  pub iflag : Bool
  pub df : Bool
  pub oflag : Bool

-- `Flags::empty`
abbrev pub empty : Flags
empty = record {
  cf = false;
  pf = false;
  af = false;
  zf = false;
  sf = false;
  tf = false;
  iflag = false;
  df = false;
  oflag = false;
}

-- The storage of the flags.
unfoldable pub bits : Flags → ℕ
bits f =
    of_bool f.cf
    + of_bool f.pf * 4
    + of_bool f.af * 16
    + of_bool f.zf * 64
    + of_bool f.sf * 128
    + of_bool f.tf * 256
    + of_bool f.iflag * 512
    + of_bool f.df * 1024
    + of_bool f.oflag * 2048

unfoldable pub to_word : Flags → ℕ
to_word f = bit_or (bits f) 0xF002

unfoldable pub from_word : ℕ → Flags
from_word w = record {
  cf = w % 2 == 1;
  pf = w / 4 % 2 == 1;
  af = w / 16 % 2 == 1;
  zf = w / 64 % 2 == 1;
  sf = w / 128 % 2 == 1;
  tf = w / 256 % 2 == 1;
  iflag = w / 512 % 2 == 1;
  df = w / 1024 % 2 == 1;
  oflag = w / 2048 % 2 == 1;
}

-- The bits of `v` that are set, of the lowest `n`.
unfoldable pub count_ones : ℕ → ℕ → ℕ
count_ones zero v = 0
count_ones (suc n) v = v % 2 + count_ones n (v / 2)

-- `(v as u8).count_ones().is_multiple_of(2)`
unfoldable pub even_parity : ℕ → Bool
even_parity v = count_ones 8 (u8 v) % 2 == 0

-- Register encodings, `reg`.
abbrev pub reg_es : ℕ
reg_es = 0

abbrev pub reg_cs : ℕ
reg_cs = 1

abbrev pub reg_ss : ℕ
reg_ss = 2

abbrev pub reg_ds : ℕ
reg_ds = 3

pub record Registers : Type 0 where
  pub ax : ℕ
  pub bx : ℕ
  pub cx : ℕ
  pub dx : ℕ
  pub sp : ℕ
  pub bp : ℕ
  pub si : ℕ
  pub di : ℕ
  pub es : ℕ
  pub cs : ℕ
  pub ss : ℕ
  pub ds : ℕ
  pub ip : ℕ
  pub flags : Flags

-- `Registers::new`
abbrev pub power_on : Registers
power_on = record {
  ax = 0;
  bx = 0;
  cx = 0;
  dx = 0;
  sp = 0;
  bp = 0;
  si = 0;
  di = 0;
  es = 0;
  cs = 0xFFFF;
  ss = 0;
  ds = 0;
  ip = 0;
  flags = empty;
}

unfoldable pub reg16 : ℕ → Registers → ℕ
reg16 i r =
    let n = bit_and i 7 in
    if n == 0
    then r.ax
    else if n == 1
    then r.cx
    else if n == 2
    then r.dx
    else if n == 3
    then r.bx
    else if n == 4
    then r.sp
    else if n == 5
    then r.bp
    else if n == 6
    then r.si
    else r.di

unfoldable pub set_reg16 : ℕ → ℕ → Registers → Registers
set_reg16 i v r =
    let n = bit_and i 7 in
    if n == 0
    then record r { ax = v }
    else if n == 1
    then record r { cx = v }
    else if n == 2
    then record r { dx = v }
    else if n == 3
    then record r { bx = v }
    else if n == 4
    then record r { sp = v }
    else if n == 5
    then record r { bp = v }
    else if n == 6
    then record r { si = v }
    else record r { di = v }

unfoldable pub reg8 : ℕ → Registers → ℕ
reg8 i r = let w = reg16 (bit_and i 3) r in if test i 4 then u8 (w / 256) else u8 w

unfoldable pub set_reg8 : ℕ → ℕ → Registers → Registers
set_reg8 i v r =
    let n = bit_and i 3 in
    let w = reg16 n r in
    let mixed =
      if test i 4 then bit_or (bit_and w 0x00FF) (v * 256) else bit_or (bit_and w 0xFF00) v in
    set_reg16 n mixed r

unfoldable pub seg : ℕ → Registers → ℕ
seg i r =
    let n = bit_and i 3 in
    if n == 0 then r.es else if n == 1 then r.cs else if n == 2 then r.ss else r.ds

unfoldable pub set_seg : ℕ → ℕ → Registers → Registers
set_seg i v r =
    let n = bit_and i 3 in
    if n == 0
    then record r { es = v }
    else if n == 1
    then record r { cs = v }
    else if n == 2
    then record r { ss = v }
    else record r { ds = v }
