-- ===== src/Mos6502/Registers.antt =====
-- cpu/registers.rs: the status flags and the register file.
-- `Status` has one Boolean for each flag that the source declares over its u8; `set`, `insert` and
-- `remove` of one flag are updates of that field.
pub mod Laws
use remu.Prelude.{ℕ, ◌+◌, ◌*◌, ◌/◌, ◌%◌, Bool, true, false, ◌==◌, of_bool, test}

pub record Status : Type 0 where
  pub c : Bool
  pub z : Bool
  pub i : Bool
  pub d : Bool
  pub b : Bool
  pub u : Bool
  pub v : Bool
  pub n : Bool

-- `Status::bits`
unfoldable pub bits : Status → ℕ
bits p =
    of_bool p.c
    + of_bool p.z * 2
    + of_bool p.i * 4
    + of_bool p.d * 8
    + of_bool p.b * 16
    + of_bool p.u * 32
    + of_bool p.v * 64
    + of_bool p.n * 128

-- `Status::from_bits_retain`
unfoldable pub from_bits : ℕ → Status
from_bits w = record {
  c = w % 2 == 1;
  z = w / 2 % 2 == 1;
  i = w / 4 % 2 == 1;
  d = w / 8 % 2 == 1;
  b = w / 16 % 2 == 1;
  u = w / 32 % 2 == 1;
  v = w / 64 % 2 == 1;
  n = w / 128 % 2 == 1;
}

unfoldable pub set_zn : ℕ → Status → Status
set_zn value p = record p { z = value == 0; n = test value 0x80 }

pub record Registers : Type 0 where
  pub a : ℕ
  pub x : ℕ
  pub y : ℕ
  pub sp : ℕ
  pub pc : ℕ
  pub p : Status

-- `Status::I | Status::U`
abbrev pub power_on_status : Status
power_on_status = record {
  c = false;
  z = false;
  i = true;
  d = false;
  b = false;
  u = true;
  v = false;
  n = false;
}

-- `Registers::new`
abbrev pub power_on : Registers
power_on = record { a = 0; x = 0; y = 0; sp = 0xFD; pc = 0; p = power_on_status }
