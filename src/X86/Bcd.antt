-- ===== src/X86/Bcd.antt =====
-- x86/alu.rs: the decimal adjustments `daa`, `das`, `aaa`, `aas` and `aad`.
pub mod Sums
use remu.Prelude.{
  ℕ, ◌+◌, ◌-◌, ◌*◌, ◌/◌, ◌%◌, Bool, true, false, not, ◌&&◌, ◌||◌, ltb, leb, ◌==◌, if◌then◌else◌, u8,
  u16, sub8, sub16, bit_and, bit_or,
}
use remu.X86.Registers.{Flags, Registers}
use remu.X86.Width.{byte, set_szp}

-- `(lo..=hi).contains(&v)`
abbrev pub between : ℕ → ℕ → ℕ → Bool
between lo hi v = leb lo v && leb v hi

-- `self.regs.ax & 0xFF00 | al as u16`
abbrev pub with_al : ℕ → ℕ → ℕ
with_al ax al = bit_or (bit_and ax 0xFF00) al

-- `al & 0xF > 9 || old_af` and `old_al > al_check || old_cf`
abbrev pub low_adjust : ℕ → Flags → Bool
low_adjust al f = ltb 9 (bit_and al 0xF) || f.af

abbrev pub high_adjust : ℕ → Flags → Bool
high_adjust al f = ltb (if f.af then 0x9F else 0x99) al || f.cf

abbrev pub daa_overflow : ℕ → Flags → Bool
daa_overflow al f = if f.cf then between 0x1A 0x7F al else between 0x7A 0x7F al

unfoldable pub daa : Registers → Registers
daa r =
    let old_al = u8 r.ax in
    let low = low_adjust old_al r.flags in
    let high = high_adjust old_al r.flags in
    let first = if low then u8 (old_al + 6) else old_al in
    let al = if high then u8 (first + 0x60) else first in
    record r {
      ax = with_al r.ax al;
      flags =
          set_szp byte al
            (record (r.flags) { oflag = daa_overflow old_al r.flags; af = low; cf = high });
    }

abbrev pub das_overflow : ℕ → Bool → Bool → Bool
das_overflow al false false = between 0x9A 0xDF al
das_overflow al true false = between 0x80 0x85 al || between 0xA0 0xE5 al
das_overflow al false true = between 0x80 0xDF al
das_overflow al true true = between 0x80 0xE5 al

unfoldable pub das : Registers → Registers
das r =
    let old_al = u8 r.ax in
    let low = low_adjust old_al r.flags in
    let high = high_adjust old_al r.flags in
    let first = if low then sub8 old_al 6 else old_al in
    let al = if high then sub8 first 0x60 else first in
    record r {
      ax = with_al r.ax al;
      flags = set_szp byte al (record (r.flags) {
        oflag = das_overflow old_al r.flags.af r.flags.cf;
        af = low;
        cf = high;
      });
    }

unfoldable pub aaa : Registers → Registers
aaa r =
    let old_al = u8 r.ax in
    let adjust = low_adjust old_al r.flags in
    let new_al = if adjust then u8 (old_al + 6) else old_al in
    let high = if adjust then u16 (bit_and r.ax 0xFF00 + 0x100) else bit_and r.ax 0xFF00 in
    let f = set_szp byte new_al (record (r.flags) { af = adjust; cf = adjust }) in
    record r {
      ax = bit_or high (bit_and new_al 0x0F);
      flags = record f { sf = between 0x7A 0xF9 old_al; oflag = between 0x7A 0x7F old_al };
    }

unfoldable pub aas : Registers → Registers
aas r =
    let old_al = u8 r.ax in
    let old_af = r.flags.af in
    let adjust = low_adjust old_al r.flags in
    let new_al = if adjust then sub8 old_al 6 else old_al in
    let high =
      if adjust then bit_and (sub16 (bit_and r.ax 0xFF00) 0x100) 0xFF00 else bit_and r.ax 0xFF00 in
    let f = set_szp byte new_al (record (r.flags) { af = adjust; cf = adjust }) in
    record r {
      ax = bit_or high (bit_and new_al 0x0F);
      flags = record f {
        sf = (not old_af && leb 0x80 old_al) || (old_af && (leb old_al 0x05 || leb 0x86 old_al));
        oflag = old_af && between 0x80 0x85 old_al;
      };
    }

unfoldable pub aad : ℕ → Registers → Registers
aad base r =
    let al = u8 (u8 r.ax + u8 (u8 (r.ax / 256) * base)) in
    record r {
      ax = al;
      flags = set_szp byte al (record (r.flags) { cf = false; oflag = false; af = false });
    }
