-- ===== src/I386/Bcd.antt =====
-- x86_32/alu.rs: the decimal adjustments.
pub mod Sums
use remu.Prelude.{
  ℕ, ◌+◌, ◌-◌, ◌*◌, ◌/◌, ◌%◌, Bool, true, false, not, ◌&&◌, ◌||◌, ltb, ◌==◌, if◌then◌else◌, u8, u16,
  sub8, sub16, bit_and,
}
use remu.I386.EFlags.{EFlags, set_szp, even_parity}
use remu.I386.Registers.{Registers, reg8, reg16, set_reg8, set_reg16}

-- `al & 0xF > 9`, or the auxiliary carry.
abbrev pub low_adjust : ℕ → EFlags → Bool
low_adjust al f = ltb 9 (bit_and al 0xF) || f.af

-- `old_al > 0x99 || old_cf`
abbrev pub high_adjust : ℕ → EFlags → Bool
high_adjust al f = ltb 0x99 al || f.cf

-- `AL` with the flags after an adjustment.
unfoldable pub finish : ℕ → EFlags → Registers → Registers
finish al f r = set_reg8 0 al (record r { eflags = set_szp 0x80 al (record f { oflag = false }) })

unfoldable pub daa : Registers → Registers
daa r =
    let old_al = reg8 0 r in
    let f = r.eflags in
    let low = low_adjust old_al f in
    let high = high_adjust old_al f in
    let first = if low then u8 (old_al + 6) else old_al in
    let al = if high then u8 (first + 0x60) else first in
    finish al (record f { af = low; cf = high }) r

unfoldable pub das : Registers → Registers
das r =
    let old_al = reg8 0 r in
    let f = r.eflags in
    let low = low_adjust old_al f in
    let high = high_adjust old_al f in
    let borrow = if low then f.cf || ltb old_al 6 else false in
    let first = if low then sub8 old_al 6 else old_al in
    let al = if high then sub8 first 0x60 else first in
    finish al (record f { af = low; cf = if high then true else borrow }) r

-- The common tail of `aaa` and `aas`, with `AX` adjusted or not.
abbrev unpacked : Bool → Registers → Registers
unpacked carry r =
    let masked = bit_and (reg8 0 r) 0x0F in
    finish masked (record (r.eflags) { af = carry; cf = carry }) r

unfoldable pub aaa : Registers → Registers
aaa r =
    let low = low_adjust (reg8 0 r) r.eflags in
    unpacked low (if low then set_reg16 0 (u16 (reg16 0 r + 0x106)) r else r)

unfoldable pub aas : Registers → Registers
aas r =
    let low = low_adjust (reg8 0 r) r.eflags in
    unpacked low (if low then set_reg16 0 (sub16 (reg16 0 r) 0x106) r else r)

-- The flags after a fault, by the divider's path.
abbrev fault_flags : ℕ → EFlags → EFlags
fault_flags al f = record f {
  cf = false;
  oflag = false;
  af = false;
  sf = false;
  zf = false;
  pf = even_parity (u8 (al * 0x81));
}

-- With `false` for the divide fault.
unfoldable pub aam : ℕ → Registers → Bool × Registers
aam base r =
    let al = reg8 0 r in
    let f = record (r.eflags) { cf = false; oflag = false; af = false } in
    let digits = set_reg8 0 (al % base) (set_reg8 4 (al / base) r) in
    if base == 0
    then (false, record r { eflags = fault_flags al r.eflags })
    else (true, record digits { eflags = set_szp 0x80 (al % base) f })

unfoldable pub aad : ℕ → Registers → Registers
aad base r =
    let al = u8 (reg8 0 r + u8 (reg8 4 r * base)) in
    let f = record (r.eflags) { cf = false; oflag = false; af = false } in
    record (set_reg16 0 al r) { eflags = set_szp 0x80 al f }
