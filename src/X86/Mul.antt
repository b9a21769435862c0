-- ===== src/X86/Mul.antt =====
-- x86/alu.rs: `mul8`, `mul16`, `imul8` and `imul16`. A signed number of `w` bits is its word modulo
-- 2 ^ w, so an extension adds the high bits and a product is taken modulo the wider width.
use remu.Prelude.{ℕ, ◌+◌, ◌*◌, ◌/◌, ◌%◌, ◌^◌, not, leb, ◌==◌, if◌then◌else◌, u8, u16, bit_and}
use remu.X86.Registers.{Registers}
use remu.X86.Width.{byte, wide, set_szp}

unfoldable pub mul8 : ℕ → Registers → Registers
mul8 v r =
    let p = u8 r.ax * v in
    let hi = not (bit_and p 0xFF00 == 0) in
    record r { ax = p; flags = set_szp byte (u8 p) (record (r.flags) { cf = hi; oflag = hi }) }

unfoldable pub mul16 : ℕ → Registers → Registers
mul16 v r =
    let p = r.ax * v in
    let dx = u16 (p / 65536) in
    let hi = not (dx == 0) in
    record r {
      ax = u16 p;
      dx = dx;
      flags = set_szp wide (u16 p) (record (r.flags) { cf = hi; oflag = hi });
    }

-- `v as i8 as i16` and `v as i16 as i32`
abbrev pub extend8 : ℕ → ℕ
extend8 v = if leb 0x80 v then v + 0xFF00 else v

abbrev pub extend16 : ℕ → ℕ
extend16 v = if leb 0x8000 v then v + 0xFFFF0000 else v

unfoldable pub imul8 : ℕ → Registers → Registers
imul8 v r =
    let p = u16 (extend8 (u8 r.ax) * extend8 v) in
    let over = not (p == extend8 (u8 p)) in
    record r { ax = p; flags = set_szp byte (u8 p) (record (r.flags) { cf = over; oflag = over }) }

unfoldable pub imul16 : ℕ → Registers → Registers
imul16 v r =
    let p = extend16 r.ax * extend16 v % 2 ^ 32 in
    let over = not (p == extend16 (u16 p)) in
    record r {
      ax = u16 p;
      dx = p / 65536;
      flags = set_szp wide (u16 p) (record (r.flags) { cf = over; oflag = over });
    }
