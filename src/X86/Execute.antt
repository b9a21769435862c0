-- ===== src/X86/Execute.antt =====
-- x86/execute.rs: the helpers of `dispatch`. The source has each at 8 and at 16 bits; here the width is
-- an argument. A method that runs the arithmetic unit is `compute`.
pub mod Arith
pub mod Moves
pub mod Strings
pub mod Control
pub mod Groups
pub mod Dispatch
use remu.Prelude.{
  ℕ, ◌+◌, ◌-◌, ◌*◌, ◌/◌, ◌%◌, Bool, true, false, not, ◌&&◌, ◌||◌, xor, Option, none, some, ◌==◌,
  if◌then◌else◌, u8, u16, word, bit_and,
}
use remu.Prelude.State.{Method, pure, ◌>>=◌, ◌>>◌, gets}
use remu.X86.Registers.{Flags, Registers, reg8, set_reg8, reg16, set_reg16}
use remu.X86.Width.{Width, byte, wide}
use remu.X86.Alu.{add, or, adc, sbb, and, sub, exclusive_or, rol, ror, rcl, rcr, shl, shr, sar}
use remu.X86.Bus.{Bus}
use remu.X86.Cpu.{Cpu, Machine, unwrap_or, modify_regs, get_regs, read16, fetch_byte, fetch_word}
use remu.X86.Modrm.{
  Operand, reg_operand, mem_operand, is_mem, reg, modrm, read_op8, read_op16, write_op8, write_op16,
}

-- `ALU8` and `ALU16`
abbrev pub alu : Width → ℕ → ℕ → ℕ → Flags → ℕ × Flags
alu w n =
    if n == 0
    then add w
    else if n == 1
    then or w
    else if n == 2
    then adc w
    else if n == 3
    then sbb w
    else if n == 4
    then and w
    else if n == 5
    then sub w
    else if n == 6
    then exclusive_or w
    else sub w

unfoldable pub cond : ℕ → Flags → Bool
cond n f =
    let k = n / 2 in
    let r =
      if k == 0
      then f.oflag
      else if k == 1
      then f.cf
      else if k == 2
      then f.zf
      else if k == 3
      then f.cf || f.zf
      else if k == 4
      then f.sf
      else if k == 5
      then f.pf
      else if k == 6
      then xor f.sf f.oflag
      else f.zf || xor f.sf f.oflag in
    xor r (n % 2 == 1)

-- The register of a width.
abbrev pub reg_of : Width → ℕ → Registers → ℕ
reg_of byte i r = reg8 i r
reg_of wide i r = reg16 i r

abbrev pub set_reg_of : Width → ℕ → ℕ → Registers → Registers
set_reg_of byte i v r = set_reg8 i v r
set_reg_of wide i v r = set_reg16 i v r

-- `setmo8` and `setmo16`
unfoldable pub setmo : Width → ℕ → ℕ → Flags → ℕ × Flags
setmo byte v count f = if count == 0 then (v, f) else or byte 0xFF 0xFF f
setmo wide v count f = if count == 0 then (v, f) else or wide 0xFFFF 0xFFFF f

-- The operation of a shift group.
abbrev pub shift : Width → ℕ → ℕ → ℕ → Flags → ℕ × Flags
shift w n =
    if n == 0
    then rol w
    else if n == 1
    then ror w
    else if n == 2
    then rcl w
    else if n == 3
    then rcr w
    else if n == 4
    then shl w
    else if n == 5
    then shr w
    else if n == 6
    then setmo w
    else sar w

abbrev pub shift_cycles : Bool → Option ℕ → ℕ → ℕ
shift_cycles false none ea = 2
shift_cycles true none ea = 15 + ea
shift_cycles false (some n) ea = 8 + 4 * n
shift_cycles true (some n) ea = 20 + ea + 4 * n

module _ {S : Type 0} where
  -- An operation of the arithmetic unit, on the flags of `self`.
  unfoldable pub compute : (Flags → ℕ × Flags) → Method (Machine S) ℕ
  compute op m =
      let (r, f) = op m.cpu.regs.flags in
      (r, record m { cpu = record (m.cpu) { regs = record (m.cpu.regs) { flags = f } } })

  unfoldable pub get_cpu : Method (Machine S) Cpu
  get_cpu m = (m.cpu, m)

  -- `if op.is_mem() { mem + self.ea_cycles } else { reg }`
  unfoldable pub timed : Operand → ℕ → ℕ → Method (Machine S) ℕ
  timed op mem other = do c ← get_cpu; pure (if is_mem op then mem + c.ea_cycles else other)

  -- The register is written back unless the operation only compares.
  abbrev pub write_reg : Width → Bool → ℕ → ℕ → Method (Machine S) (Unit {0})
  write_reg w wb i v = modify_regs (λ r. if wb then set_reg_of w i v r else r)

  module _ ⦃b : Bus S⦄ where
    abbrev pub read_op : Width → Operand → Method (Machine S) ℕ
    read_op byte op = read_op8 op
    read_op wide op = read_op16 op

    abbrev pub write_op : Width → Operand → ℕ → Method (Machine S) (Unit {0})
    write_op byte op v = write_op8 op v
    write_op wide op v = write_op16 op v

    abbrev pub fetch : Width → Method (Machine S) ℕ
    fetch byte = fetch_byte
    fetch wide = fetch_word

    abbrev pub write_back : Width → Bool → Operand → ℕ → Method (Machine S) (Unit {0})
    write_back w true op v = write_op w op v
    write_back w false op v = pure tt

    unfoldable pub op_rm_r : Width → (ℕ → ℕ → Flags → ℕ × Flags) → Bool → Method (Machine S) ℕ
    op_rm_r w f wb = do
      (m, op) ← modrm
      a ← read_op w op
      q ← get_regs
      r ← compute (f a (reg_of w (reg m) q))
      write_back w wb op r
      timed op (if wb then 16 else 9) 3

    unfoldable pub op_r_rm : Width → (ℕ → ℕ → Flags → ℕ × Flags) → Bool → Method (Machine S) ℕ
    op_r_rm w f wb = do
      (m, op) ← modrm
      q ← get_regs
      v ← read_op w op
      r ← compute (f (reg_of w (reg m) q) v)
      write_reg w wb (reg m) r
      timed op 9 3

    unfoldable pub far_operand : Operand → Method (Machine S) (ℕ × ℕ)
    far_operand (mem_operand s off) = do o ← read16 s off; t ← read16 s (u16 (off + 2)); pure (o, t)
    far_operand (reg_operand i) = do r ← get_regs; pure (reg16 i r, r.cs)

    unfoldable pub shift_grp : Width → Option ℕ → Method (Machine S) ℕ
    shift_grp w count = do
      (m, op) ← modrm
      v ← read_op w op
      r ← compute (shift w (reg m) v (unwrap_or count 1))
      write_op w op r
      c ← get_cpu
      pure (shift_cycles (is_mem op) count c.ea_cycles)

    -- Port accesses.
    unfoldable pub io_read : ℕ → Method (Machine S) ℕ
    io_read port m = let (v, t) = b.io_read port m.bus in (v, record m { bus = t })

    unfoldable pub io_write : ℕ → ℕ → Method (Machine S) (Unit {0})
    io_write port value m = (tt, record m { bus = b.io_write port value m.bus })

    unfoldable pub io_read16 : ℕ → Method (Machine S) ℕ
    io_read16 port = do lo ← io_read port; hi ← io_read (u16 (port + 1)); pure (word lo hi)

    unfoldable pub io_write16 : ℕ → ℕ → Method (Machine S) (Unit {0})
    io_write16 port v = do io_write port (u8 v); io_write (u16 (port + 1)) (u8 (v / 256))
