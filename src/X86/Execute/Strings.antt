-- ===== src/X86/Execute/Strings.antt =====
-- x86/execute.rs: the string primitives and `rep_str`.
pub mod Repeat
use remu.Prelude.{
  ℕ, zero, suc, ◌+◌, ◌-◌, ◌*◌, ◌/◌, ◌%◌, Bool, true, false, not, ◌&&◌, ◌||◌, xor, Option, none,
  some, ltb, leb, ◌==◌, if◌then◌else◌, u8, u16, sub16, word, bit_and, bit_or, test,
}
use remu.Prelude.State.{Method, pure, ◌>>=◌, ◌>>◌, gets}
use remu.X86.Registers.{
  Flags, Registers, reg_es, reg_cs, reg_ss, reg_ds, reg8, set_reg8, reg16, set_reg16, seg, set_seg,
  bits, to_word, from_word,
}
use remu.X86.Width.{Width, byte, wide, modulus}
use remu.X86.Alu.{add, or, adc, sbb, and, sub, exclusive_or, inc, dec, neg}
use remu.X86.Bus.{Bus}
use remu.X86.Mul.{extend8, mul8, mul16, imul8, imul16}
use remu.X86.Bcd.{daa, das, aaa, aas, aad}
use remu.X86.Div.{div8, div16, aam, complement}
use remu.X86.Cpu.{
  Cpu, Machine, seg_or, modify_cpu, modify_regs, get_regs, read8, write8, read16, write16,
  fetch_byte, fetch_word, push16, pop16, interrupt,
}
use remu.X86.Modrm.{
  Operand, reg_operand, mem_operand, is_mem, reg, modrm, read_op8, read_op16, write_op8, write_op16,
}
use remu.X86.Execute.{
  alu, cond, reg_of, set_reg_of, compute, get_cpu, timed, write_reg, read_op, write_op, fetch,
  write_back, op_rm_r, op_r_rm, far_operand, shift_grp, io_read, io_write, io_read16, io_write16,
}

-- `self.delta(n)`, and an index register moved by it.
unfoldable pub delta : ℕ → Registers → ℕ
delta n r = if r.flags.df then u16 (0x10000 - n) else n

abbrev pub advance_si : ℕ → Registers → Registers
advance_si d r = record r { si = u16 (r.si + d) }

abbrev pub advance_di : ℕ → Registers → Registers
advance_di d r = record r { di = u16 (r.di + d) }

-- The size of an element.
abbrev pub size : Width → ℕ
size byte = 1
size wide = 2

-- Whether the repetition of a comparison ends.
abbrev pub ends : Bool → Bool → Registers → Bool
ends cmp cont r = cmp && xor r.flags.zf cont

module _ {S : Type 0} ⦃b : Bus S⦄ where
  unfoldable pub movs : Width → Method (Machine S) (Unit {0})
  movs w = do
    c ← get_cpu
    let d = delta (size w) c.regs
    v ← read_op w (mem_operand (seg_or reg_ds c) c.regs.si)
    write_op w (mem_operand c.regs.es c.regs.di) v
    modify_regs (λ r. advance_di d (advance_si d r))

  unfoldable pub cmps : Width → Method (Machine S) (Unit {0})
  cmps w = do
    c ← get_cpu
    let d = delta (size w) c.regs
    x ← read_op w (mem_operand (seg_or reg_ds c) c.regs.si)
    y ← read_op w (mem_operand c.regs.es c.regs.di)
    z ← compute (sub w x y)
    modify_regs (λ r. advance_di d (advance_si d r))

  unfoldable pub stos : Width → Method (Machine S) (Unit {0})
  stos w = do
    r ← get_regs
    write_op w (mem_operand r.es r.di) (reg_of w 0 r)
    modify_regs (advance_di (delta (size w) r))

  unfoldable pub lods : Width → Method (Machine S) (Unit {0})
  lods w = do
    c ← get_cpu
    v ← read_op w (mem_operand (seg_or reg_ds c) c.regs.si)
    modify_regs (set_reg_of w 0 v)
    modify_regs (advance_si (delta (size w) c.regs))

  unfoldable pub scas : Width → Method (Machine S) (Unit {0})
  scas w = do
    r ← get_regs
    y ← read_op w (mem_operand r.es r.di)
    z ← compute (sub w (reg_of w 0 r) y)
    modify_regs (advance_di (delta (size w) r))

  -- The end of a round: CX counts down.
  abbrev pub count_down : Method (Machine S) (Unit {0})
  count_down = modify_regs (λ r. record r { cx = sub16 r.cx 1 })

  -- The loop with the cycles so far. It needs as many rounds as CX says; out of fuel it is none.
  unfoldable pub rep_loop :
      ℕ → Method (Machine S) (Unit {0}) → Bool → Bool → ℕ → ℕ → Machine S → Option (ℕ × Machine S)
  rep_loop zero one cmp cont per cycles m = if m.cpu.regs.cx == 0 then some (cycles, m) else none
  rep_loop (suc n) one cmp cont per cycles m =
      let next = ((one >> count_down) m).1 in
      let rest = rep_loop n one cmp cont per (cycles + per) next in
      if m.cpu.regs.cx == 0
      then some (cycles, m)
      else if ends cmp cont next.cpu.regs
      then some (cycles + per, next)
      else rest

  -- Without a prefix, once.
  abbrev pub repeated :
      Option Bool
      → Method (Machine S) (Unit {0})
      → Bool
      → ℕ
      → ℕ
      → Machine S
      → Option (ℕ × Machine S)
  repeated none one cmp base per m = some (base, (one m).1)
  repeated (some cont) one cmp base per m = rep_loop m.cpu.regs.cx one cmp cont per 9 m

  unfoldable pub rep_str :
      Method (Machine S) (Unit {0}) → Bool → ℕ → ℕ → Machine S → Option (ℕ × Machine S)
  rep_str one cmp base per m = repeated m.cpu.rep one cmp base per m

  unfoldable pub string : ℕ → Machine S → Option (ℕ × Machine S)
  string opcode =
      let w = if opcode % 2 == 0 then byte else wide in
      let n = opcode / 2 * 2 in
      if n == 0xA4
      then rep_str (movs w) false 18 17
      else if n == 0xA6
      then rep_str (cmps w) true 22 22
      else if n == 0xAA
      then rep_str (stos w) false 11 10
      else if n == 0xAC
      then rep_str (lods w) false 12 13
      else rep_str (scas w) true 15 15
