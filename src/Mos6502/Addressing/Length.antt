-- ===== src/Mos6502/Addressing/Length.antt =====
-- The length of an instruction: how far the resolution of an operand moves `PC`, and to which
-- addresses the modes lead.
use remu.Prelude.{ℕ, ◌+◌, ◌-◌, ◌<◌, ◌≡◌, ◌≢◌, refl, arith, u16}
use remu.Bus.{Bus}
use remu.Mos6502.Cpu.{
  Cpu, Machine, pure, ◌>>=◌, get_regs, modify_regs, read, fetch_byte, fetch_word,
}
use remu.Mos6502.Addressing.{
  AddressingMode, implied, accumulator, immediate, zero_page, zero_page_x, zero_page_y, absolute,
  absolute_x, absolute_y, indirect, jsr_absolute, indexed_indirect, indirect_indexed, relative,
  length, resolve,
}

abbrev pub with_pc : ℕ → Cpu → Cpu
with_pc pc c = record c { regs = record (c.regs) { pc = pc } }

module _ {S : Type 0} ⦃b : Bus S⦄ where
  one_byte : (m : Machine S) → (fetch_byte m).1.cpu ≡ with_pc (u16 (m.cpu.regs.pc + 1)) m.cpu
  unfolding fetch_byte read ◌>>=◌ get_regs modify_regs pure
  one_byte m = refl

  two_bytes : (m : Machine S) → (fetch_word m).1.cpu ≡ with_pc (u16 (m.cpu.regs.pc + 2)) m.cpu
  unfolding fetch_word fetch_byte read ◌>>=◌ get_regs modify_regs pure
  two_bytes m =
      let e : u16 (u16 (m.cpu.regs.pc + 1) + 1) ≡ u16 (m.cpu.regs.pc + 2) = omega arith in
      λ i. with_pc (e i) m.cpu

  no_byte :
      (m : Machine S) → m.cpu.regs.pc < 65536 → m.cpu ≡ with_pc (u16 (m.cpu.regs.pc + 0)) m.cpu
  no_byte m h =
      let e : m.cpu.regs.pc ≡ u16 (m.cpu.regs.pc + 0) = omega arith in λ i. with_pc (e i) m.cpu

  -- On any bus, with `PC` in range, the resolution of an operand moves `PC` over the operand's bytes, one less than the
  -- instruction's length, and changes nothing else of the processor. `JSR` is the exception, which
  -- fetches its operand itself.
  pub resolve-length :
      (mode : AddressingMode) (m : Machine S)
      → mode ≢ jsr_absolute
      → m.cpu.regs.pc < 65536
      → (resolve mode m).1.cpu ≡ with_pc (u16 (m.cpu.regs.pc + (length mode - 1))) m.cpu
  unfolding resolve length read ◌>>=◌ get_regs modify_regs pure
  resolve-length implied m ne h = no_byte m h
  resolve-length accumulator m ne h = no_byte m h
  resolve-length jsr_absolute m ne h = absurd (ne refl)
  resolve-length immediate m ne h = refl
  resolve-length zero_page m ne h = one_byte m
  resolve-length zero_page_x m ne h = one_byte m
  resolve-length zero_page_y m ne h = one_byte m
  resolve-length indexed_indirect m ne h = one_byte m
  resolve-length indirect_indexed m ne h = one_byte m
  resolve-length relative m ne h = one_byte m
  resolve-length absolute m ne h = two_bytes m
  resolve-length absolute_x m ne h = two_bytes m
  resolve-length absolute_y m ne h = two_bytes m
  resolve-length indirect m ne h = two_bytes m
