-- ===== src/Mos6502/Valid/Resolve.antt =====
-- The resolution of operands keeps the invariant, and yields a 16-bit address.
use remu.Prelude.{ℕ, ◌+◌, ◌<◌, arith, bit_and, bit_or, u16}
use remu.Prelude.Bits.{bit_or-lt}
use remu.Prelude.Masks.{bit_and-0xff, bit_and-0xff00, word-lt}
use remu.Bus.{Bus}
use remu.Mos6502.Addressing.{
  AddressingMode, implied, accumulator, immediate, zero_page, zero_page_x, zero_page_y, absolute,
  absolute_x, absolute_y, indirect, jsr_absolute, indexed_indirect, indirect_indexed, relative,
  Operand, resolve,
}
use remu.Mos6502.Valid.{Context, Keeps, Keeps-pure, Keeps-bind, Keeps-get_regs, Keeps-modify_regs}
use remu.Mos6502.Valid.Access.{Keeps-read, Keeps-fetch_byte, Keeps-fetch_word}

abbrev pub IsOperand : Operand → Type 0
IsOperand m = m.addr < 65536

-- The address of the high byte, which stays in the page of the pointer.
pub in_page :
    (ptr : ℕ) → ptr < 65536 → bit_or (bit_and ptr 0xFF00) (bit_and (u16 (ptr + 1)) 0x00FF) < 65536
in_page ptr h =
    bit_or-lt 16 _ _ (omega (arith, bit_and-0xff00 ptr))
      (omega (arith, bit_and-0xff (u16 (ptr + 1))))

module _ {S : Type 0} ⦃b : Bus S⦄ (ctx : Context b) where
  pub Keeps-resolve : (mode : AddressingMode) → Keeps ctx IsOperand (resolve mode)
  unfolding resolve
  Keeps-resolve implied = Keeps-pure ctx _ _ (omega arith)
  Keeps-resolve accumulator = Keeps-pure ctx _ _ (omega arith)
  Keeps-resolve jsr_absolute = Keeps-pure ctx _ _ (omega arith)
  Keeps-resolve immediate = Keeps-bind ctx (Keeps-get_regs ctx) λ r hr.
      Keeps-bind ctx (Keeps-modify_regs ctx _ (λ r h. ground arith)) λ _ _. Keeps-pure ctx _ _ hr.pc
  Keeps-resolve zero_page =
      Keeps-bind ctx (Keeps-fetch_byte ctx) λ v h. Keeps-pure ctx _ _ (omega arith)
  Keeps-resolve zero_page_x =
      Keeps-bind ctx (Keeps-fetch_byte ctx)
        λ v h. Keeps-bind ctx (Keeps-get_regs ctx) λ r hr. Keeps-pure ctx _ _ (omega arith)
  Keeps-resolve zero_page_y =
      Keeps-bind ctx (Keeps-fetch_byte ctx)
        λ v h. Keeps-bind ctx (Keeps-get_regs ctx) λ r hr. Keeps-pure ctx _ _ (omega arith)
  Keeps-resolve absolute = Keeps-bind ctx (Keeps-fetch_word ctx) λ v h. Keeps-pure ctx _ _ h
  Keeps-resolve absolute_x =
      Keeps-bind ctx (Keeps-fetch_word ctx)
        λ v h. Keeps-bind ctx (Keeps-get_regs ctx) λ r hr. Keeps-pure ctx _ _ (omega arith)
  Keeps-resolve absolute_y =
      Keeps-bind ctx (Keeps-fetch_word ctx)
        λ v h. Keeps-bind ctx (Keeps-get_regs ctx) λ r hr. Keeps-pure ctx _ _ (omega arith)
  Keeps-resolve indirect = Keeps-bind ctx (Keeps-fetch_word ctx) λ ptr h.
      Keeps-bind ctx (Keeps-read ctx ptr h) λ lo p.
        Keeps-bind ctx (Keeps-read ctx _ (in_page ptr h))
          λ hi q. Keeps-pure ctx _ _ (word-lt lo hi p q)
  Keeps-resolve indexed_indirect = Keeps-bind ctx (Keeps-fetch_byte ctx) λ base h.
      Keeps-bind ctx (Keeps-get_regs ctx) λ r hr.
        Keeps-bind ctx (Keeps-read ctx _ (omega arith)) λ lo p.
          Keeps-bind ctx (Keeps-read ctx _ (omega arith))
            λ hi q. Keeps-pure ctx _ _ (word-lt lo hi p q)
  Keeps-resolve indirect_indexed = Keeps-bind ctx (Keeps-fetch_byte ctx) λ base h.
      Keeps-bind ctx (Keeps-read ctx _ (omega arith)) λ lo p.
        Keeps-bind ctx (Keeps-read ctx _ (omega arith))
          λ hi q. Keeps-bind ctx (Keeps-get_regs ctx) λ r hr. Keeps-pure ctx _ _ (omega arith)
  Keeps-resolve relative =
      Keeps-bind ctx (Keeps-fetch_byte ctx)
        λ v h. Keeps-bind ctx (Keeps-get_regs ctx) λ r hr. Keeps-pure ctx _ _ (omega arith)
