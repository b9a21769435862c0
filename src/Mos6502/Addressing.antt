-- ===== src/Mos6502/Addressing.antt =====
-- cpu/addressing.rs: the addressing modes and the resolution of operands.
pub mod Length
use remu.Prelude.{
  ℕ, ◌+◌, Bool, false, not, ltb, ◌==◌, if◌then◌else◌, u8, u16, word, bit_and, bit_or,
}
use remu.Bus.{Bus}
use remu.Mos6502.Cpu.{
  Method, pure, ◌>>=◌, ◌>>◌, get_regs, modify_regs, read, fetch_byte, fetch_word,
}

pub data AddressingMode : Type 0 where
  implied accumulator immediate zero_page zero_page_x zero_page_y : AddressingMode
  absolute absolute_x absolute_y indirect jsr_absolute : AddressingMode
  indexed_indirect indirect_indexed relative : AddressingMode

-- `AddressingMode::length`
unfoldable pub length : AddressingMode → ℕ
length implied = 1
length accumulator = 1
length immediate = 2
length zero_page = 2
length zero_page_x = 2
length zero_page_y = 2
length indexed_indirect = 2
length indirect_indexed = 2
length relative = 2
length absolute = 3
length absolute_x = 3
length absolute_y = 3
length indirect = 3
length jsr_absolute = 3

pub record Operand : Type 0 where
  pub addr : ℕ
  pub page_crossed : Bool

-- `Operand::at`
abbrev pub at : ℕ → Operand
at addr = record { addr = addr; page_crossed = false }

unfoldable pub page_crossed : ℕ → ℕ → Bool
page_crossed a b = not (bit_and a 0xFF00 == bit_and b 0xFF00)

-- An indexed address, with the page penalty.
abbrev pub indexed : ℕ → ℕ → Operand
indexed base index =
    let addr = u16 (base + index) in record { addr = addr; page_crossed = page_crossed base addr }

-- `b as i8 as u16`
abbrev pub sign_extend : ℕ → ℕ
sign_extend b = if ltb b 0x80 then b else b + 0xFF00

module _ {S : Type 0} ⦃b : Bus S⦄ where
  unfoldable pub resolve : AddressingMode → Method S Operand
  resolve implied = pure (at 0)
  resolve accumulator = pure (at 0)
  resolve jsr_absolute = pure (at 0)
  resolve immediate = do
    r ← get_regs
    modify_regs (λ r. record r { pc = u16 (r.pc + 1) })
    pure (at r.pc)
  resolve zero_page = do base ← fetch_byte; pure (at base)
  resolve zero_page_x = do base ← fetch_byte; r ← get_regs; pure (at (u8 (base + r.x)))
  resolve zero_page_y = do base ← fetch_byte; r ← get_regs; pure (at (u8 (base + r.y)))
  resolve absolute = do addr ← fetch_word; pure (at addr)
  resolve absolute_x = do base ← fetch_word; r ← get_regs; pure (indexed base r.x)
  resolve absolute_y = do base ← fetch_word; r ← get_regs; pure (indexed base r.y)
  resolve indirect = do
    ptr ← fetch_word
    lo ← read ptr
    hi ← read (bit_or (bit_and ptr 0xFF00) (bit_and (u16 (ptr + 1)) 0x00FF))
    pure (at (word lo hi))
  resolve indexed_indirect = do
    base ← fetch_byte
    r ← get_regs
    let ptr = u8 (base + r.x)
    lo ← read ptr
    hi ← read (u8 (ptr + 1))
    pure (at (word lo hi))
  resolve indirect_indexed = do
    base ← fetch_byte
    lo ← read base
    hi ← read (u8 (base + 1))
    r ← get_regs
    pure (indexed (word lo hi) r.y)
  resolve relative = do offset ← fetch_byte; r ← get_regs; pure (indexed r.pc (sign_extend offset))
