-- ===== src/X86/Modrm.antt =====
-- x86/modrm.rs: the ModRM byte, effective addresses, and access to operands.
use remu.Prelude.{ℕ, ◌+◌, ◌/◌, Bool, true, false, ◌&&◌, ◌==◌, if◌then◌else◌, u16, bit_and}
use remu.Prelude.State.{Method, pure, ◌>>=◌, ◌>>◌, gets}
use remu.X86.Registers.{Registers, reg_ds, reg_ss, reg8, set_reg8, reg16, set_reg16}
use remu.X86.Bus.{Bus}
use remu.X86.Mul.{extend8}
use remu.X86.Cpu.{
  Cpu, Machine, seg_or, modify_cpu, modify_regs, get_regs, read8, write8, read16, write16,
  fetch_byte, fetch_word,
}

-- The fields of a ModRM byte, `ModRm`.
abbrev pub md : ℕ → ℕ
md m = m / 64

abbrev pub reg : ℕ → ℕ
reg m = bit_and (m / 8) 7

abbrev pub rm : ℕ → ℕ
rm m = bit_and m 7

pub data Operand : Type 0 where
  reg_operand : ℕ → Operand
  mem_operand : ℕ → ℕ → Operand

abbrev pub is_mem : Operand → Bool
is_mem (reg_operand i) = false
is_mem (mem_operand s off) = true

-- The base and index of an `rm` field, the default segment and the cycles.
unfoldable pub base_of : ℕ → Registers → ℕ × ℕ × ℕ
base_of n r =
    if n == 0
    then (u16 (r.bx + r.si), reg_ds, 7)
    else if n == 1
    then (u16 (r.bx + r.di), reg_ds, 8)
    else if n == 2
    then (u16 (r.bp + r.si), reg_ss, 8)
    else if n == 3
    then (u16 (r.bp + r.di), reg_ss, 7)
    else if n == 4
    then (r.si, reg_ds, 5)
    else if n == 5
    then (r.di, reg_ds, 5)
    else if n == 6
    then (r.bp, reg_ss, 5)
    else (r.bx, reg_ds, 5)

module _ {S : Type 0} where
  abbrev set_ea_cycles : ℕ → Method (Machine S) (Unit {0})
  set_ea_cycles n = modify_cpu (λ c. record c { ea_cycles = n })

  abbrev get_cpu : Method (Machine S) Cpu
  get_cpu = gets (λ m. m.cpu)

  module _ ⦃b : Bus S⦄ where
    -- The three ways a ModRM byte goes on.
    unfoldable pub direct : ℕ → Method (Machine S) (ℕ × Operand)
    direct m = do
      off ← fetch_word
      set_ea_cycles 6
      c ← get_cpu
      pure (m, mem_operand (seg_or reg_ds c) off)

    unfoldable pub displacement : ℕ → Method (Machine S) ℕ
    displacement m =
        if md m == 0
        then pure 0
        else if md m == 1
        then (do d ← fetch_byte; pure (extend8 d))
        else fetch_word

    unfoldable pub indexed : ℕ → Method (Machine S) (ℕ × Operand)
    indexed m = do
      disp ← displacement m
      c ← get_cpu
      let base = base_of (rm m) c.regs
      set_ea_cycles (if md m == 0 then base.2 else base.2 + 4)
      d ← get_cpu
      pure (m, mem_operand (seg_or base.1 d) (u16 (base.0 + disp)))

    unfoldable pub resolve : ℕ → Method (Machine S) (ℕ × Operand)
    resolve m =
        if md m == 3
        then (do set_ea_cycles 0; pure (m, reg_operand (rm m)))
        else if md m == 0 && rm m == 6
        then direct m
        else indexed m

    unfoldable pub modrm : Method (Machine S) (ℕ × Operand)
    modrm = do m ← fetch_byte; resolve m

    unfoldable pub read_op8 : Operand → Method (Machine S) ℕ
    read_op8 (reg_operand i) = do r ← get_regs; pure (reg8 i r)
    read_op8 (mem_operand s off) = read8 s off

    unfoldable pub write_op8 : Operand → ℕ → Method (Machine S) (Unit {0})
    write_op8 (reg_operand i) v = modify_regs (set_reg8 i v)
    write_op8 (mem_operand s off) v = write8 s off v

    unfoldable pub read_op16 : Operand → Method (Machine S) ℕ
    read_op16 (reg_operand i) = do r ← get_regs; pure (reg16 i r)
    read_op16 (mem_operand s off) = read16 s off

    unfoldable pub write_op16 : Operand → ℕ → Method (Machine S) (Unit {0})
    write_op16 (reg_operand i) v = modify_regs (set_reg16 i v)
    write_op16 (mem_operand s off) v = write16 s off v
