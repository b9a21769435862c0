-- ===== src/X86/Execute/Groups.antt =====
-- x86/execute.rs: the groups F6, F7, FE and FF, where the `reg` field selects the operation.
use remu.Prelude.{ℕ, ◌+◌, ◌%◌, Bool, false, not, ◌||◌, Option, ◌==◌, if◌then◌else◌, sub16}
use remu.Prelude.State.{Method, pure, ◌>>=◌, ◌>>◌}
use remu.X86.Registers.{Flags, Registers}
use remu.X86.Width.{Width, byte, wide}
use remu.X86.Alu.{and, inc, dec, neg}
use remu.X86.Bus.{Bus}
use remu.X86.Mul.{mul8, mul16, imul8, imul16}
use remu.X86.Div.{div8, div16, complement}
use remu.X86.Cpu.{Machine, modify_regs, get_regs, push16}
use remu.X86.Modrm.{
  Operand, reg_operand, mem_operand, is_mem, reg, modrm, read_op8, read_op16, write_op8, write_op16,
}
use remu.X86.Execute.{compute, get_cpu, timed, read_op, write_op, fetch, far_operand}
use remu.X86.Execute.Arith.{divided}
use remu.X86.Execute.Control.{call_far, call_near}

abbrev multiply : Width → ℕ → Registers → Registers
multiply byte = mul8
multiply wide = mul16

abbrev multiply_signed : Width → ℕ → Registers → Registers
multiply_signed byte = imul8
multiply_signed wide = imul16

abbrev div_of : Width → Option Bool → ℕ → Bool → Registers → Bool × Registers
div_of byte = div8
div_of wide = div16

-- The cycles of MUL, IMUL, DIV and IDIV on a register.
abbrev slow_cycles : Width → ℕ → ℕ
slow_cycles byte n = if n == 4 then 70 else if n == 5 then 90 else if n == 6 then 85 else 110
slow_cycles wide n = if n == 4 then 118 else if n == 5 then 144 else if n == 6 then 155 else 176

-- `if mem { x + ea } else { y }`, with `ea` from before the operation.
abbrev timing : Operand → ℕ → ℕ → ℕ → ℕ
timing op ea x y = if is_mem op then x + ea else y

abbrev is_sp : Operand → Bool
is_sp (reg_operand i) = i == 4
is_sp (mem_operand s off) = false

module _ {S : Type 0} ⦃b : Bus S⦄ where
  abbrev divide_by : Width → ℕ → Bool → Method (Machine S) (Unit {0})
  divide_by w v signed = do c ← get_cpu; divided (div_of w c.rep v signed)

  abbrev slow : Width → ℕ → ℕ → Method (Machine S) (Unit {0})
  slow w n v =
      if n == 4
      then modify_regs (multiply w v)
      else if n == 5
      then modify_regs (multiply_signed w v)
      else divide_by w v (not (n == 6))

  -- What F6 and F7 do with the value of the operand.
  unfoldable pub unary_of : Width → ℕ → Operand → ℕ → ℕ → Method (Machine S) ℕ
  unary_of w n op v ea =
      if n == 0 || n == 1
      then (do t ← fetch w; r ← compute (and w v t); pure (timing op ea 11 5))
      else if n == 2
      then (do write_op w op (complement w v); pure (timing op ea 16 3))
      else if n == 3
      then (do r ← compute (neg w v); write_op w op r; pure (timing op ea 16 3))
      else (do slow w n v; pure (slow_cycles w n + timing op ea 6 0))

  unfoldable pub unary_group : Width → Method (Machine S) ℕ
  unary_group w = do
    (m, op) ← modrm
    v ← read_op w op
    c ← get_cpu
    unary_of w (reg m) op v c.ea_cycles

  -- FE
  unfoldable pub inc_dec_group : Method (Machine S) ℕ
  inc_dec_group = do
    (m, op) ← modrm
    v ← read_op8 op
    r ← compute (if reg m % 2 == 0 then inc byte v else dec byte v)
    write_op8 op r
    timed op 15 3

  -- FF
  abbrev step_operand : (ℕ → Flags → ℕ × Flags) → Operand → Method (Machine S) (Unit {0})
  step_operand f op = do v ← read_op16 op; r ← compute (f v); write_op16 op r

  abbrev pushed_operand : Operand → Method (Machine S) ℕ
  pushed_operand op = if is_sp op then (do r ← get_regs; pure (sub16 r.sp 2)) else read_op16 op

  unfoldable pub wide_of : ℕ → Operand → ℕ → Method (Machine S) ℕ
  wide_of n op ea =
      if n == 0
      then (do step_operand (inc wide) op; pure (timing op ea 15 3))
      else if n == 1
      then (do step_operand (dec wide) op; pure (timing op ea 15 3))
      else if n == 2
      then (do v ← read_op16 op; call_near v; pure (timing op ea 21 16))
      else if n == 3
      then (do (off, s) ← far_operand op; call_far off s; pure (37 + ea))
      else if n == 4
      then (do v ← read_op16 op; modify_regs (λ r. record r { ip = v }); pure (timing op ea 18 11))
      else if n == 5
      then (do
        (off, s) ← far_operand op
        modify_regs (λ r. record r { cs = s; ip = off })
        pure (24 + ea))
      else (do v ← pushed_operand op; push16 v; pure (timing op ea 16 11))

  unfoldable pub wide_group : Method (Machine S) ℕ
  wide_group = do (m, op) ← modrm; c ← get_cpu; wide_of (reg m) op c.ea_cycles
