-- ===== src/Mos6502/Step.antt =====
-- cpu/dispatch.rs and `Cpu::step` of cpu/mod.rs: one instruction, or one interrupt.
use remu.Prelude.{ℕ, ◌+◌, not, ◌&&◌, false, if◌then◌else◌, u64}
use remu.Bus.{Bus}
use remu.Mos6502.Cpu.{
  Cpu, Method, pure, ◌>>=◌, ◌>>◌, get_cpu, modify, fetch_byte, service_interrupt, nmi_vector,
  irq_vector, interrupt_cycles,
}
use remu.Mos6502.Addressing.{Operand, resolve}
use remu.Mos6502.Info.{OpInfo}
use remu.Mos6502.Opcodes.{decode}
use remu.Mos6502.Execute.{execute}

abbrev pub penalty : OpInfo → Operand → ℕ
penalty info operand = if info.page_penalty && operand.page_crossed then 1 else 0

-- `self.cycles += n as u64`
abbrev pub add_cycles : ℕ → Cpu → Cpu
add_cycles n c = record c { cycles = u64 (c.cycles + n) }

module _ {S : Type 0} ⦃b : Bus S⦄ where
  unfoldable pub exec_info : OpInfo → Method S ℕ
  exec_info info = do
    operand ← resolve info.mode
    extra ← execute info operand
    pure (info.cycles + penalty info operand + extra)

  -- `dispatch`, whose arm for each opcode is `exec` at that opcode.
  unfoldable pub exec : ℕ → Method S ℕ
  unfolding exec_info
  exec opcode = exec_info (decode opcode)

  unfoldable pub interrupt : ℕ → Method S ℕ
  interrupt vector = do
    service_interrupt vector false
    modify (add_cycles interrupt_cycles)
    pure interrupt_cycles

  unfoldable pub instruction : Method S ℕ
  instruction = do
    opcode ← fetch_byte
    cycles ← exec opcode
    modify (add_cycles cycles)
    pure cycles

  -- What `step` does unless the processor is halted.
  unfoldable pub running : Cpu → Method S ℕ
  running c =
      if c.nmi_pending
      then (do modify (λ c. record c { nmi_pending = false }); interrupt nmi_vector)
      else if c.irq_line && not c.regs.p.i
      then interrupt irq_vector
      else instruction

  unfoldable pub step : Method S ℕ
  step = do c ← get_cpu; if c.halted then pure 0 else running c
