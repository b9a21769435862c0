-- ===== src/X86/Step.antt =====
-- x86/mod.rs: `step`. The loop over the prefixes has fuel for every byte of a segment: it is none if
-- all of them are prefixes, where the source goes round for ever.
pub mod Prefixes
mod Tests
use remu.Prelude.{
  ℕ, zero, suc, ◌+◌, Bool, true, false, not, ◌&&◌, Option, none, some, ◌==◌, if◌then◌else◌, u64,
}
use remu.Prelude.State.{Method, pure, ◌>>=◌, ◌>>◌}
use remu.X86.Registers.{Flags, reg_es, reg_cs, reg_ss, reg_ds}
use remu.X86.Bus.{Bus}
use remu.X86.Cpu.{Cpu, Machine, interrupt_cycles, modify_cpu, fetch_byte, interrupt}
use remu.X86.Execute.{get_cpu}
use remu.X86.Execute.Dispatch.{is_prefix, dispatch}

-- The effect of a prefix byte.
unfoldable pub on_prefix : ℕ → Cpu → Cpu
on_prefix p c =
    if p == 0x26
    then record c { seg_override = some reg_es }
    else if p == 0x2E
    then record c { seg_override = some reg_cs }
    else if p == 0x36
    then record c { seg_override = some reg_ss }
    else if p == 0x3E
    then record c { seg_override = some reg_ds }
    else if p == 0xF2
    then record c { rep = some false }
    else if p == 0xF3
    then record c { rep = some true }
    else c

abbrev pub without_prefix : Cpu → Cpu
without_prefix c = record c { seg_override = none; rep = none }

-- Whether the trap comes after an instruction: TF was set, is set, and interrupts are not inhibited.
abbrev traps : Bool → Cpu → Bool
traps trap c = trap && c.regs.flags.tf && not c.inhibit_interrupts

module _ {S : Type 0} where
  abbrev pub with_cpu : (Cpu → Cpu) → Machine S → Machine S
  with_cpu f m = record m { cpu = f m.cpu }

  abbrev pub add_cycles : ℕ → Method (Machine S) (Unit {0})
  add_cycles n = modify_cpu (λ c. record c { cycles = u64 (c.cycles + n) })

  module _ ⦃b : Bus S⦄ where
    -- The opcode behind the prefixes, with their cycles.
    unfoldable pub fetch_opcode : ℕ → ℕ → Machine S → Option (ℕ × ℕ × Machine S)
    fetch_opcode zero cycles m = none
    fetch_opcode (suc n) cycles m =
        let (p, next) = fetch_byte m in
        let rest = fetch_opcode n (cycles + 2) (with_cpu (on_prefix p) next) in
        if is_prefix p then rest else some (p, cycles, next)

    unfoldable pub service : (Cpu → Cpu) → ℕ → Method (Machine S) ℕ
    service acknowledge vector = do
      modify_cpu (λ c. record (acknowledge c) { halted = false })
      interrupt vector
      add_cycles interrupt_cycles
      pure interrupt_cycles

    -- The end of an instruction.
    unfoldable pub finish : Bool → ℕ → Method (Machine S) ℕ
    finish trap cycles m =
        if traps trap m.cpu
        then (do
          interrupt 1
          add_cycles (cycles + interrupt_cycles)
          pure (cycles + interrupt_cycles))
            m
        else (do add_cycles cycles; pure cycles) m

    abbrev pub finished : Bool → ℕ → Option (ℕ × Machine S) → Option (ℕ × Machine S)
    finished trap cycles none = none
    finished trap cycles (some (n, m)) = some (finish trap (cycles + n) m)

    abbrev pub dispatched : Bool → Option (ℕ × ℕ × Machine S) → Option (ℕ × Machine S)
    dispatched trap none = none
    dispatched trap (some (op, cycles, m)) = finished trap cycles (dispatch op m)

    unfoldable pub instruction : Machine S → Option (ℕ × Machine S)
    instruction m =
        dispatched m.cpu.regs.flags.tf (fetch_opcode 0x10000 0 (with_cpu without_prefix m))

    -- A cycle of a halted processor.
    abbrev pub idle : Method (Machine S) ℕ
    idle = do add_cycles 1; pure 1

    -- The step of a machine whose interrupts are not taken.
    unfoldable pub running : Machine S → Option (ℕ × Machine S)
    running m = if m.cpu.halted then some (idle m) else instruction m

    abbrev pub on_intr : Option ℕ → Bool → Machine S → Option (ℕ × Machine S)
    on_intr none enabled m = running m
    on_intr (some vector) enabled m =
        if enabled then some (service (λ c. record c { intr = none }) vector m) else running m

    unfoldable pub step : Machine S → Option (ℕ × Machine S)
    step m =
        let next = with_cpu (λ c. record c { inhibit_interrupts = false }) m in
        if m.cpu.inhibit_interrupts
        then running next
        else if m.cpu.nmi_pending
        then some (service (λ c. record c { nmi_pending = false }) 2 next)
        else on_intr m.cpu.intr m.cpu.regs.flags.iflag next
