-- ===== src/Mos6502/Cpu.antt =====
-- cpu/mod.rs: the processor, its bus accesses, the stack, interrupts and the input lines.
-- `&mut self` and `&mut B` are the two parts of a `Machine`; a method is a command over it.
use remu.Prelude.{
  ℕ, ◌+◌, ◌/◌, Bool, true, false, not, ◌&&◌, if◌then◌else◌, u8, u16, u64, sub8, not8, word, bit_and,
  bit_or,
}
use remu.Bus.{Bus, read_u16}
use remu.Mos6502.Registers.{Status, Registers, power_on, bits, from_bits}

-- interrupt.rs
abbrev pub nmi_vector : ℕ
nmi_vector = 0xFFFA

abbrev pub reset_vector : ℕ
reset_vector = 0xFFFC

abbrev pub irq_vector : ℕ
irq_vector = 0xFFFE

abbrev pub interrupt_cycles : ℕ
interrupt_cycles = 7

pub record Cpu : Type 0 where
  pub regs : Registers
  pub cycles : ℕ
  pub halted : Bool
  pub nmi_pending : Bool
  pub prev_nmi : Bool
  pub irq_line : Bool

-- `Cpu::new`
abbrev pub new_cpu : Cpu
new_cpu = record {
  regs = power_on;
  cycles = 0;
  halted = false;
  nmi_pending = false;
  prev_nmi = true;
  irq_line = false;
}

pub record Machine (S : Type 0) : Type 0 where
  pub cpu : Cpu
  pub bus : S

-- A method of the processor: it changes the machine and returns a value.
abbrev pub Method : Type 0 → Type 0 → Type 0
Method S A = Machine S → A × Machine S

module _ {S : Type 0} where
  unfoldable pub pure : {A : Type 0} → A → Method S A
  pure a m = (a, m)

  infixl 5 ◌>>=◌ ◌>>◌
  unfoldable pub ◌>>=◌ : {A B : Type 0} → Method S A → (A → Method S B) → Method S B
  ◌>>=◌ f k m = let (a, m') = f m in k a m'

  abbrev pub ◌>>◌ : {B : Type 0} → Method S (Unit {0}) → Method S B → Method S B
  f >> k = f >>= λ _. k

  unfoldable pub get_cpu : Method S Cpu
  get_cpu m = (m.cpu, m)

  unfoldable pub get_regs : Method S Registers
  get_regs m = (m.cpu.regs, m)

  -- An assignment to fields of `self`.
  unfoldable pub modify : (Cpu → Cpu) → Method S (Unit {0})
  modify f m = (tt, record m { cpu = f m.cpu })

  unfoldable pub modify_regs : (Registers → Registers) → Method S (Unit {0})
  unfolding modify
  modify_regs f = modify (λ c. record c { regs = f c.regs })

  abbrev pub set_pc : ℕ → Method S (Unit {0})
  set_pc v = modify_regs (λ r. record r { pc = v })

  abbrev pub set_sp : ℕ → Method S (Unit {0})
  set_sp v = modify_regs (λ r. record r { sp = v })

  abbrev pub set_status : Status → Method S (Unit {0})
  set_status v = modify_regs (λ r. record r { p = v })

  module _ ⦃b : Bus S⦄ where
    unfoldable pub read : ℕ → Method S ℕ
    read addr m = let (v, s) = b.read addr m.bus in (v, record m { bus = s })

    unfoldable pub write : ℕ → ℕ → Method S (Unit {0})
    write addr value m = (tt, record m { bus = b.write addr value m.bus })

    -- `bus.read_u16`, which does not go through the processor.
    unfoldable pub read_vector : ℕ → Method S ℕ
    read_vector addr m = let (v, s) = read_u16 addr m.bus in (v, record m { bus = s })

    unfoldable pub fetch_byte : Method S ℕ
    fetch_byte = do
      r ← get_regs
      v ← read r.pc
      modify_regs (λ r. record r { pc = u16 (r.pc + 1) })
      pure v

    unfoldable pub fetch_word : Method S ℕ
    fetch_word = do lo ← fetch_byte; hi ← fetch_byte; pure (word lo hi)

    -- `0x0100 | sp as u16`
    unfoldable pub push : ℕ → Method S (Unit {0})
    push value = do
      r ← get_regs
      write (bit_or 0x0100 r.sp) value
      modify_regs (λ r. record r { sp = sub8 r.sp 1 })

    unfoldable pub pull : Method S ℕ
    pull = do
      modify_regs (λ r. record r { sp = u8 (r.sp + 1) })
      r ← get_regs
      read (bit_or 0x0100 r.sp)

    unfoldable pub push_status : Bool → Method S (Unit {0})
    push_status with_b = do
      r ← get_regs
      let base = bit_or (bits r.p) 0x20
      push (if with_b then bit_or base 0x10 else bit_and base (not8 0x10))

    unfoldable pub pull_status : Method S (Unit {0})
    pull_status = do v ← pull; set_status (from_bits (bit_and (bit_or v 0x20) (not8 0x10)))

    unfoldable pub service_interrupt : ℕ → Bool → Method S (Unit {0})
    service_interrupt vector with_b = do
      r ← get_regs
      let pc = r.pc
      push (u8 (pc / 256))
      push (u8 pc)
      push_status with_b
      modify_regs (λ r. record r { p = record (r.p) { i = true } })
      v ← read_vector vector
      set_pc v

    unfoldable pub reset : Method S (Unit {0})
    reset = do
      v ← read_vector reset_vector
      set_pc v
      modify_regs (λ r. record r { sp = 0xFD; p = record (r.p) { i = true; u = true } })
      modify (λ c. record c {
        halted = false;
        nmi_pending = false;
        cycles = u64 (c.cycles + interrupt_cycles);
      })

-- The input lines.
unfoldable pub set_nmi : Bool → Cpu → Cpu
set_nmi level c = record c {
  nmi_pending = if c.prev_nmi && not level then true else c.nmi_pending;
  prev_nmi = level;
}

unfoldable pub trigger_nmi : Cpu → Cpu
trigger_nmi c = record c { nmi_pending = true }

unfoldable pub set_irq : Bool → Cpu → Cpu
set_irq level c = record c { irq_line = level }
