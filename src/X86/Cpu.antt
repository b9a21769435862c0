-- ===== src/X86/Cpu.antt =====
-- x86/mod.rs: the processor, its memory accesses, the stack and the interrupts. A method with a bus is
-- a command over a `Machine`.
use remu.Prelude.{
  ℕ, ◌+◌, ◌*◌, ◌/◌, Bool, true, false, Option, none, some, u8, u16, sub16, word, bit_and,
}
use remu.Prelude.State.{Method, pure, ◌>>=◌, ◌>>◌}
use remu.X86.Registers.{Registers, power_on, to_word, seg}
use remu.X86.Bus.{Bus}

abbrev pub interrupt_cycles : ℕ
interrupt_cycles = 61

pub record Cpu : Type 0 where
  pub regs : Registers
  pub cycles : ℕ
  pub halted : Bool
  pub nmi_pending : Bool
  pub intr : Option ℕ
  pub inhibit_interrupts : Bool
  pub seg_override : Option ℕ
  pub rep : Option Bool
  pub ea_cycles : ℕ

-- `Cpu::new`
abbrev pub new_cpu : Cpu
new_cpu = record {
  regs = power_on;
  cycles = 0;
  halted = false;
  nmi_pending = false;
  intr = none;
  inhibit_interrupts = false;
  seg_override = none;
  rep = none;
  ea_cycles = 0;
}

unfoldable pub reset : Cpu → Cpu
reset c = record c {
  regs = power_on;
  halted = false;
  nmi_pending = false;
  intr = none;
  inhibit_interrupts = false;
}

-- The interrupt lines.
unfoldable pub trigger_nmi : Cpu → Cpu
trigger_nmi c = record c { nmi_pending = true }

unfoldable pub assert_intr : ℕ → Cpu → Cpu
assert_intr vector c = record c { intr = some vector }

unfoldable pub clear_intr : Cpu → Cpu
clear_intr c = record c { intr = none }

-- `(((seg as u32) << 4) + off as u32) & 0xF_FFFF`
unfoldable pub phys : ℕ → ℕ → ℕ
phys s off = bit_and (s * 16 + off) 0xFFFFF

-- The segment of a data access.
abbrev pub unwrap_or : Option ℕ → ℕ → ℕ
unwrap_or none d = d
unwrap_or (some x) d = x

unfoldable pub seg_or : ℕ → Cpu → ℕ
seg_or default c = seg (unwrap_or c.seg_override default) c.regs

pub record Machine (S : Type 0) : Type 0 where
  pub cpu : Cpu
  pub bus : S

module _ {S : Type 0} where
  -- Assignments to fields of `self`.
  unfoldable pub modify_cpu : (Cpu → Cpu) → Method (Machine S) (Unit {0})
  modify_cpu f m = (tt, record m { cpu = f m.cpu })

  unfoldable pub modify_regs : (Registers → Registers) → Method (Machine S) (Unit {0})
  modify_regs f m = (tt, record m { cpu = record (m.cpu) { regs = f m.cpu.regs } })

  unfoldable pub get_regs : Method (Machine S) Registers
  get_regs m = (m.cpu.regs, m)

  module _ ⦃b : Bus S⦄ where
    unfoldable pub read8 : ℕ → ℕ → Method (Machine S) ℕ
    read8 s off m = let (v, t) = b.read (phys s off) m.bus in (v, record m { bus = t })

    unfoldable pub write8 : ℕ → ℕ → ℕ → Method (Machine S) (Unit {0})
    write8 s off value m = (tt, record m { bus = b.write (phys s off) value m.bus })

    unfoldable pub read16 : ℕ → ℕ → Method (Machine S) ℕ
    read16 s off = do lo ← read8 s off; hi ← read8 s (u16 (off + 1)); pure (word lo hi)

    unfoldable pub write16 : ℕ → ℕ → ℕ → Method (Machine S) (Unit {0})
    write16 s off value = do write8 s off (u8 value); write8 s (u16 (off + 1)) (u8 (value / 256))

    unfoldable pub fetch_byte : Method (Machine S) ℕ
    fetch_byte = do
      r ← get_regs
      v ← read8 r.cs r.ip
      modify_regs (λ q. record q { ip = u16 (q.ip + 1) })
      pure v

    unfoldable pub fetch_word : Method (Machine S) ℕ
    fetch_word = do lo ← fetch_byte; hi ← fetch_byte; pure (word lo hi)

    unfoldable pub push16 : ℕ → Method (Machine S) (Unit {0})
    push16 value = do
      modify_regs (λ r. record r { sp = sub16 r.sp 2 })
      r ← get_regs
      write16 r.ss r.sp value

    unfoldable pub pop16 : Method (Machine S) ℕ
    pop16 = do
      r ← get_regs
      v ← read16 r.ss r.sp
      modify_regs (λ q. record q { sp = u16 (q.sp + 2) })
      pure v

    unfoldable pub interrupt : ℕ → Method (Machine S) (Unit {0})
    interrupt vector = do
      r ← get_regs
      push16 (to_word r.flags)
      modify_regs (λ q. record q { flags = record (q.flags) { iflag = false; tf = false } })
      c ← get_regs
      push16 c.cs
      i ← get_regs
      push16 i.ip
      let base = u16 (vector * 4)
      ip ← read16 0 base
      modify_regs (λ q. record q { ip = ip })
      cs ← read16 0 (u16 (base + 2))
      modify_regs (λ q. record q { cs = cs })
