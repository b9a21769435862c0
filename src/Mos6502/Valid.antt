-- ===== src/Mos6502/Valid.antt =====
-- The invariant of the processor, and the rules by which a method keeps it.
pub mod Access
pub mod Resolve
pub mod Alu
pub mod Execute
pub mod Step
use remu.Prelude.{ℕ, ◌^◌, ◌<◌, ◌≡◌, true, false, arith}
use remu.Bus.{Bus, ByteBus}
use remu.Mos6502.Registers.{Status, Registers}
use remu.Mos6502.Cpu.{Cpu, Machine, Method, pure, ◌>>=◌, get_regs, modify, modify_regs}

-- Every register is in range, and the two flags that are no storage have their fixed values.
pub record IsValidRegisters (r : Registers) : Type 0 where
  pub a : r.a < 256
  pub x : r.x < 256
  pub y : r.y < 256
  pub sp : r.sp < 256
  pub pc : r.pc < 65536
  pub unused : r.p.u ≡ true
  pub no_break : r.p.b ≡ false

-- What instructions leave alone: the cycle count, which `step` advances, and the input lines.
pub record SameLines (c d : Cpu) : Type 0 where
  pub cycles : d.cycles ≡ c.cycles
  pub nmi_pending : d.nmi_pending ≡ c.nmi_pending
  pub prev_nmi : d.prev_nmi ≡ c.prev_nmi
  pub irq_line : d.irq_line ≡ c.irq_line

-- The bus laws, and the processor as it was at the start.
pub record Context {S : Type 0} (b : Bus S) : Type 1 where
  pub laws : ByteBus b
  pub open laws use *
  pub origin : Cpu

pub record IsValid {S : Type 0} {b : Bus S} (laws : ByteBus b) (m : Machine S) : Type 0 where
  pub regs : IsValidRegisters m.cpu.regs
  pub cycles : m.cpu.cycles < 2 ^ 64
  pub bus : laws.Holds m.bus

module _ {S : Type 0} ⦃b : Bus S⦄ (ctx : Context b) where
  -- Valid, with the lines of the start.
  pub record Within (m : Machine S) : Type 0 where
    pub regs : IsValidRegisters m.cpu.regs
    pub same : SameLines ctx.origin m.cpu
    pub bus : ctx.Holds m.bus

  -- From such a machine the method leads to one, with a result for which `P` holds.
  pub record Keeps {A : Type 0} (P : A → Type 0) (f : Method S A) : Type 0 where
    pub result : (m : Machine S) → Within m → P (f m).0
    pub valid : (m : Machine S) → Within m → Within (f m).1

  pub Keeps-pure : {A : Type 0} (P : A → Type 0) (a : A) → P a → Keeps P (pure a)
  unfolding pure
  Keeps-pure P a h = record { result = λ m v. h; valid = λ m v. v }

  pub Keeps-bind :
      {A B : Type 0} {P : A → Type 0} {Q : B → Type 0} {f : Method S A} {k : A → Method S B}
      → Keeps P f
      → ((a : A) → P a → Keeps Q (k a))
      → Keeps Q (f >>= k)
  unfolding ◌>>=◌
  Keeps-bind h g = record {
    result = λ m v. (g _ (h.result m v)).result _ (h.valid m v);
    valid = λ m v. (g _ (h.result m v)).valid _ (h.valid m v);
  }

  pub Keeps-get_regs : Keeps IsValidRegisters get_regs
  unfolding get_regs
  Keeps-get_regs = record { result = λ m v. v.regs; valid = λ m v. v }

  pub Keeps-modify_regs :
      (f : Registers → Registers)
      → ((r : Registers) → IsValidRegisters r → IsValidRegisters (f r))
      → Keeps (λ _. Unit {0}) (modify_regs f)
  unfolding modify_regs
  Keeps-modify_regs f h = record {
    result = λ m v. tt;
    valid = λ m v. record { regs = h m.cpu.regs v.regs; same = ground arith; bus = v.bus };
  }

  pub Keeps-halt : Keeps (λ _. Unit {0}) (modify (λ c. record c { halted = true }))
  unfolding modify
  Keeps-halt = record {
    result = λ m v. tt;
    valid = λ m v. record { regs = v.regs; same = ground arith; bus = v.bus };
  }
