-- ===== src/Mos6502/Lines.antt =====
-- The input lines: what a sequence of NMI levels latches, and what `step` does first.
use remu.Prelude.{
  ℕ, ◌+◌, ◌<◌, u64, ◌∙◌, ◌≡◌, arith, Bool, true, false, not, ◌&&◌, ◌||◌, List, [], ◌∷◌,
  if◌then◌else◌,
}
use remu.Bus.{Bus}
use remu.Mos6502.Cpu.{Cpu, Machine, ◌>>=◌, pure, get_cpu, modify, set_nmi, nmi_vector, irq_vector}
use remu.Bus.Memory.{IsMemory}
use remu.Mos6502.Stack.{framed, at_vector, service_interrupt_lem}
use remu.Mos6502.Step.{interrupt, running, step}

-- The levels of the line one after another.
abbrev pub set_nmi_levels : List Bool → Cpu → Cpu
set_nmi_levels [] c = c
set_nmi_levels (level ∷ levels) c = set_nmi_levels levels (set_nmi level c)

-- The line falls somewhere in the sequence.
abbrev pub has_edge : Bool → List Bool → Bool
has_edge prev [] = false
has_edge prev (level ∷ levels) = (prev && not level) || has_edge level levels

abbrev pub last_level : Bool → List Bool → Bool
last_level prev [] = prev
last_level prev (level ∷ levels) = last_level level levels

edge_step : (p e q h : Bool) → ((if p && not e then true else q) || h) ≡ (q || ((p && not e) || h))
edge_step p e q h = ground arith

or_false : (q : Bool) → q ≡ (q || false)
or_false q = ground arith

-- After any sequence of levels an NMI is pending exactly if one was pending before or the line fell
-- from high to low; the line is remembered at its last level, and nothing else has changed.
pub set_nmi-edge :
    (levels : List Bool) (c : Cpu)
    → set_nmi_levels levels c ≡ record c {
      nmi_pending = c.nmi_pending || has_edge c.prev_nmi levels;
      prev_nmi = last_level c.prev_nmi levels;
    }
unfolding set_nmi
set_nmi-edge [] c = λ i. record c { nmi_pending = or_false c.nmi_pending i }
set_nmi-edge (level ∷ levels) c =
    let rest = has_edge level levels in
    let latched = edge_step c.prev_nmi level c.nmi_pending rest in
    set_nmi-edge levels (set_nmi level c) ∙ λ i. record c {
      nmi_pending = latched i;
      prev_nmi = last_level level levels;
    }

-- Why a processor that runs services an interrupt, and through which vector: a pending NMI comes
-- first, and an asserted IRQ counts unless `I` masks it.
pub data Interrupted (c : Cpu) : ℕ → Type 0 where
  nmi : c.halted ≡ false → c.nmi_pending ≡ true → Interrupted c nmi_vector
  irq :
      c.halted ≡ false
      → c.nmi_pending ≡ false
      → c.irq_line ≡ true
      → c.regs.p.i ≡ false
      → Interrupted c irq_vector

-- What a processor remembers of an interrupt that it takes: the latch is cleared, 7 cycles pass.
abbrev pub after_interrupt : Cpu → Cpu
after_interrupt c = record c { nmi_pending = false; cycles = u64 (c.cycles + 7) }

module _ {S : Type 0} ⦃b : Bus S⦄ (memory : IsMemory b) where
  abbrev pub interrupted : ℕ → Machine S → Machine S
  interrupted vector m =
      let m' = at_vector memory vector (framed memory false m) in
      record m' { cpu = after_interrupt m'.cpu }

  interrupt_lem :
      (vector : ℕ) (m : Machine S)
      → m.cpu.regs.sp < 256
      → interrupt vector m ≡ (
        7,
        (let m' = at_vector memory vector (framed memory false m) in
            record m' { cpu = record (m'.cpu) { cycles = u64 (m'.cpu.cycles + 7) } }),
      )
  unfolding interrupt ◌>>=◌ pure modify
  interrupt_lem vector m h = rw (service_interrupt_lem memory vector false m h)

  -- A step that services an interrupt, over plain memory and with the stack pointer a byte, takes 7
  -- cycles: `PC` and the status with
  -- `B` clear are pushed, `I` is set, and `PC` is loaded from the vector.
  pub step-Interrupted :
      {vector : ℕ} (m : Machine S)
      → Interrupted m.cpu vector
      → m.cpu.regs.sp < 256
      → step m ≡ (7, interrupted vector m)
  unfolding step running ◌>>=◌ get_cpu modify
  step-Interrupted m (nmi runs pending) h =
      rw (runs, pending)
        (interrupt_lem nmi_vector
          (record m { cpu = record (m.cpu) { halted = false; nmi_pending = false } }) h)
  step-Interrupted m (irq runs none asserted unmasked) h =
      rw (runs, none, asserted, unmasked)
        (interrupt_lem irq_vector
          (record m {
            cpu = record (m.cpu) {
              regs = record (m.cpu.regs) { p = record (m.cpu.regs.p) { i = false } };
              halted = false;
              nmi_pending = false;
              irq_line = true;
            };
          })
          h)
