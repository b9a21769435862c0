-- ===== src/Mos6502/Stack.antt =====
-- The stack over plain memory: what is pushed is pulled, and interrupts and subroutines come back.
pub mod Return
use remu.Prelude.{
  ℕ, ◌+◌, ◌/◌, ◌%◌, ◌<◌, ◌≡◌, ◌≢◌, refl, arith, Bool, true, false, ◌==◌, if◌then◌else◌, u8, u16,
  sub8, bit_or, word, ap, ◌∙◌,
}
use remu.Prelude.Masks.{stack_address, word_sum}
use remu.Bus.{Bus, read_u16}
use remu.Bus.Memory.{IsMemory}
use remu.Mos6502.Registers.{Status, Registers, bits, from_bits}
use remu.Mos6502.Registers.Laws.{pushed_set, pushed_clear}
use remu.Mos6502.Cpu.{
  Cpu, Machine, Method, pure, ◌>>=◌, ◌>>◌, get_regs, modify, modify_regs, read, write, push, pull,
  read_vector, push_status, service_interrupt,
}

module _ {S : Type 0} ⦃b : Bus S⦄ (memory : IsMemory b) where
  abbrev pub byte_at : Machine S → ℕ → ℕ
  byte_at m a = memory.peek m.bus a

  abbrev pub with_sp : ℕ → Cpu → Cpu
  with_sp v c = record c { regs = record (c.regs) { sp = v } }

  -- The machine after a push: one byte written in the stack page, and the pointer moved down.
  abbrev pub pushed : ℕ → Machine S → Machine S
  pushed v m = record {
    cpu = with_sp (sub8 m.cpu.regs.sp 1) m.cpu;
    bus = b.write (0x0100 + m.cpu.regs.sp) v m.bus;
  }

  -- The machine after a pull.
  abbrev pub pulled : Machine S → Machine S
  pulled m = record m { cpu = with_sp (u8 (m.cpu.regs.sp + 1)) m.cpu }

  abbrev pub top : Machine S → ℕ
  top m = byte_at m (0x0100 + u8 (m.cpu.regs.sp + 1))

  pub push_lem : (v : ℕ) (m : Machine S) → m.cpu.regs.sp < 256 → (push v m).1 ≡ pushed v m
  unfolding push write ◌>>=◌ get_regs modify_regs
  push_lem v m h = rw (stack_address m.cpu.regs.sp h)

  pub pull_lem : (m : Machine S) → pull m ≡ (top m, pulled m)
  unfolding pull read ◌>>=◌ get_regs modify_regs
  pull_lem m = rw (stack_address (u8 (m.cpu.regs.sp + 1)) (omega arith), memory.read-peek)

  pub read_vector_lem :
      (a : ℕ) (m : Machine S) → read_vector a m ≡ (word (byte_at m a) (byte_at m (u16 (a + 1))), m)
  unfolding read_vector read_u16
  read_vector_lem a m = rw (memory.read-peek, memory.read-peek)

  pub push_status_lem :
      (with_b : Bool) (m : Machine S)
      → m.cpu.regs.sp < 256
      → (push_status with_b m).1 ≡ pushed (bits (record (m.cpu.regs.p) { u = true; b = with_b })) m
  unfolding push_status ◌>>=◌ get_regs
  push_status_lem true m h = push_lem _ m h ∙ ap (λ (v : ℕ). pushed v m) (pushed_set m.cpu.regs.p)
  push_status_lem false m h =
      push_lem _ m h ∙ ap (λ (v : ℕ). pushed v m) (pushed_clear m.cpu.regs.p)

  -- Over plain memory, with the stack pointer a byte: a pull after a push gives the byte back and leaves the processor as it was; in memory only the
  -- byte that the stack pointer addressed has changed.
  pub pull-push :
      (v a : ℕ) (m : Machine S)
      → m.cpu.regs.sp < 256
      → let m' = (push v m).1 in
        ((pull m').0 ≡ v)
        × ((pull m').1.cpu ≡ m.cpu)
        × (byte_at (pull m').1 a ≡ (if a == 0x0100 + m.cpu.regs.sp then v else byte_at m a))
  pull-push v a m h =
      let sp = m.cpu.regs.sp in
      let back : u8 (sub8 sp 1 + 1) ≡ sp = omega arith in
      rw (push_lem v m h) (
        rw (pull_lem (pushed v m)) (
          rw (back, memory.peek-write) (ground arith),
          ap (λ (s : ℕ). with_sp s m.cpu) back,
          memory.peek-write (0x0100 + sp) v a m.bus,
        ))

  -- Three bytes on the stack: the machine that an interrupt leaves, but for its `I` flag and `PC`.
  abbrev pub framed : Bool → Machine S → Machine S
  framed with_b m =
      let pc = m.cpu.regs.pc in
      pushed (bits (record (m.cpu.regs.p) { u = true; b = with_b }))
        (pushed (u8 pc) (pushed (u8 (pc / 256)) m))

  abbrev pub at_vector : ℕ → Machine S → Machine S
  at_vector vector m = record m {
    cpu = record (m.cpu) {
      regs = record (m.cpu.regs) {
        p = record (m.cpu.regs.p) { i = true };
        pc = word (byte_at m vector) (byte_at m (u16 (vector + 1)));
      };
    };
  }

  pub service_interrupt_lem :
      (vector : ℕ) (with_b : Bool) (m : Machine S)
      → m.cpu.regs.sp < 256
      → (service_interrupt vector with_b m).1 ≡ at_vector vector (framed with_b m)
  unfolding service_interrupt ◌>>=◌ get_regs modify_regs
  service_interrupt_lem vector with_b m h =
      let pc = m.cpu.regs.pc in
      let one = pushed (u8 (pc / 256)) m in
      let two = pushed (u8 pc) one in
      rw (push_lem (u8 (pc / 256)) m h) (
        rw (push_lem (u8 pc) one (omega arith))
          (rw (push_status_lem with_b two (omega arith)) (rw read_vector_lem)))
