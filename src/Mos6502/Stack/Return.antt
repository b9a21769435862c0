-- ===== src/Mos6502/Stack/Return.antt =====
-- `RTI` undoes an interrupt, and `RTS` undoes `JSR`.
use remu.Prelude.{
  ℕ, ◌+◌, ◌/◌, ◌<◌, ◌≡◌, ◌≢◌, arith, Bool, true, false, u8, u16, sub8, word, ap, ap₂, sym, ◌∙◌,
}
use remu.Prelude.Masks.{word_sum}
use remu.Bus.{Bus}
use remu.Bus.Memory.{IsMemory}
use remu.Mos6502.Registers.{Status, bits, from_bits}
use remu.Mos6502.Registers.Laws.{bits-lt, from_bits-bits}
use remu.Mos6502.Registers.Laws
use remu.Mos6502.Cpu.{
  Machine, ◌>>=◌, pure, get_regs, modify_regs, pull_status, fetch_byte, read, service_interrupt,
}
use remu.Mos6502.Execute.{jsr_call, rts_return, rti_return}
use remu.Mos6502.Stack.{
  byte_at, pushed, pulled, top, framed, at_vector, push_lem, pull_lem, service_interrupt_lem,
}
use remu.Mos6502.Valid.{IsValidRegisters}

module _ {S : Type 0} ⦃b : Bus S⦄ (memory : IsMemory b) where
  abbrev with_status : Status → Machine S → Machine S
  with_status p m = record m { cpu = record (m.cpu) { regs = record (m.cpu.regs) { p = p } } }

  abbrev with_pc : ℕ → Machine S → Machine S
  with_pc pc m = record m { cpu = record (m.cpu) { regs = record (m.cpu.regs) { pc = pc } } }

  pull_status_lem :
      (m : Machine S)
      → top memory m < 256
      → (pull_status m).1
        ≡ with_status (record (from_bits (top memory m)) { u = true; b = false }) (pulled memory m)
  unfolding pull_status ◌>>=◌ modify_regs
  pull_status_lem m h = rw (pull_lem memory m) (rw (Laws.pulled (top memory m) h))

  -- What `RTI` does, over plain memory.
  rti_lem :
      (m : Machine S)
      → top memory m < 256
      → (rti_return m).1 ≡ (
          let one = pulled memory m in
          let two = pulled memory one in
          with_pc (word (top memory one) (top memory two)) (
            with_status
              (record (from_bits (top memory m)) { u = true; b = false })
              (pulled memory two)))
  unfolding rti_return ◌>>=◌ modify_regs
  rti_lem m h =
      let p = record (from_bits (top memory m)) { u = true; b = false } in
      let one = with_status p (pulled memory m) in
      rw (pull_status_lem m h) (rw (pull_lem memory one) (rw (pull_lem memory (pulled memory one))))

  -- Three writes at different addresses are all there.
  three_writes :
      (x y z u v w : ℕ) (s : S)
      → y ≢ x
      → z ≢ x
      → z ≢ y
      → let t = b.write z w (b.write y v (b.write x u s)) in
        (memory.peek t x ≡ u) × (memory.peek t y ≡ v) × (memory.peek t z ≡ w)
  three_writes x y z u v w s p q r = (
    rw memory.peek-write (rw memory.peek-write (rw memory.peek-write (ground arith))),
    rw memory.peek-write (rw memory.peek-write (ground arith)),
    rw memory.peek-write (ground arith),
  )

  -- The bytes of the frame, as `RTI` pulls them.
  frame_bytes :
      (with_b : Bool) (m : Machine S)
      → m.cpu.regs.sp < 256
      → let f = framed memory with_b m in
        (top memory f ≡ bits (record (m.cpu.regs.p) { u = true; b = with_b }))
        × (top memory (pulled memory f) ≡ u8 m.cpu.regs.pc)
        × (top memory (pulled memory (pulled memory f)) ≡ u8 (m.cpu.regs.pc / 256))
  frame_bytes with_b m h =
      let sp = m.cpu.regs.sp in
      let pc = m.cpu.regs.pc in
      let s1 = sub8 sp 1 in
      let s2 = sub8 s1 1 in
      let e1 : u8 (s1 + 1) ≡ sp = omega arith in
      let e2 : u8 (s2 + 1) ≡ s1 = omega arith in
      let e3 : u8 (sub8 s2 1 + 1) ≡ s2 = omega arith in
      let t =
        three_writes (0x0100 + sp) (0x0100 + s1) (0x0100 + s2) (u8 (pc / 256)) (u8 pc)
          (bits (record (m.cpu.regs.p) { u = true; b = with_b })) m.bus (λ e. omega arith)
          (λ e. omega arith) (λ e. omega arith) in
      (rw e3 t.2, rw (e3, e2) t.1, rw (e3, e2, e1) t.0)

  -- Over plain memory, from registers in range with `U` set and `B` clear: after an interrupt through
  -- any vector, with or without `B` pushed, `RTI` restores the whole processor, `PC`, `SP` and every
  -- flag and register.
  pub rti-service_interrupt :
      (vector : ℕ) (with_b : Bool) (m : Machine S)
      → IsValidRegisters m.cpu.regs
      → (rti_return (service_interrupt vector with_b m).1).1.cpu ≡ m.cpu
  rti-service_interrupt vector with_b m v =
      let pc = m.cpu.regs.pc in
      let f = framed memory with_b m in
      let t = frame_bytes with_b m v.sp in
      let p = record (m.cpu.regs.p) { u = true; b = with_b } in
      let status : from_bits (top memory f) ≡ p = ap from_bits t.0 ∙ from_bits-bits p in
      let target : word (top memory (pulled memory f))
            (top memory (pulled memory (pulled memory f)))
          ≡ pc =
        ap₂ word t.1 t.2
        ∙ word_sum (u8 pc) (u8 (pc / 256)) (omega arith) (omega arith)
        ∙ omega arith in
      let restore : record (m.cpu.regs.p) { u = true; b = false } ≡ m.cpu.regs.p =
        λ i. record (m.cpu.regs.p) { u = sym v.unused i; b = sym v.no_break i } in
      let flags : record (from_bits (top memory f)) { u = true; b = false } ≡ m.cpu.regs.p =
        ap (λ (q : Status). let r : Status = record q { u = true; b = false } in r) status
        ∙ restore in
      let pointer : u8 (u8 (u8 (sub8 (sub8 (sub8 m.cpu.regs.sp 1) 1) 1 + 1) + 1) + 1)
          ≡ m.cpu.regs.sp =
        omega arith in
      rw (service_interrupt_lem memory vector with_b m v.sp) (
        rw (rti_lem (at_vector memory vector f) (rw t.0 (bits-lt p))) (λ i. record (m.cpu) {
          regs = record (m.cpu.regs) { sp = pointer i; pc = target i; p = flags i };
        }))

  fetch_byte_lem :
      (m : Machine S)
      → fetch_byte m ≡ (byte_at memory m m.cpu.regs.pc, with_pc (u16 (m.cpu.regs.pc + 1)) m)
  unfolding fetch_byte read ◌>>=◌ get_regs modify_regs pure
  fetch_byte_lem m = rw memory.read-peek

  -- `JSR` pushes the address of its last byte, then reads the high byte of the target, which the
  -- pushes may have written.
  pub jsr_lem :
      (m : Machine S)
      → m.cpu.regs.sp < 256
      → (jsr_call m).1 ≡ (
          let ret = u16 (m.cpu.regs.pc + 1) in
          let saved = pushed memory (u8 ret) (pushed memory (u8 (ret / 256)) (with_pc ret m)) in
          with_pc (word (byte_at memory m m.cpu.regs.pc) (byte_at memory saved ret)) saved)
  unfolding jsr_call read ◌>>=◌ get_regs modify_regs
  jsr_lem m h =
      let ret = u16 (m.cpu.regs.pc + 1) in
      let one = pushed memory (u8 (ret / 256)) (with_pc ret m) in
      rw (fetch_byte_lem m) (
        rw (push_lem memory (u8 (ret / 256)) (with_pc ret m) h)
          (rw (push_lem memory (u8 ret) one (omega arith)) (rw memory.read-peek)))

  rts_lem :
      (m : Machine S)
      → (rts_return m).1
        ≡ with_pc
            (u16 (word (top memory m) (top memory (pulled memory m)) + 1))
            (pulled memory (pulled memory m))
  unfolding rts_return ◌>>=◌ modify_regs
  rts_lem m = rw (pull_lem memory m) (rw (pull_lem memory (pulled memory m)))

  -- The two bytes of a saved address, as `RTS` pulls them.
  saved_bytes :
      (ret : ℕ) (m : Machine S)
      → m.cpu.regs.sp < 256
      → let f = pushed memory (u8 ret) (pushed memory (u8 (ret / 256)) m) in
        (top memory f ≡ u8 ret) × (top memory (pulled memory f) ≡ u8 (ret / 256))
  saved_bytes ret m h =
      let sp = m.cpu.regs.sp in
      let s1 = sub8 sp 1 in
      let e1 : u8 (s1 + 1) ≡ sp = omega arith in
      let e2 : u8 (sub8 s1 1 + 1) ≡ s1 = omega arith in
      let ne : 0x0100 + s1 ≢ 0x0100 + sp = λ e. omega arith in
      (
        rw e2 (rw memory.peek-write (ground arith)),
        rw (e2, e1) (rw memory.peek-write (rw memory.peek-write (ground arith))),
      )

  -- Over plain memory, with the stack pointer a byte: `RTS` after `JSR` leads to the instruction behind the two operand bytes, with the stack pointer
  -- and all other registers as they were.
  pub rts-jsr :
      (m : Machine S)
      → m.cpu.regs.sp < 256
      → (rts_return (jsr_call m).1).1.cpu
        ≡ record (m.cpu) { regs = record (m.cpu.regs) { pc = u16 (m.cpu.regs.pc + 2) } }
  rts-jsr m h =
      let sp = m.cpu.regs.sp in
      let pc = m.cpu.regs.pc in
      let ret = u16 (pc + 1) in
      let saved = pushed memory (u8 ret) (pushed memory (u8 (ret / 256)) (with_pc ret m)) in
      let jumped = with_pc (word (byte_at memory m pc) (byte_at memory saved ret)) saved in
      let t = saved_bytes ret (with_pc ret m) h in
      let joined : word (top memory jumped) (top memory (pulled memory jumped)) ≡ ret =
        ap₂ word t.0 t.1
        ∙ word_sum (u8 ret) (u8 (ret / 256)) (omega arith) (omega arith)
        ∙ omega arith in
      let target : u16 (word (top memory jumped) (top memory (pulled memory jumped)) + 1)
          ≡ u16 (pc + 2) =
        ap (λ (r : ℕ). u16 (r + 1)) joined ∙ omega arith in
      let pointer : u8 (u8 (sub8 (sub8 sp 1) 1 + 1) + 1) ≡ sp = omega arith in
      rw (jsr_lem m h) (
        rw (rts_lem jumped)
          (λ i. record (m.cpu) { regs = record (m.cpu.regs) { sp = pointer i; pc = target i } }))
