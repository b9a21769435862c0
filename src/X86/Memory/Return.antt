-- ===== src/X86/Memory/Return.antt =====
-- `IRET` undoes an interrupt.
use remu.Prelude.{ℕ, ◌+◌, ◌*◌, ◌<◌, ◌≡◌, refl, arith, ap, ◌∙◌, false, u16, sub16, word}
use remu.Prelude.State.{pure, ◌>>=◌}
use remu.X86.Registers.{Flags, to_word, from_word}
use remu.X86.Registers.Laws.{to_word-lt, from_word-to_word}
use remu.X86.Bus.{Bus, IsMemory}
use remu.X86.Cpu.{Machine, modify_regs, get_regs, interrupt}
use remu.X86.Execute.Control.{iret}
use remu.X86.Memory.{
  word_at, put_word, pushed, popped, top, read16_lem, push16_lem, pop16_lem, word_at-put_word,
  word_at-put_word_other,
}

-- The machine that an interrupt leaves, but for its target.
module _ {S : Type 0} ⦃b : Bus S⦄ (memory : IsMemory b) where
  abbrev with_flags : Flags → Machine S → Machine S
  with_flags f m = record m { cpu = record (m.cpu) { regs = record (m.cpu.regs) { flags = f } } }

  abbrev at : ℕ → ℕ → Machine S → Machine S
  at cs ip m = record m { cpu = record (m.cpu) { regs = record (m.cpu.regs) { cs = cs; ip = ip } } }

  abbrev framed : Machine S → Machine S
  framed m =
      let r = m.cpu.regs in
      let masked = record (r.flags) { iflag = false; tf = false } in
      pushed memory r.ip
        (pushed memory r.cs (with_flags masked (pushed memory (to_word r.flags) m)))

  interrupt_lem :
      (vector : ℕ) (m : Machine S)
      → (interrupt vector m).1
        ≡ at
            (word_at memory (framed m) 0 (u16 (u16 (vector * 4) + 2)))
            (word_at memory (framed m) 0 (u16 (vector * 4)))
            (framed m)
  unfolding interrupt modify_regs get_regs ◌>>=◌
  interrupt_lem vector m =
      let base = u16 (vector * 4) in
      rw (push16_lem memory) (
        rw (push16_lem memory)
          (rw (push16_lem memory) (rw (read16_lem memory) (rw (read16_lem memory) refl))))

  iret_lem :
      (m : Machine S)
      → (iret m).1
        ≡ with_flags (from_word (top memory (popped memory (popped memory m)))) (
            at
              (top memory (popped memory m))
              (top memory m)
              (popped memory (popped memory (popped memory m))))
  unfolding iret modify_regs ◌>>=◌ pure
  iret_lem m = rw (pop16_lem memory) (rw (pop16_lem memory) (rw (pop16_lem memory) refl))

  -- The words of the frame, as `IRET` pops them.
  frame_words :
      (m : Machine S)
      → m.cpu.regs.sp < 65536
      → m.cpu.regs.ip < 65536
      → m.cpu.regs.cs < 65536
      → let f = framed m in
        (top memory f ≡ m.cpu.regs.ip)
        × (top memory (popped memory f) ≡ m.cpu.regs.cs)
        × (top memory (popped memory (popped memory f)) ≡ to_word m.cpu.regs.flags)
  frame_words m hs hi hc =
      let r = m.cpu.regs in
      let s1 = sub16 r.sp 2 in
      let s2 = sub16 s1 2 in
      let s3 = sub16 s2 2 in
      let e2 : u16 (s3 + 2) ≡ s2 = omega arith in
      let e1 : u16 (u16 (s3 + 2) + 2) ≡ s1 = omega arith in
      let one = put_word memory r.ss s1 (to_word r.flags) m in
      let two = put_word memory r.ss s2 r.cs one in
      (
        word_at-put_word memory r.ss s3 r.ip two (omega arith) hi,
        ap (word_at memory (framed m) r.ss) e2
            ∙ word_at-put_word_other memory r.ss s3 s2 r.ip two (omega arith) (omega arith)
                (λ e. omega arith) (λ e. omega arith) (λ e. omega arith)
            ∙ word_at-put_word memory r.ss s2 r.cs one (omega arith) hc,
        ap (word_at memory (framed m) r.ss) e1
            ∙ word_at-put_word_other memory r.ss s3 s1 r.ip two (omega arith) (omega arith)
                (λ e. omega arith) (λ e. omega arith) (λ e. omega arith)
            ∙ word_at-put_word_other memory r.ss s2 s1 r.cs one (omega arith) (omega arith)
                (λ e. omega arith) (λ e. omega arith) (λ e. omega arith)
            ∙ word_at-put_word memory r.ss s1 (to_word r.flags) m (omega arith)
                (to_word-lt r.flags),
      )

  -- Over plain memory, with SP, IP and CS words: `IRET` after an interrupt of any vector restores the
  -- whole processor, wherever the stack wraps.
  pub iret-interrupt :
      (vector : ℕ) (m : Machine S)
      → m.cpu.regs.sp < 65536
      → m.cpu.regs.ip < 65536
      → m.cpu.regs.cs < 65536
      → (iret (interrupt vector m).1).1.cpu ≡ m.cpu
  iret-interrupt vector m hs hi hc =
      let (ip, cs, word) = frame_words m hs hi hc in
      let flags = ap from_word word ∙ from_word-to_word m.cpu.regs.flags in
      let sp : u16 (u16 (u16 (sub16 (sub16 (sub16 m.cpu.regs.sp 2) 2) 2 + 2) + 2) + 2)
          ≡ m.cpu.regs.sp =
        omega arith in
      rw (interrupt_lem vector m) (
        rw (iret_lem (at _ _ (framed m))) (λ i. record (m.cpu) {
          regs = record (m.cpu.regs) { sp = sp i; ip = ip i; cs = cs i; flags = flags i };
        }))
