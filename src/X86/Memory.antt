-- ===== src/X86/Memory.antt =====
-- The accesses of the 8088 over plain memory: words, the stack, and interrupts with `IRET`.
pub mod Return
use remu.Prelude.{
  ℕ, ◌+◌, ◌*◌, ◌/◌, ◌%◌, ◌<◌, ◌≡◌, ◌≢◌, refl, arith, ap, ap₂, sym, ◌∙◌, Bool, true, false, ◌==◌,
  if◌then◌else◌, u8, u16, sub16, word, bit_and,
}
use remu.Prelude.Bits.{bit_and_mask}
use remu.Prelude.Masks.{word_sum}
use remu.Prelude.State.{pure, ◌>>=◌, ◌>>◌}
use remu.X86.Bus.{Bus, IsMemory}
use remu.X86.Cpu.{
  Cpu, Machine, phys, modify_regs, get_regs, read8, write8, read16, write16, push16, pop16,
}

pub phys_mod : (s off : ℕ) → phys s off ≡ (s * 16 + off) % 0x100000
unfolding phys
phys_mod s off = bit_and_mask 20 0xFFFFF (s * 16 + off) (omega arith)

pub phys-lt : (s off : ℕ) → phys s off < 0x100000
phys-lt s off = omega (arith, phys_mod s off)

-- Offsets of one segment have addresses of their own.
pub phys_differs : (s x y : ℕ) → x < 65536 → y < 65536 → x ≢ y → phys s x ≢ phys s y
phys_differs s x y hx hy ne e = ne (omega (arith, phys_mod s x, phys_mod s y))

module _ {S : Type 0} ⦃b : Bus S⦄ (memory : IsMemory b) where
  -- The byte and the word at an address.
  abbrev pub byte_at : Machine S → ℕ → ℕ → ℕ
  byte_at m s off = memory.peek m.bus (phys s off)

  abbrev pub word_at : Machine S → ℕ → ℕ → ℕ
  word_at m s off = word (byte_at m s off) (byte_at m s (u16 (off + 1)))

  abbrev pub put : ℕ → ℕ → ℕ → Machine S → Machine S
  put s off v m = record m { bus = b.write (phys s off) v m.bus }

  abbrev pub put_word : ℕ → ℕ → ℕ → Machine S → Machine S
  put_word s off v m = put s (u16 (off + 1)) (u8 (v / 256)) (put s off (u8 v) m)

  pub read8_lem : (s off : ℕ) (m : Machine S) → read8 s off m ≡ (byte_at m s off, m)
  unfolding read8
  read8_lem s off m = rw (memory.read-peek (phys s off) m.bus (phys-lt s off)) refl

  pub read16_lem : (s off : ℕ) (m : Machine S) → read16 s off m ≡ (word_at m s off, m)
  unfolding read16 ◌>>=◌ pure
  read16_lem s off m = rw (read8_lem s off m) (rw (read8_lem s (u16 (off + 1)) m) refl)

  pub write16_lem : (s off v : ℕ) (m : Machine S) → (write16 s off v m).1 ≡ put_word s off v m
  unfolding write16 write8 ◌>>=◌
  write16_lem s off v m = refl

  byte_at-put : (s off v : ℕ) (m : Machine S) → byte_at (put s off v m) s off ≡ v
  byte_at-put s off v m =
      memory.peek-write (phys s off) v (phys s off) m.bus (phys-lt s off) ∙ ground arith

  -- A byte written at one offset leaves the others of its segment.
  byte_at-put_other :
      (s off x v : ℕ) (m : Machine S)
      → off < 65536
      → x < 65536
      → x ≢ off
      → byte_at (put s off v m) s x ≡ byte_at m s x
  byte_at-put_other s off x v m ho hx ne =
      let apart = phys_differs s x off hx ho ne in
      memory.peek-write (phys s off) v (phys s x) m.bus (phys-lt s off) ∙ ground arith

  halves : (v : ℕ) → v < 65536 → word (u8 v) (u8 (v / 256)) ≡ v
  halves v h = word_sum (u8 v) (u8 (v / 256)) (omega arith) (omega arith) ∙ omega arith

  -- A word written is the word read.
  pub word_at-put_word :
      (s off v : ℕ) (m : Machine S)
      → off < 65536
      → v < 65536
      → word_at (put_word s off v m) s off ≡ v
  word_at-put_word s off v m ho hv =
      ap₂ word
        (byte_at-put_other s (u16 (off + 1)) off (u8 (v / 256)) (put s off (u8 v) m) (omega arith)
            ho (λ e. omega arith)
          ∙ byte_at-put s off (u8 v) m)
        (byte_at-put s (u16 (off + 1)) (u8 (v / 256)) (put s off (u8 v) m))
      ∙ halves v hv

  -- A word written leaves a word of the same segment that does not overlap it.
  pub word_at-put_word_other :
      (s off x v : ℕ) (m : Machine S)
      → off < 65536
      → x < 65536
      → x ≢ off
      → u16 (x + 1) ≢ off
      → x ≢ u16 (off + 1)
      → word_at (put_word s off v m) s x ≡ word_at m s x
  word_at-put_word_other s off x v m ho hx p q r =
      let lower = put s off (u8 v) m in
      let keeps : (y : ℕ)
          → y < 65536
          → y ≢ off
          → y ≢ u16 (off + 1)
          → byte_at (put_word s off v m) s y ≡ byte_at m s y =
        λ y hy d e.
          byte_at-put_other s (u16 (off + 1)) y (u8 (v / 256)) lower (omega arith) hy e
          ∙ byte_at-put_other s off y (u8 v) m ho hy d in
      ap₂ word (keeps x hx p r) (keeps (u16 (x + 1)) (omega arith) q (λ e. p (omega arith)))

  -- The machine with another stack pointer, after a push and after a pop.
  abbrev pub with_sp : ℕ → Cpu → Cpu
  with_sp v c = record c { regs = record (c.regs) { sp = v } }

  abbrev pub pushed : ℕ → Machine S → Machine S
  pushed v m =
      let sp = sub16 m.cpu.regs.sp 2 in
      put_word m.cpu.regs.ss sp v (record m { cpu = with_sp sp m.cpu })

  abbrev pub popped : Machine S → Machine S
  popped m = record m { cpu = with_sp (u16 (m.cpu.regs.sp + 2)) m.cpu }

  abbrev pub top : Machine S → ℕ
  top m = word_at m m.cpu.regs.ss m.cpu.regs.sp

  pub push16_lem : (v : ℕ) (m : Machine S) → (push16 v m).1 ≡ pushed v m
  unfolding push16 write16 write8 modify_regs get_regs ◌>>=◌
  push16_lem v m = refl

  pub pop16_lem : (m : Machine S) → pop16 m ≡ (top m, popped m)
  unfolding pop16 modify_regs get_regs ◌>>=◌ pure
  pop16_lem m = rw (read16_lem m.cpu.regs.ss m.cpu.regs.sp m) refl
