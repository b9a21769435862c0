-- ===== src/I386/Segments.antt =====
-- x86_32/mod.rs: the accesses relative to a segment, and the stack.
use remu.Prelude.{
  ℕ, ◌+◌, ◌-◌, Bool, true, false, not, ◌&&◌, ltb, leb, ◌==◌, if◌then◌else◌, u16, u32, test, bit_and,
  bit_or,
}
use remu.Prelude.Outcome.{ok, err, pure, ◌>>=◌, ◌>>◌}
use remu.I386.Bus.{Bus}
use remu.I386.Registers.{Registers, SegReg, reg_cs, reg_ss, reg_esp, db, expand_down, with_gpr}
use remu.I386.Cpu.{Cpu, Exec, Exception, stack_fault, general_protection}
use remu.I386.Linear.{lin_read8, lin_read16, lin_read32, lin_write8, lin_write16, lin_write32}

-- The fault of an access through a segment.
abbrev segment_fault : ℕ → Exception
segment_fault seg = if seg == reg_ss then stack_fault 0 else general_protection 0

-- The limit's check, up to the access's last byte.
unfoldable pub in_limit : SegReg → ℕ → ℕ → Bool
in_limit s off size =
    let last = off + (size - 1) in
    if expand_down s
    then ltb s.limit off && leb last (if db s then 0xFFFFFFFF else 0xFFFF)
    else leb last s.limit

unfoldable pub ea_allows : SegReg → ℕ → ℕ → Bool → Bool
ea_allows s off size write =
    test s.attrs 0x80
    && (if write then bit_and s.attrs 0x1A == 0x12 else not (bit_and s.attrs 0x0A == 0x08))
    && in_limit s off size

unfoldable pub data_wrap : Cpu → ℕ
data_wrap c = if c.asize32 then 0xFFFFFFFF else 0xFFFF

unfoldable pub stack_wrap : Registers → ℕ
stack_wrap r = if db (r.seg reg_ss) then 0xFFFFFFFF else 0xFFFF

abbrev linear : ℕ → ℕ → Cpu → ℕ
linear seg off c = u32 ((c.regs.seg seg).base + off)

unfoldable pub stack_ptr : Registers → ℕ
stack_ptr r = let sp = r.gpr reg_esp in if db (r.seg reg_ss) then sp else bit_and sp 0xFFFF

-- The offset is what `delta as u32` makes of it.
unfoldable pub adjust_sp : ℕ → Registers → Registers
adjust_sp delta r =
    let sp = r.gpr reg_esp in
    with_gpr reg_esp
      (if db (r.seg reg_ss)
        then u32 (sp + delta)
        else bit_or (bit_and sp 0xFFFF0000) (u16 (u16 sp + u16 delta)))
      r

-- `-(n as i32) as u32`
abbrev minus : ℕ → ℕ
minus n = 0x100000000 - n

-- The stack pointer below `size` more bytes.
abbrev pushed_ptr : ℕ → Registers → ℕ
pushed_ptr size r = bit_and (u32 (stack_ptr r + minus size)) (stack_wrap r)

module _ {S : Type 0} where
  -- What the processor says, and a change of it.
  unfoldable pub asks : {A : Type 0} → (Cpu → A) → Exec S A
  asks f m = (ok (f m.cpu), m)

  unfoldable pub update_cpu : (Cpu → Cpu) → Exec S (Unit {0})
  update_cpu f m = (ok tt, record m { cpu = f m.cpu })

  unfoldable pub update_regs : (Registers → Registers) → Exec S (Unit {0})
  update_regs f m = (ok tt, record m { cpu = record (m.cpu) { regs = f m.cpu.regs } })

  -- `if refused { return Err(x) }`
  unfoldable pub refuse : Bool → Exception → Exec S (Unit {0})
  refuse refused x m = if refused then (err x, m) else (ok tt, m)

  unfoldable pub ea_check : ℕ → ℕ → ℕ → Bool → Exec S (Unit {0})
  ea_check seg off size write m =
      refuse (not (ea_allows (m.cpu.regs.seg seg) off size write)) (segment_fault seg) m

  unfoldable pub fetch_check : ℕ → Exec S (Unit {0})
  fetch_check off m = refuse (ltb (m.cpu.regs.seg reg_cs).limit off) (general_protection 0) m

module _ {S : Type 0} ⦃b : Bus S⦄ where
  unfoldable pub read8 : ℕ → ℕ → Exec S ℕ
  read8 seg off = do ea_check seg off 1 false; lin ← asks (linear seg off); lin_read8 lin

  -- The mask `wrap` is not looked at.
  unfoldable pub read16w : ℕ → ℕ → ℕ → Exec S ℕ
  read16w seg off wrap = do ea_check seg off 2 false; lin ← asks (linear seg off); lin_read16 lin

  unfoldable pub read32w : ℕ → ℕ → ℕ → Exec S ℕ
  read32w seg off wrap = do ea_check seg off 4 false; lin ← asks (linear seg off); lin_read32 lin

  unfoldable pub read16 : ℕ → ℕ → Exec S ℕ
  read16 seg off = do wrap ← asks data_wrap; read16w seg off wrap

  unfoldable pub read32 : ℕ → ℕ → Exec S ℕ
  read32 seg off = do wrap ← asks data_wrap; read32w seg off wrap

  unfoldable pub write8 : ℕ → ℕ → ℕ → Exec S (Unit {0})
  write8 seg off v = do ea_check seg off 1 true; lin ← asks (linear seg off); lin_write8 lin v

  unfoldable pub write16w : ℕ → ℕ → ℕ → ℕ → Exec S (Unit {0})
  write16w seg off v wrap = do
    ea_check seg off 2 true
    lin ← asks (linear seg off)
    lin_write16 lin v

  unfoldable pub write32w : ℕ → ℕ → ℕ → ℕ → Exec S (Unit {0})
  write32w seg off v wrap = do
    ea_check seg off 4 true
    lin ← asks (linear seg off)
    lin_write32 lin v

  unfoldable pub write16 : ℕ → ℕ → ℕ → Exec S (Unit {0})
  write16 seg off v = do wrap ← asks data_wrap; write16w seg off v wrap

  unfoldable pub write32 : ℕ → ℕ → ℕ → Exec S (Unit {0})
  write32 seg off v = do wrap ← asks data_wrap; write32w seg off v wrap

  unfoldable pub push16 : ℕ → Exec S (Unit {0})
  push16 v = do
    wrap ← asks (λ c. stack_wrap c.regs)
    sp ← asks (λ c. pushed_ptr 2 c.regs)
    write16w reg_ss sp v wrap
    update_regs (adjust_sp (minus 2))

  unfoldable pub push32 : ℕ → Exec S (Unit {0})
  push32 v = do
    wrap ← asks (λ c. stack_wrap c.regs)
    sp ← asks (λ c. pushed_ptr 4 c.regs)
    write32w reg_ss sp v wrap
    update_regs (adjust_sp (minus 4))

  unfoldable pub push : ℕ → Exec S (Unit {0})
  push v m = if m.cpu.osize32 then push32 v m else push16 (u16 v) m

  unfoldable pub pop16 : Exec S ℕ
  pop16 = do
    wrap ← asks (λ c. stack_wrap c.regs)
    sp ← asks (λ c. stack_ptr c.regs)
    v ← read16w reg_ss sp wrap
    update_regs (adjust_sp 2)
    pure v

  unfoldable pub pop32 : Exec S ℕ
  pop32 = do
    wrap ← asks (λ c. stack_wrap c.regs)
    sp ← asks (λ c. stack_ptr c.regs)
    v ← read32w reg_ss sp wrap
    update_regs (adjust_sp 4)
    pure v

  unfoldable pub pop : Exec S ℕ
  pop m = if m.cpu.osize32 then pop32 m else pop16 m

  unfoldable pub pop_sreg : Exec S ℕ
  pop_sreg = do
    wrap ← asks (λ c. stack_wrap c.regs)
    sp ← asks (λ c. stack_ptr c.regs)
    v ← read16w reg_ss sp wrap
    wide ← asks (λ c. c.osize32)
    update_regs (adjust_sp (if wide then 4 else 2))
    pure v
