-- ===== src/I386/Linear.antt =====
-- x86_32/paging.rs: the accesses at linear addresses, which the segments' accesses, the system
-- structures and the hosts go through.
pub mod Faults
pub mod System
pub mod Kept
use remu.Prelude.{
  ℕ, zero, suc, ◌+◌, ◌*◌, ◌/◌, ◌^◌, Bool, true, false, not, List, [], ◌∷◌, ltb, if◌then◌else◌, u8,
  u16, u32, get_or, test, bit_and, bit_or,
}
use remu.Prelude.State.{modify}
use remu.Prelude.Outcome.{Result, ok, err, pure, ◌>>=◌, ◌>>◌, always}
use remu.I386.Bus.{Bus}
use remu.I386.Cr0
use remu.I386.Cpu.{
  Cpu, Machine, Exec, flush, stamp_write, stamp_write_span, on_bus, update_bus, update_icache,
  set_override,
}
use remu.I386.Paging.{translate}

unfoldable pub paging : Cpu → Bool
paging c = test c.regs.cr0 Cr0.pg

abbrev offset : ℕ → ℕ
offset lin = bit_and lin 0xFFF

module _ {S : Type 0} where
  unfoldable pub flush_tlb : Machine S → Machine S
  flush_tlb m = record m { cpu = record (m.cpu) { tlb = flush m.cpu.tlb } }

  abbrev pub invalidate_tlb : Machine S → Machine S
  invalidate_tlb = flush_tlb

  -- An access to a system structure: with the override, which is put back after it.
  unfoldable pub as_supervisor : {A : Type 0} → Exec S A → Exec S A
  as_supervisor access m =
      let sup = m.cpu.supervisor_override in
      let (r, n) = access (set_override true m) in (r, set_override sup n)

module _ {S : Type 0} ⦃b : Bus S⦄ where
  abbrev read_bus : {A : Type 0} → (S → A × S) → Exec S A
  read_bus f = always (on_bus f)

  -- The stamp of a store, then the store.
  unfoldable pub store : (S → S) → ℕ → ℕ → Exec S (Unit {0})
  store f first last =
      always (modify λ m. update_bus f (update_icache (stamp_write_span first last) m))

  unfoldable pub store_at : (S → S) → ℕ → Exec S (Unit {0})
  store_at f phys = always (modify λ m. update_bus f (update_icache (stamp_write phys) m))

  -- A read of one page: at the linear address itself where paging is off.
  unfoldable pub read_within : {A : Type 0} → (ℕ → S → A × S) → ℕ → Exec S A
  read_within read lin = do phys ← translate lin false; read_bus (read phys)

  unfoldable pub lin_read8 : ℕ → Exec S ℕ
  lin_read8 lin m = if paging m.cpu then read_within b.read lin m else read_bus (b.read lin) m

  unfoldable pub split_read16 : ℕ → Exec S ℕ
  split_read16 lin = do
    lo ← lin_read8 lin
    hi ← lin_read8 (u32 (lin + 1))
    pure (bit_or lo (u16 (hi * 256)))

  unfoldable pub lin_read16 : ℕ → Exec S ℕ
  lin_read16 lin m =
      if not (paging m.cpu)
      then read_bus (b.read16 lin) m
      else (if ltb (offset lin) 0xFFF then read_within b.read16 lin m else split_read16 lin m)

  unfoldable pub split_read32 : ℕ → Exec S ℕ
  split_read32 lin = do
    lo ← lin_read16 lin
    hi ← lin_read16 (u32 (lin + 2))
    pure (bit_or lo (u32 (hi * 65536)))

  unfoldable pub lin_read32 : ℕ → Exec S ℕ
  lin_read32 lin m =
      if not (paging m.cpu)
      then read_bus (b.read32 lin) m
      else (if ltb (offset lin) 0xFFD then read_within b.read32 lin m else split_read32 lin m)

  -- A write to one page.
  unfoldable pub write_within : (ℕ → S → S) → ℕ → Exec S (Unit {0})
  write_within write lin = do phys ← translate lin true; store_at (write phys) phys

  unfoldable pub lin_write8 : ℕ → ℕ → Exec S (Unit {0})
  lin_write8 lin v m =
      if paging m.cpu
      then write_within (λ phys. b.write phys v) lin m
      else store_at (b.write lin v) lin m

  unfoldable pub split_write16 : ℕ → ℕ → Exec S (Unit {0})
  split_write16 lin v = do
    p0 ← translate lin true
    p1 ← translate (u32 (lin + 1)) true
    store (λ s. b.write p1 (u8 (v / 256)) (b.write p0 (u8 v) s)) p0 p1

  unfoldable pub lin_write16 : ℕ → ℕ → Exec S (Unit {0})
  lin_write16 lin v m =
      if not (paging m.cpu)
      then store (b.write16 lin v) lin (u32 (lin + 1)) m
      else (if ltb (offset lin) 0xFFF
          then write_within (λ phys. b.write16 phys v) lin m
          else split_write16 lin v m)

  -- The first loop: the pages of the `n` bytes from the `i`-th on.
  unfoldable pub translate_bytes : ℕ → ℕ → ℕ → Exec S (List ℕ)
  translate_bytes zero i lin = pure []
  translate_bytes (suc n) i lin = do
    p ← translate (u32 (lin + i)) true
    ps ← translate_bytes n (i + 1) lin
    pure (p ∷ ps)

  -- The second loop, from the `i`-th byte on.
  unfoldable pub write_each : List ℕ → ℕ → ℕ → S → S
  write_each [] i v s = s
  write_each (p ∷ ps) i v s = write_each ps (i + 1) v (b.write p (u8 (v / 2 ^ (8 * i))) s)

  unfoldable pub split_write32 : ℕ → ℕ → Exec S (Unit {0})
  split_write32 lin v = do
    phys ← translate_bytes 4 0 lin
    store (write_each phys 0 v) (get_or phys 0 0) (get_or phys 3 0)

  unfoldable pub lin_write32 : ℕ → ℕ → Exec S (Unit {0})
  lin_write32 lin v m =
      if not (paging m.cpu)
      then store (b.write32 lin v) lin (u32 (lin + 3)) m
      else (if ltb (offset lin) 0xFFD
          then write_within (λ phys. b.write32 phys v) lin m
          else split_write32 lin v m)

  abbrev pub sys_read8 : ℕ → Exec S ℕ
  sys_read8 lin = as_supervisor (lin_read8 lin)

  abbrev pub sys_read16 : ℕ → Exec S ℕ
  sys_read16 lin = as_supervisor (lin_read16 lin)

  abbrev pub sys_read32 : ℕ → Exec S ℕ
  sys_read32 lin = as_supervisor (lin_read32 lin)

  abbrev pub sys_write8 : ℕ → ℕ → Exec S (Unit {0})
  sys_write8 lin v = as_supervisor (lin_write8 lin v)

  abbrev pub read_linear8 : ℕ → Exec S ℕ
  read_linear8 = lin_read8

  abbrev pub read_linear16 : ℕ → Exec S ℕ
  read_linear16 = lin_read16

  abbrev pub read_linear32 : ℕ → Exec S ℕ
  read_linear32 = lin_read32

  abbrev pub write_linear8 : ℕ → ℕ → Exec S (Unit {0})
  write_linear8 = lin_write8

  abbrev pub write_linear16 : ℕ → ℕ → Exec S (Unit {0})
  write_linear16 = lin_write16

  abbrev pub write_linear32 : ℕ → ℕ → Exec S (Unit {0})
  write_linear32 = lin_write32

  unfoldable pub translate_linear : ℕ → Bool → Exec S ℕ
  translate_linear lin write m = if paging m.cpu then translate lin write m else (ok lin, m)
