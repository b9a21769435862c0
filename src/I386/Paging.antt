-- ===== src/I386/Paging.antt =====
-- x86_32/paging.rs: the walk of the two levels of tables, its cache, and the accesses at linear
-- addresses.
pub mod Bits
pub mod Marks
pub mod Coherent
pub mod Walk
pub mod Refine
pub mod Probe
use remu.Prelude.{
  ℕ, ◌+◌, ◌*◌, ◌/◌, Bool, true, false, not, ◌&&◌, ◌||◌, ltb, ◌==◌, if◌then◌else◌, u8, u16, u32,
  of_bool, test, bit_and, bit_or,
}
use remu.Prelude.State.{modify}
use remu.Prelude.Outcome.{Result, ok, err, pure, raise, ◌>>=◌, ◌>>◌, always}
use remu.I386.Bus.{Bus}
use remu.I386.Cr0
use remu.I386.Pte
use remu.I386.Cpu.{
  Cpu, Machine, Exec, Exception, TlbEntry, Tlb, page_fault, flush, slot_of, stamp_write,
  stamp_write_span, cpl, on_bus, update_bus, update_icache, set_override,
}

unfoldable pub user_access : Cpu → Bool
user_access c = (cpl c.regs == 3) && not c.supervisor_override

-- `e.user && (!write || e.writable)` for a user, and for all `!write || e.dirty`.
unfoldable pub allows : TlbEntry → Bool → Bool → Bool
allows e user write = (not user || (e.user && (not write || e.writable))) && (not write || e.dirty)

-- The error code of a fault.
unfoldable pub fault_code : Bool → Bool → Bool → ℕ
fault_code present write user =
    bit_or (bit_or (of_bool present) (of_bool write * 2)) (of_bool user * 4)

abbrev pub pde_address : ℕ → ℕ → ℕ
pde_address cr3 lin = bit_and cr3 0xFFFFF000 + lin / 4194304 * 4

abbrev pub pte_address : ℕ → ℕ → ℕ
pte_address pde lin = bit_and pde 0xFFFFF000 + bit_and (lin / 4096) 0x3FF * 4

-- The combined bits of the two levels.
unfoldable pub both : ℕ → ℕ → ℕ → Bool
both pde ptev bit = test (bit_and pde ptev) bit

abbrev pub denied : Bool → Bool → ℕ → ℕ → Bool
denied user write pde ptev =
    user && (not (both pde ptev Pte.us) || (write && not (both pde ptev Pte.rw)))

-- The entry of the second level with the bits that an access sets.
abbrev pub marked : Bool → ℕ → ℕ
marked write ptev = if write then bit_or (bit_or ptev Pte.a) Pte.d else bit_or ptev Pte.a

abbrev pub entry_of : ℕ → ℕ → ℕ → TlbEntry
entry_of lin pde ptev = record {
  tag = lin / 4096;
  phys = bit_and ptev 0xFFFFF000;
  user = both pde ptev Pte.us;
  writable = both pde ptev Pte.rw;
  dirty = test ptev Pte.d;
}

unfoldable pub put_entry : ℕ → TlbEntry → Tlb → Tlb
put_entry slot e t = record { entries = λ i. if i == slot then e else t.entries i }

module _ {S : Type 0} where
  -- `CR2` is set, and the fault is raised.
  unfoldable pub fault : ℕ → ℕ → Exec S ℕ
  fault lin code m = (
    err (page_fault code),
    record m { cpu = record (m.cpu) { regs = record (m.cpu.regs) { cr2 = lin } } },
  )

  unfoldable pub refill : ℕ → TlbEntry → Machine S → Machine S
  refill lin e m = record m {
    cpu = record (m.cpu) { tlb = put_entry (slot_of (lin / 4096)) e m.cpu.tlb };
  }

module _ {S : Type 0} ⦃b : Bus S⦄ where
  -- `icache.stamp_write`, then `write32`.
  unfoldable pub write_back : ℕ → ℕ → Machine S → Machine S
  write_back addr v m = update_bus (b.write32 addr v) (update_icache (stamp_write addr) m)

  -- The accessed bit of the first level.
  unfoldable pub mark_pde : ℕ → ℕ → Machine S → Machine S
  mark_pde addr pde m = if not (test pde Pte.a) then write_back addr (bit_or pde Pte.a) m else m

  -- The accessed and dirty bits of the second level: the entry, and the machine.
  unfoldable pub mark_pte : Bool → ℕ → ℕ → Machine S → ℕ × Machine S
  mark_pte write addr ptev m =
      let need_dirty = write && not (test ptev Pte.d) in
      let new = marked write ptev in
      if not (test ptev Pte.a) || need_dirty then (new, write_back addr new m) else (ptev, m)

  -- The rest of the walk once the access is allowed.
  unfoldable pub complete : ℕ → Bool → ℕ → ℕ → ℕ → ℕ → Exec S ℕ
  complete lin write pde_addr pde pte_addr ptev m =
      let (new, n) = mark_pte write pte_addr ptev (mark_pde pde_addr pde m) in
      (
        ok (bit_or (bit_and new 0xFFFFF000) (bit_and lin 0xFFF)),
        refill lin (entry_of lin pde new) n,
      )

  -- The walk from the entry of the first level on.
  unfoldable pub second_level : ℕ → Bool → ℕ → ℕ → Exec S ℕ
  second_level lin write pde_addr pde m =
      let user = user_access m.cpu in
      let pte_addr = pte_address pde lin in
      let (ptev, n) = on_bus (b.read32 pte_addr) m in
      if not (test ptev Pte.p)
      then fault lin (fault_code false write user) n
      else (if denied user write pde ptev
          then fault lin (fault_code true write user) n
          else complete lin write pde_addr pde pte_addr ptev n)

  unfoldable pub walk : ℕ → Bool → Exec S ℕ
  walk lin write m =
      let user = user_access m.cpu in
      let pde_addr = pde_address m.cpu.regs.cr3 lin in
      let (pde, n) = on_bus (b.read32 pde_addr) m in
      if not (test pde Pte.p)
      then fault lin (fault_code false write user) n
      else second_level lin write pde_addr pde n

  unfoldable pub translate : ℕ → Bool → Exec S ℕ
  translate lin write m =
      let page = lin / 4096 in
      let e = m.cpu.tlb.entries (slot_of page) in
      if (e.tag == page) && allows e (user_access m.cpu) write
      then (ok (bit_or e.phys (bit_and lin 0xFFF)), m)
      else walk lin write m
