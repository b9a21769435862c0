-- ===== src/I386/Cpu.antt =====
-- x86_32/mod.rs, and the parts of icache.rs and paging.rs that are its state: the 386 less the
-- entries of its instruction cache, exceptions, and commands on the processor with its bus.
use remu.Prelude.{
  ℕ, ◌+◌, ◌-◌, ◌/◌, Bool, false, not, ◌&&◌, ◌||◌, Option, none, some, ◌==◌, if◌then◌else◌, u64,
  test, bit_and, bit_or,
}
use remu.Prelude.State.{Method}
use remu.Prelude.Outcome.{Fallible}
use remu.I386.Cr0
use remu.I386.Registers.{Registers, power_on, reg_cs, dpl}

pub record Exception : Type 0 where
  pub vector : ℕ
  pub error : Option ℕ

abbrev fault_with : ℕ → ℕ → Exception
fault_with vector code = record { vector = vector; error = some code }

-- `Exception::ts`, `np`, `ss`, `gp` and `pf`
abbrev pub invalid_tss : ℕ → Exception
invalid_tss = fault_with 10

abbrev pub not_present : ℕ → Exception
not_present = fault_with 11

abbrev pub stack_fault : ℕ → Exception
stack_fault = fault_with 12

abbrev pub general_protection : ℕ → Exception
general_protection = fault_with 13

abbrev pub page_fault : ℕ → Exception
page_fault = fault_with 14

-- `TLB_SIZE` and `EMPTY`
abbrev pub tlb_size : ℕ
tlb_size = 256

abbrev pub empty_tag : ℕ
empty_tag = 0xFFFFFFFF

pub record TlbEntry : Type 0 where
  pub tag : ℕ
  pub phys : ℕ
  pub user : Bool
  pub writable : Bool
  pub dirty : Bool

-- The entries by their slot.
pub record Tlb : Type 0 where
  pub entries : ℕ → TlbEntry

abbrev pub empty_entry : TlbEntry
empty_entry = record { tag = empty_tag; phys = 0; user = false; writable = false; dirty = false }

-- `Tlb::new`
abbrev pub new_tlb : Tlb
new_tlb = record { entries = λ _. empty_entry }

unfoldable pub flush : Tlb → Tlb
flush t = record { entries = λ slot. record (t.entries slot) { tag = empty_tag } }

abbrev pub slot_of : ℕ → ℕ
slot_of page = bit_and page (tlb_size - 1)

unfoldable pub peek : ℕ → Bool → Tlb → Option ℕ
peek lin user t =
    let page = lin / 4096 in
    let e = t.entries (slot_of page) in
    if (e.tag == page) && (not user || e.user)
    then some (bit_or e.phys (bit_and lin 0xFFF))
    else none

abbrev pub stamp_slots : ℕ
stamp_slots = 16384

-- The write stamps and clocks of the instruction cache.
pub record Icache : Type 0 where
  pub stamps : ℕ → ℕ
  pub clock : ℕ
  pub inval : ℕ

abbrev pub new_icache : Icache
new_icache = record { stamps = λ _. 0; clock = 1; inval = 1 }

unfoldable pub stamp_write : ℕ → Icache → Icache
stamp_write phys c =
    let clock = u64 (c.clock + 1) in
    let slot = bit_and (phys / 4096) (stamp_slots - 1) in
    record c { clock = clock; stamps = λ i. if i == slot then clock else c.stamps i }

unfoldable pub stamp_write_span : ℕ → ℕ → Icache → Icache
stamp_write_span first last c =
    let stamped = stamp_write first c in
    if first / 4096 == last / 4096 then stamped else stamp_write last stamped

unfoldable pub invalidate_all : Icache → Icache
invalidate_all c = let clock = u64 (c.clock + 1) in record c { clock = clock; inval = clock }

pub data HostTrap : Type 0 where
  syscall : HostTrap
  exception : Exception → HostTrap

pub record Cpu : Type 0 where
  pub regs : Registers
  pub cycles : ℕ
  pub halted : Bool
  pub shutdown : Bool
  pub events : ℕ
  pub intr : Option ℕ
  pub seg_override : Option ℕ
  pub rep : Option Bool
  pub lock : Bool
  pub lock_ok : Bool
  pub osize32 : Bool
  pub asize32 : Bool
  pub start_eip : ℕ
  pub commit_on_fault : Bool
  pub ilen : ℕ
  pub fault_regs : Registers
  pub cold_saved : Bool
  pub supervisor_override : Bool
  pub tlb : Tlb
  pub icache : Icache
  pub syscall_int : Option ℕ
  pub trap_faults : Bool
  pub extensions : Bool
  pub host_trap : Option HostTrap

-- `Cpu::new`
abbrev pub new_cpu : Cpu
new_cpu = record {
  regs = power_on;
  cycles = 0;
  halted = false;
  shutdown = false;
  events = 0;
  intr = none;
  seg_override = none;
  rep = none;
  lock = false;
  lock_ok = false;
  osize32 = false;
  asize32 = false;
  start_eip = 0;
  commit_on_fault = false;
  ilen = 0;
  fault_regs = power_on;
  cold_saved = false;
  supervisor_override = false;
  tlb = new_tlb;
  icache = new_icache;
  syscall_int = none;
  trap_faults = false;
  extensions = false;
  host_trap = none;
}

unfoldable pub reset : Cpu → Cpu
reset c = record c {
  regs = power_on;
  halted = false;
  shutdown = false;
  events = 0;
  intr = none;
  supervisor_override = false;
  tlb = flush c.tlb;
  icache = invalidate_all c.icache;
  host_trap = none;
}

unfoldable pub protected_mode : Registers → Bool
protected_mode r = test r.cr0 Cr0.pe && not (r.eflags.vm)

unfoldable pub cpl : Registers → ℕ
cpl r = if r.eflags.vm then 3 else (if protected_mode r then dpl (r.seg reg_cs) else 0)

-- A processor with its bus: what `&mut self` and `bus` give a method.
pub record Machine (S : Type 0) : Type 0 where
  pub cpu : Cpu
  pub bus : S

-- `Exec<T>`, returned by a method that has the bus.
abbrev pub Exec : Type 0 → Type 0 → Type 0
Exec S A = Fallible Exception (Machine S) A

module _ {S : Type 0} where
  -- An access to the bus.
  abbrev pub on_bus : {A : Type 0} → (S → A × S) → Method (Machine S) A
  on_bus f m = let (a, s) = f m.bus in (a, record m { bus = s })

  abbrev pub update_bus : (S → S) → Machine S → Machine S
  update_bus f m = record m { bus = f m.bus }

  abbrev pub update_icache : (Icache → Icache) → Machine S → Machine S
  update_icache f m = record m { cpu = record (m.cpu) { icache = f m.cpu.icache } }

  abbrev pub set_override : Bool → Machine S → Machine S
  set_override b m = record m { cpu = record (m.cpu) { supervisor_override = b } }
