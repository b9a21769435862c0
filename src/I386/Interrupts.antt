-- ===== src/I386/Interrupts.antt =====
-- x86_32/protected.rs and mod.rs: the delivery of interrupts and exceptions, and the check of the
-- permission to use a port.
use remu.Prelude.{
  ℕ, zero, suc, ◌+◌, ◌-◌, ◌*◌, ◌/◌, ◌^◌, Bool, true, false, not, ◌&&◌, ◌||◌, Option, none, some,
  ltb, ◌==◌, if◌then◌else◌, u16, u32, test, bit_and, bit_or, List, [], ◌∷◌,
}
use remu.Prelude.Outcome.{Result, ok, err, pure, ◌>>=◌, ◌>>◌}
use remu.I386.Bus.{Bus}
use remu.I386.Cr0
use remu.I386.EFlags.{EFlags, bits, image16, iopl_of}
use remu.I386.Registers.{Registers, SegReg, reg_cs, reg_ss}
use remu.I386.Cpu.{Cpu, Exec, Exception, HostTrap, general_protection, not_present, cpl}
use remu.I386.Linear.{sys_read8, sys_read16, sys_read32, as_supervisor}
use remu.I386.Segments.{asks, update_cpu, update_regs, refuse, stack_ptr, push16}
use remu.I386.Protected.{
  Descriptor, sys_type, is_code, is_conforming, present, descriptor_dpl, gate_sel, gate_off,
  index_of, prepare_cold_write, null_segment, parse_descriptor, read_descriptor, install, load_cs,
}
use remu.I386.Far.{gate_target, set_eip, real_cs}
use remu.I386.Calls.{tss_stack, switch_stack, push_size}

pub data Event : Type 0 where
  fault : Event
  soft_int : Event
  external : Event

abbrev is_soft : Event → Bool
is_soft soft_int = true
is_soft _ = false

-- The bit `EXT` of an error code.
abbrev ext_of : Event → ℕ
ext_of external = 1
ext_of _ = 0

-- The error code that names an entry of the interrupt table, and one that names a selector.
abbrev idt_err : ℕ → ℕ → ℕ
idt_err vector ext = vector * 8 + 2 + ext

abbrev sel_err : ℕ → ℕ → ℕ
sel_err sel ext = bit_or (index_of sel) ext

abbrev is_interrupt_gate : Descriptor → Bool
is_interrupt_gate d =
    (sys_type d == 6) || (sys_type d == 7) || (sys_type d == 14) || (sys_type d == 15)

abbrev is_trap : Descriptor → Bool
is_trap d = (sys_type d == 7) || (sys_type d == 15)

abbrev is_wide : Descriptor → Bool
is_wide d = (sys_type d == 14) || (sys_type d == 15)

-- The flags that a handler starts with: a trap keeps `IF`.
abbrev handler_flags : Bool → EFlags → EFlags
handler_flags trap f = record f {
  tf = false;
  nt = false;
  rf = false;
  iflag = if trap then f.iflag else false;
}

abbrev set_handler_flags : Bool → Registers → Registers
set_handler_flags trap r = record r { eflags = handler_flags trap r.eflags }

abbrev leave_v86 : Bool → Registers → Registers
leave_v86 trap r = record r { eflags = record (handler_flags trap r.eflags) { vm = false } }

-- The flags as they are pushed.
abbrev flags_image : Bool → EFlags → ℕ
flags_image wide f = if wide then bit_or (bits f) 2 else image16 f

-- `ES`, `DS`, `FS` and `GS` are not usable.
abbrev null_data_segs : Registers → Registers
null_data_segs r = record r {
  seg = λ i. if (i == 0) || (i == 3) || (i == 4) || (i == 5) then null_segment 0 else r.seg i;
}

abbrev clear_if_tf : Registers → Registers
clear_if_tf r = record r { eflags = record (r.eflags) { iflag = false; tf = false } }

-- What a delivery that failed leaves: the registers before it, but for `CR2`.
abbrev roll_back : Registers → Result Exception (Unit {0}) → Registers → Registers
roll_back snapshot (ok _) r = r
roll_back snapshot (err _) r = record snapshot { cr2 = r.cr2 }

abbrev set_host_trap : HostTrap → Cpu → Cpu
set_host_trap t c = record c { host_trap = some t; events = bit_or c.events 0x08 }

-- The vector that the host serves itself.
abbrev is_syscall : Option ℕ → ℕ → Bool
is_syscall none vector = false
is_syscall (some v) vector = v == vector

-- The gate of an interrupt, with what the delivery takes from it.
pub record IntGate : Type 0 where
  pub trap : Bool
  pub wide : Bool
  pub selector : ℕ
  pub target : Descriptor
  pub offset : ℕ

module _ {S : Type 0} ⦃b : Bus S⦄ where
  abbrev push_opt : Bool → Option ℕ → Exec S (Unit {0})
  push_opt wide none = pure tt
  push_opt wide (some v) = push_size wide v

  -- `SS` and the stack pointer, where the stack was switched.
  abbrev push_outer : Bool → Option (ℕ × ℕ) → Exec S (Unit {0})
  push_outer wide none = pure tt
  push_outer wide (some (ss, sp)) = do push_size wide ss; push_size wide sp

  unfoldable pub push_int_frame : Bool → Option (ℕ × ℕ) → Option ℕ → Exec S (Unit {0})
  push_int_frame wide outer error = do
    cs ← asks (λ c. (c.regs.seg reg_cs).sel)
    ip ← asks (λ c. c.regs.eip)
    push_outer wide outer
    fl ← asks (λ c. flags_image wide c.regs.eflags)
    push_size wide fl
    push_size wide cs
    push_size wide ip
    push_opt wide error

  abbrev push_selectors : Bool → Registers → List ℕ → Exec S (Unit {0})
  push_selectors wide old [] = pure tt
  push_selectors wide old (i ∷ rest) = do
    push_size wide (old.seg i).sel
    push_selectors wide old rest

  -- `GS`, `FS`, `DS` and `ES`, then the frame of the interrupted program.
  unfoldable pub push_v86_frame : Bool → Registers → ℕ → Option ℕ → Exec S (Unit {0})
  push_v86_frame wide old osp error = do
    push_selectors wide old (5 ∷ 4 ∷ 3 ∷ 0 ∷ [])
    push_size wide (old.seg reg_ss).sel
    push_size wide osp
    push_size wide (flags_image wide old.eflags)
    push_size wide (old.seg reg_cs).sel
    push_size wide old.eip
    push_opt wide error

  unfoldable pub v86_interrupt : Option ℕ → IntGate → ℕ → Exec S (Unit {0})
  v86_interrupt error gate ext = do
    refuse (not (descriptor_dpl gate.target == 0) || is_conforming gate.target)
        (general_protection (sel_err gate.selector ext))
    update_cpu prepare_cold_write
    (nss, nsp) ← tss_stack 0
    old ← asks (λ c. c.regs)
    osp ← asks (λ c. stack_ptr c.regs)
    update_regs (leave_v86 gate.trap)
    switch_stack nss nsp 0
    as_supervisor (push_v86_frame gate.wide old osp error)
    update_regs null_data_segs
    install reg_cs (index_of gate.selector) gate.target
    update_regs (set_eip (gate_target gate.wide gate.offset))

  -- The stack is switched to the one of the inner level.
  unfoldable pub interrupt_inner : Option ℕ → IntGate → Exec S (Unit {0})
  interrupt_inner error gate = do
    let level = descriptor_dpl gate.target
    (nss, nsp) ← tss_stack level
    oss ← asks (λ c. (c.regs.seg reg_ss).sel)
    osp ← asks (λ c. stack_ptr c.regs)
    switch_stack nss nsp level
    as_supervisor (push_int_frame gate.wide (some (oss, osp)) error)
    load_cs gate.selector gate.target level

  unfoldable pub interrupt_same : Option ℕ → IntGate → ℕ → ℕ → Exec S (Unit {0})
  interrupt_same error gate ext level = do
    refuse (not (is_conforming gate.target || (descriptor_dpl gate.target == level)))
        (general_protection (sel_err gate.selector ext))
    push_int_frame gate.wide none error
    load_cs gate.selector gate.target level

  unfoldable pub interrupt_level : Option ℕ → IntGate → ℕ → Exec S (Unit {0})
  interrupt_level error gate ext = do
    level ← asks (λ c. cpl c.regs)
    (if not (is_conforming gate.target) && ltb (descriptor_dpl gate.target) level
        then interrupt_inner error gate
        else interrupt_same error gate ext level)
    update_regs (set_eip (gate_target gate.wide gate.offset))
    update_regs (set_handler_flags gate.trap)

  -- The gate of a vector, after its checks.
  unfoldable pub int_gate : ℕ → Event → Exec S Descriptor
  int_gate vector class = do
    let bad = idt_err vector (ext_of class)
    idtr ← asks (λ c. c.regs.idtr)
    refuse (ltb idtr.limit (vector * 8 + 7)) (general_protection bad)
    let addr = u32 (idtr.base + vector * 8)
    lo ← sys_read32 addr
    hi ← sys_read32 (u32 (addr + 4))
    let gate = parse_descriptor addr lo hi
    refuse (not (is_interrupt_gate gate)) (general_protection bad)
    level ← asks (λ c. cpl c.regs)
    refuse (is_soft class && ltb (descriptor_dpl gate) level) (general_protection bad)
    refuse (not (present gate)) (not_present bad)
    pure gate

  -- The handler's segment, after its checks.
  unfoldable pub int_target : Descriptor → ℕ → Exec S IntGate
  int_target gate ext = do
    let sel = gate_sel gate
    refuse (index_of sel == 0) (general_protection ext)
    target ← read_descriptor sel
    level ← asks (λ c. cpl c.regs)
    refuse (not (is_code target) || ltb level (descriptor_dpl target))
        (general_protection (sel_err sel ext))
    refuse (not (present target)) (not_present (sel_err sel ext))
    let wide = is_wide gate
    let off = gate_off wide gate
    refuse (ltb target.limit off) (general_protection ext)
    pure
        (record { trap = is_trap gate; wide = wide; selector = sel; target = target; offset = off })

  unfoldable pub interrupt_protected : Exception → Event → Exec S (Unit {0})
  interrupt_protected e class = do
    d ← int_gate e.vector class
    gate ← int_target d (ext_of class)
    vm ← asks (λ c. c.regs.eflags.vm)
    (if vm
        then v86_interrupt e.error gate (ext_of class)
        else interrupt_level e.error gate (ext_of class))

  unfoldable pub interrupt_real : ℕ → Event → Exec S (Unit {0})
  interrupt_real vector class = do
    update_cpu prepare_cold_write
    idtr ← asks (λ c. c.regs.idtr)
    refuse (ltb idtr.limit (vector * 4 + 3)) (general_protection (idt_err vector (ext_of class)))
    ip ← sys_read16 (u32 (idtr.base + vector * 4))
    cs ← sys_read16 (u32 (idtr.base + (vector * 4 + 2)))
    flags ← asks (λ c. image16 c.regs.eflags)
    push16 flags
    old_cs ← asks (λ c. (c.regs.seg reg_cs).sel)
    old_ip ← asks (λ c. c.regs.eip)
    push16 old_cs
    push16 (u16 old_ip)
    update_regs clear_if_tf
    update_regs (real_cs cs)
    update_regs (set_eip ip)

  abbrev deliver : Exception → Event → Exec S (Unit {0})
  deliver e class m =
      if test m.cpu.regs.cr0 Cr0.pe
      then interrupt_protected e class m
      else interrupt_real e.vector class m

  unfoldable pub raise : Exception → Event → Exec S (Unit {0})
  raise e class m =
      let (r, n) = deliver e class m in
      (
        r,
        record n {
          cpu = record (n.cpu) {
            supervisor_override = m.cpu.supervisor_override;
            regs = roll_back m.cpu.regs r n.cpu.regs;
          };
        },
      )

  unfoldable pub software_int : ℕ → Exec S (Unit {0})
  software_int vector m =
      if is_syscall m.cpu.syscall_int vector
      then update_cpu (set_host_trap HostTrap.syscall) m
      else raise (record { vector = vector; error = none }) soft_int m

  -- The bytes of the bitmap from `a` on, `n` of them.
  unfoldable pub read_bitmap : ℕ → ℕ → ℕ → Exec S ℕ
  read_bitmap base a zero = pure 0
  read_bitmap base a (suc n) = do
    v ← sys_read8 (u32 (base + a))
    rest ← read_bitmap base (a + 1) n
    pure (bit_or v (rest * 256))

  unfoldable pub check_bitmap : ℕ → ℕ → SegReg → Exec S (Unit {0})
  check_bitmap port size tr = do
    refuse (not (test tr.attrs 0x08)) (general_protection 0)
    refuse (ltb tr.limit 0x67) (general_protection 0)
    iobase ← sys_read16 (u32 (tr.base + 0x66))
    let first = iobase + port / 8
    let last = iobase + (port + size - 1) / 8
    refuse (ltb tr.limit last) (general_protection 0)
    bitmap ← read_bitmap tr.base first (last + 1 - first)
    refuse (test bitmap ((2 ^ size - 1) * 2 ^ bit_and port 7)) (general_protection 0)

  unfoldable pub io_check : ℕ → ℕ → Exec S (Unit {0})
  io_check port size m =
      let r = m.cpu.regs in
      let free = not r.eflags.vm && not (ltb (iopl_of r.eflags) (cpl r)) in
      if not (test r.cr0 Cr0.pe) || free then (ok tt, m) else check_bitmap port size r.tr m
