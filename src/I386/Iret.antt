-- ===== src/I386/Iret.antt =====
-- x86_32/protected.rs: `IRET`, with the returns to outer levels and to virtual-8086 mode, and the
-- flags it may write, with `popf_mask` of execute.rs.
pub mod Flags
use remu.Prelude.{ℕ, not, ◌&&◌, ◌||◌, ltb, ◌==◌, if◌then◌else◌, u16, test, bit_and, bit_or}
use remu.Prelude.Outcome.{pure, raise, ◌>>=◌, ◌>>◌}
use remu.I386.Bus.{Bus}
use remu.I386.Cr0
use remu.I386.EFlags.{load, from_bits, not32, iopl_of}
use remu.I386.Registers.{Registers, reg_cs, reg_ss, reg_esp, with_gpr}
use remu.I386.Cpu.{Cpu, Exec, general_protection, not_present, cpl, protected_mode}
use remu.I386.Segments.{asks, update_cpu, update_regs, refuse, pop, pop32}
use remu.I386.Protected.{
  Descriptor, is_code, is_conforming, present, descriptor_dpl, index_of, rpl_of, prepare_cold_write,
  with_seg, virtual_segment, read_descriptor, load_cs,
}
use remu.I386.Far.{set_eip, far_real}
use remu.I386.Returns.{load_outer_ss, validate_data_segs}

abbrev pub defined_flags : ℕ
defined_flags = 0x7FD5

-- The mask at the operand size.
abbrev pub sized_mask : Cpu → ℕ
sized_mask c = if c.osize32 then bit_or defined_flags 0x10000 else defined_flags

-- The mask without `IOPL`, and without `IF` as well.
abbrev pub without_iopl : ℕ → ℕ
without_iopl mask = bit_and mask (not32 0x3000)

abbrev pub without_if : ℕ → ℕ
without_if mask = bit_and mask (not32 0x200)

abbrev pub level_mask : ℕ → ℕ → ℕ → ℕ
level_mask level iopl mask =
    if ltb 0 level
    then (if ltb iopl level then without_if (without_iopl mask) else without_iopl mask)
    else mask

unfoldable pub popf_mask : Cpu → ℕ
popf_mask c =
    let mask = sized_mask c in
    if protected_mode c.regs
    then level_mask (cpl c.regs) (iopl_of c.regs.eflags) mask
    else (if c.regs.eflags.vm then without_iopl mask else mask)

unfoldable pub iret_flag_mask : ℕ → Cpu → ℕ
iret_flag_mask level c = level_mask level (iopl_of c.regs.eflags) (sized_mask c)

abbrev pub load_flags : ℕ → ℕ → Registers → Registers
load_flags value mask r = record r { eflags = load value mask r.eflags }

-- The selectors of a frame of virtual-8086 mode.
pub record Selectors : Type 0 where
  pub cs : ℕ
  pub ss : ℕ
  pub es : ℕ
  pub ds : ℕ
  pub fs : ℕ
  pub gs : ℕ

-- The selectors of the words that were popped.
abbrev selectors : ℕ → ℕ → ℕ → ℕ → ℕ → ℕ → Selectors
selectors cs ss es ds fs gs = record {
  cs = cs;
  ss = u16 ss;
  es = u16 es;
  ds = u16 ds;
  fs = u16 fs;
  gs = u16 gs;
}

abbrev virtual_segs : Selectors → Registers → Registers
virtual_segs s r = with_seg 5 (virtual_segment s.gs) (
    with_seg 4 (virtual_segment s.fs) (
      with_seg 3 (virtual_segment s.ds) (
        with_seg 0 (virtual_segment s.es)
          (with_seg reg_ss (virtual_segment s.ss) (with_seg reg_cs (virtual_segment s.cs) r)))))

abbrev enter_v86 : Selectors → ℕ → ℕ → ℕ → Registers → Registers
enter_v86 s ip fl sp r =
    with_gpr reg_esp sp
      (set_eip (bit_and ip 0xFFFF) (virtual_segs s (record r { eflags = from_bits fl })))

module _ {S : Type 0} ⦃b : Bus S⦄ where
  unfoldable pub iret_to_v86 : ℕ → ℕ → ℕ → Exec S ℕ
  iret_to_v86 ip cs fl = do
    update_cpu prepare_cold_write
    sp ← pop32
    ss ← pop32
    es ← pop32
    ds ← pop32
    fs ← pop32
    gs ← pop32
    let s = selectors cs ss es ds fs gs
    update_regs (enter_v86 s ip fl sp)
    pure 60

  -- The return of real mode and of virtual-8086 mode, with the flags that `excluded` leaves.
  unfoldable pub iret_real : ℕ → Exec S ℕ
  iret_real excluded = do
    ip ← pop
    cs ← pop
    fl ← pop
    wide ← asks (λ c. c.osize32)
    far_real (u16 cs) (if wide then ip else bit_and ip 0xFFFF)
    mask ← asks popf_mask
    update_regs (load_flags fl (bit_and mask (not32 excluded)))
    pure 22

  -- `IOPL` and `VM` are left out of the mask in virtual-8086 mode.
  unfoldable pub iret_virtual : Exec S ℕ
  iret_virtual = do
    iopl ← asks (λ c. iopl_of c.regs.eflags)
    refuse (ltb iopl 3) (general_protection 0)
    iret_real 0x23000

  -- The checks of the code segment that is returned to.
  unfoldable pub check_return : ℕ → ℕ → Descriptor → Exec S (Unit {0})
  check_return sel ip d = do
    let rpl = rpl_of sel
    refuse (not (is_code d)) (general_protection (index_of sel))
    refuse (if is_conforming d then ltb rpl (descriptor_dpl d) else not (descriptor_dpl d == rpl))
        (general_protection (index_of sel))
    refuse (not (present d)) (not_present (index_of sel))
    refuse (ltb d.limit ip) (general_protection 0)

  unfoldable pub iret_outer : ℕ → ℕ → ℕ → ℕ → Descriptor → Exec S (Unit {0})
  iret_outer sel ip fl mask d = do
    sp ← pop
    ss ← pop
    load_cs sel d (rpl_of sel)
    load_outer_ss (u16 ss) sp (rpl_of sel)
    update_regs (set_eip ip)
    update_regs (load_flags fl mask)
    validate_data_segs (rpl_of sel)

  unfoldable pub iret_same : ℕ → ℕ → ℕ → ℕ → Descriptor → Exec S (Unit {0})
  iret_same sel ip fl mask d = do
    load_cs sel d (rpl_of sel)
    update_regs (set_eip ip)
    update_regs (load_flags fl mask)

  unfoldable pub iret_protected : ℕ → ℕ → ℕ → Exec S ℕ
  iret_protected ip sel fl = do
    refuse (index_of sel == 0) (general_protection 0)
    level ← asks (λ c. cpl c.regs)
    refuse (ltb (rpl_of sel) level) (general_protection (index_of sel))
    d ← read_descriptor sel
    check_return sel ip d
    mask ← asks (iret_flag_mask level)
    (if ltb level (rpl_of sel) then iret_outer sel ip fl mask d else iret_same sel ip fl mask d)
    pure 22

  unfoldable pub iret_frame : Exec S ℕ
  iret_frame = do
    nested ← asks (λ c. c.regs.eflags.nt)
    refuse nested (general_protection 0)
    ip ← pop
    sel ← pop
    fl ← pop
    virtual ← asks (λ c. c.osize32 && test fl 0x20000 && (cpl c.regs == 0))
    (if virtual then iret_to_v86 ip (u16 sel) fl else iret_protected ip (u16 sel) fl)

  unfoldable pub iret : Exec S ℕ
  iret m =
      if not (test m.cpu.regs.cr0 Cr0.pe)
      then iret_real 0 m
      else (if m.cpu.regs.eflags.vm then iret_virtual m else iret_frame m)
