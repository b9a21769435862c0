-- ===== src/I386/Protected.antt =====
-- x86_32/protected.rs: descriptors, and the loads of segment registers.
use remu.Prelude.{
  ℕ, ◌+◌, ◌*◌, ◌/◌, Bool, true, not, ◌&&◌, ◌||◌, ltb, ◌==◌, if◌then◌else◌, u8, u16, u32, test,
  bit_and, bit_or,
}
use remu.Prelude.Outcome.{ok, pure, ◌>>=◌, ◌>>◌}
use remu.I386.Bus.{Bus}
use remu.I386.Cr0
use remu.I386.Registers.{Registers, SegReg, reg_cs, reg_ss}
use remu.I386.Cpu.{Cpu, Exec, Exception, stack_fault, general_protection, not_present, cpl}
use remu.I386.Linear.{sys_read32, sys_write8}
use remu.I386.Segments.{asks, update_cpu, update_regs, refuse}

pub record Descriptor : Type 0 where
  pub addr : ℕ
  pub base : ℕ
  pub limit : ℕ
  pub attrs : ℕ
  pub lo : ℕ
  pub hi : ℕ

unfoldable pub sys_type : Descriptor → ℕ
sys_type d = bit_and d.attrs 0x0F

unfoldable pub is_code_data : Descriptor → Bool
is_code_data d = test d.attrs 0x10

unfoldable pub is_code : Descriptor → Bool
is_code d = bit_and d.attrs 0x18 == 0x18

unfoldable pub is_writable_data : Descriptor → Bool
is_writable_data d = bit_and d.attrs 0x1A == 0x12

unfoldable pub is_readable : Descriptor → Bool
is_readable d = not (test d.attrs 0x08) || test d.attrs 0x02

unfoldable pub is_conforming : Descriptor → Bool
is_conforming d = bit_and d.attrs 0x1C == 0x1C

unfoldable pub present : Descriptor → Bool
present d = test d.attrs 0x80

unfoldable pub wide_stack : Descriptor → Bool
wide_stack d = test d.attrs 0x0400

unfoldable pub descriptor_dpl : Descriptor → ℕ
descriptor_dpl d = u8 (bit_and (d.attrs / 32) 3)

unfoldable pub gate_sel : Descriptor → ℕ
gate_sel d = u16 (d.lo / 65536)

unfoldable pub gate_off : Bool → Descriptor → ℕ
gate_off wide d =
    let lo = bit_and d.lo 0xFFFF in if wide then bit_or (bit_and d.hi 0xFFFF0000) lo else lo

unfoldable pub gate_params : Descriptor → ℕ
gate_params d = bit_and d.hi 0x1F

-- `sel & 0xFFFC`, the selector without its privilege level, and that level.
abbrev pub index_of : ℕ → ℕ
index_of sel = bit_and sel 0xFFFC

abbrev pub rpl_of : ℕ → ℕ
rpl_of sel = bit_and sel 3

unfoldable pub table : ℕ → Registers → ℕ × ℕ
table sel r = if test sel 4 then (r.ldtr.base, r.ldtr.limit) else (r.gdtr.base, r.gdtr.limit)

unfoldable pub parse_descriptor : ℕ → ℕ → ℕ → Descriptor
parse_descriptor addr lo hi =
    let limit = bit_or (bit_and lo 0xFFFF) (bit_and hi 0x000F0000) in
    record {
      addr = addr;
      base = bit_or (bit_or (lo / 65536) (bit_and hi 0xFF * 65536)) (bit_and hi 0xFF000000);
      limit = if test hi 0x00800000 then bit_or (u32 (limit * 4096)) 0xFFF else limit;
      attrs = u16 (bit_or (bit_and (hi / 256) 0x0F00) (bit_and (hi / 256) 0xFF));
      lo = lo;
      hi = hi;
    }

unfoldable pub prepare_cold_write : Cpu → Cpu
prepare_cold_write c =
    if c.cold_saved then c else record c { cold_saved = true; fault_regs = c.regs }

abbrev pub with_seg : ℕ → SegReg → Registers → Registers
with_seg idx s r = record r { seg = λ i. if i == idx then s else r.seg i }

abbrev pub null_segment : ℕ → SegReg
null_segment sel = record { sel = sel; base = 0; limit = 0; attrs = 0 }

abbrev real_load : ℕ → ℕ → Registers → Registers
real_load idx sel r = with_seg idx (record (r.seg idx) { sel = sel; base = u32 (sel * 16) }) r

abbrev pub virtual_segment : ℕ → SegReg
virtual_segment sel = record { sel = sel; base = u32 (sel * 16); limit = 0xFFFF; attrs = 0x00F3 }

module _ {S : Type 0} where
  unfoldable pub commit_seg : ℕ → ℕ → Descriptor → Exec S (Unit {0})
  commit_seg idx sel d = do
    update_cpu prepare_cold_write
    update_regs (
        with_seg idx
          (record { sel = sel; base = d.base; limit = d.limit; attrs = bit_or d.attrs 0x80 }))

module _ {S : Type 0} ⦃b : Bus S⦄ where
  unfoldable pub read_descriptor_err : ℕ → (ℕ → Exception) → Exec S Descriptor
  read_descriptor_err sel fault = do
    (base, limit) ← asks (λ c. table sel c.regs)
    let index = bit_and sel 0xFFF8
    refuse (ltb limit (index + 7)) (fault (index_of sel))
    let addr = u32 (base + index)
    lo ← sys_read32 addr
    hi ← sys_read32 (u32 (addr + 4))
    pure (parse_descriptor addr lo hi)

  abbrev pub read_descriptor : ℕ → Exec S Descriptor
  read_descriptor sel = read_descriptor_err sel general_protection

  unfoldable pub mark_accessed : Descriptor → Exec S (Unit {0})
  mark_accessed d m =
      if is_code_data d && not (test d.attrs 1)
      then sys_write8 (u32 (d.addr + 5)) (bit_or (bit_and (d.hi / 256) 0xFF) 1) m
      else (ok tt, m)

  -- The descriptor's end of a load, after its checks.
  abbrev pub install : ℕ → ℕ → Descriptor → Exec S (Unit {0})
  install idx sel d = do mark_accessed d; commit_seg idx sel d

  unfoldable pub load_ss : ℕ → Exec S (Unit {0})
  load_ss sel = do
    refuse (index_of sel == 0) (general_protection 0)
    level ← asks (λ c. cpl c.regs)
    refuse (not (rpl_of sel == level)) (general_protection (index_of sel))
    d ← read_descriptor sel
    refuse (not (is_writable_data d) || not (descriptor_dpl d == level))
        (general_protection (index_of sel))
    refuse (not (present d)) (stack_fault (index_of sel))
    install reg_ss sel d

  -- A load of a selector that is not null.
  unfoldable pub load_data : ℕ → ℕ → Exec S (Unit {0})
  load_data idx sel = do
    d ← read_descriptor sel
    refuse (not (is_code_data d) || (is_code d && not (is_readable d)))
        (general_protection (index_of sel))
    level ← asks (λ c. cpl c.regs)
    refuse
        (not (is_conforming d)
          && (ltb (descriptor_dpl d) level || ltb (descriptor_dpl d) (rpl_of sel)))
        (general_protection (index_of sel))
    refuse (not (present d)) (not_present (index_of sel))
    install idx sel d

  unfoldable pub load_seg_protected : ℕ → ℕ → Exec S (Unit {0})
  load_seg_protected idx sel =
      if idx == reg_ss
      then load_ss sel
      else (if index_of sel == 0
          then update_regs (with_seg idx (null_segment sel))
          else load_data idx sel)

  abbrev load_by_mode : ℕ → ℕ → Exec S (Unit {0})
  load_by_mode idx sel m =
      if not (test m.cpu.regs.cr0 Cr0.pe)
      then update_regs (real_load idx sel) m
      else (if m.cpu.regs.eflags.vm
          then update_regs (with_seg idx (virtual_segment sel)) m
          else load_seg_protected idx sel m)

  unfoldable pub load_seg : ℕ → ℕ → Exec S (Unit {0})
  load_seg idx sel = do update_cpu prepare_cold_write; load_by_mode idx sel

  unfoldable pub load_cs : ℕ → Descriptor → ℕ → Exec S (Unit {0})
  load_cs sel d level = install reg_cs (bit_or (index_of sel) level) d
