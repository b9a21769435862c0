-- ===== src/I386/Returns.antt =====
-- x86_32/protected.rs: the far returns, with the restoration of an outer stack.
use remu.Prelude.{ℕ, ◌/◌, not, ◌&&◌, ◌||◌, ltb, ◌==◌, if◌then◌else◌, u16, test, bit_and}
use remu.Prelude.Outcome.{pure, ◌>>=◌, ◌>>◌}
use remu.I386.Bus.{Bus}
use remu.I386.Registers.{Registers, SegReg, reg_ss}
use remu.I386.Cpu.{Exec, stack_fault, general_protection, not_present, cpl, protected_mode}
use remu.I386.Segments.{asks, update_cpu, update_regs, refuse, adjust_sp, pop}
use remu.I386.Protected.{
  Descriptor, is_code, is_writable_data, is_conforming, present, descriptor_dpl, index_of, rpl_of,
  prepare_cold_write, null_segment, read_descriptor, install, load_cs,
}
use remu.I386.Far.{set_eip, set_stack_ptr, far_real}

-- After a loss of privilege, a data segment that cannot be reached any more.
unfoldable pub still_reachable : ℕ → SegReg → SegReg
still_reachable level s =
    if test s.attrs 0x80
      && not (bit_and s.attrs 0x1C == 0x1C)
      && ltb (bit_and (s.attrs / 32) 3) level
    then null_segment 0
    else s

-- `ES`, `DS`, `FS` and `GS`
abbrev validate_segs : ℕ → Registers → Registers
validate_segs level r = record r {
  seg = λ i.
      if (i == 0) || (i == 3) || (i == 4) || (i == 5)
      then still_reachable level (r.seg i)
      else r.seg i;
}

module _ {S : Type 0} where
  unfoldable pub validate_data_segs : ℕ → Exec S (Unit {0})
  validate_data_segs level = do update_cpu prepare_cold_write; update_regs (validate_segs level)

module _ {S : Type 0} ⦃b : Bus S⦄ where
  unfoldable pub load_outer_ss : ℕ → ℕ → ℕ → Exec S (Unit {0})
  load_outer_ss ss sp rpl = do
    refuse (index_of ss == 0) (general_protection 0)
    refuse (not (rpl_of ss == rpl)) (general_protection (index_of ss))
    d ← read_descriptor ss
    refuse (not (is_writable_data d) || not (descriptor_dpl d == rpl))
        (general_protection (index_of ss))
    refuse (not (present d)) (stack_fault (index_of ss))
    install reg_ss ss d
    update_regs (set_stack_ptr d sp)

  -- A return to an outer level, with the caller's stack.
  unfoldable pub return_outer : ℕ → ℕ → Descriptor → ℕ → ℕ → Exec S (Unit {0})
  return_outer n sel d rpl ip = do
    sp ← pop
    ss ← pop
    load_cs sel d rpl
    update_regs (set_eip ip)
    load_outer_ss (u16 ss) sp rpl
    update_regs (adjust_sp n)
    validate_data_segs rpl

  unfoldable pub return_same : ℕ → Descriptor → ℕ → ℕ → Exec S (Unit {0})
  return_same sel d rpl ip = do load_cs sel d rpl; update_regs (set_eip ip)

  unfoldable pub retf_protected : ℕ → Exec S ℕ
  retf_protected n = do
    ip ← pop
    popped ← pop
    let sel = u16 popped
    refuse (index_of sel == 0) (general_protection 0)
    level ← asks (λ c. cpl c.regs)
    let rpl = rpl_of sel
    refuse (ltb rpl level) (general_protection (index_of sel))
    d ← read_descriptor sel
    refuse (not (is_code d)) (general_protection (index_of sel))
    refuse (if is_conforming d then ltb rpl (descriptor_dpl d) else not (descriptor_dpl d == rpl))
        (general_protection (index_of sel))
    refuse (not (present d)) (not_present (index_of sel))
    refuse (ltb d.limit ip) (general_protection 0)
    update_regs (adjust_sp n)
    (if ltb level rpl then return_outer n sel d rpl ip else return_same sel d rpl ip)
    pure 18

  unfoldable pub retf_real : ℕ → Exec S ℕ
  retf_real n = do
    ip ← pop
    popped ← pop
    update_regs (adjust_sp n)
    wide ← asks (λ c. c.osize32)
    far_real (u16 popped) (if wide then ip else bit_and ip 0xFFFF)
    pure 10

  unfoldable pub retf : ℕ → Exec S ℕ
  retf n m = if protected_mode m.cpu.regs then retf_protected n m else retf_real n m
