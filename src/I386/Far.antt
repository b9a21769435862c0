-- ===== src/I386/Far.antt =====
-- x86_32/protected.rs: the far transfers of control.
pub mod Checks
pub mod Jumps
pub mod Privilege
mod Tests
use remu.Prelude.{
  ℕ, zero, suc, ◌+◌, ◌-◌, ◌*◌, ◌/◌, ◌%◌, Bool, true, false, not, ◌&&◌, ◌||◌, ltb, ◌==◌,
  if◌then◌else◌, u16, u32, test, bit_and, bit_or, List, [], ◌∷◌, length,
}
use remu.Prelude.Outcome.{Result, ok, err, pure, raise, ◌>>=◌, ◌>>◌}
use remu.I386.Bus.{Bus}
use remu.I386.Registers.{Registers, SegReg, reg_cs, reg_ss, reg_esp, with_gpr, set_reg16}
use remu.I386.Cpu.{
  Cpu, Machine, Exec, Exception, stack_fault, general_protection, not_present, invalid_tss, cpl,
  protected_mode,
}
use remu.I386.Linear.{sys_read16, sys_read32, as_supervisor}
use remu.I386.Segments.{
  asks, update_cpu, update_regs, refuse, stack_ptr, adjust_sp, push, push16, push32, pop, read16,
  read32,
}
use remu.I386.Protected.{
  Descriptor, sys_type, is_code_data, is_code, is_writable_data, is_conforming, present, wide_stack,
  descriptor_dpl, gate_sel, gate_off, gate_params, index_of, rpl_of, prepare_cold_write, with_seg,
  null_segment, read_descriptor, read_descriptor_err, install, load_cs,
}

-- A call gate of either size.
abbrev pub is_call_gate : Descriptor → Bool
is_call_gate d = (sys_type d == 4) || (sys_type d == 12)

-- The offset of a transfer through a gate.
abbrev pub gate_target : Bool → ℕ → ℕ
gate_target wide off = if wide then off else bit_and off 0xFFFF

abbrev pub set_eip : ℕ → Registers → Registers
set_eip off r = record r { eip = off }

abbrev pub real_cs : ℕ → Registers → Registers
real_cs sel r = with_seg reg_cs (record (r.seg reg_cs) { sel = sel; base = u32 (sel * 16) }) r

-- The stack pointer, by the size of the stack's segment.
abbrev pub set_stack_ptr : Descriptor → ℕ → Registers → Registers
set_stack_ptr d sp r = if wide_stack d then with_gpr reg_esp sp r else set_reg16 reg_esp (u16 sp) r

-- The gate's fields, after its checks.
pub record Gate : Type 0 where
  pub target : ℕ
  pub offset : ℕ
  pub params : ℕ
  pub wide : Bool

module _ {S : Type 0} where
  unfoldable pub far_real : ℕ → ℕ → Exec S (Unit {0})
  far_real sel off = do
    update_cpu prepare_cold_write
    cs ← asks (λ c. c.regs.seg reg_cs)
    refuse (ltb cs.limit off) (general_protection 0)
    update_regs (λ r. set_eip off (real_cs sel r))

  unfoldable pub check_code_reachable : ℕ → Descriptor → Exec S (Unit {0})
  check_code_reachable sel d = do
    level ← asks (λ c. cpl c.regs)
    refuse
        (if is_conforming d
          then ltb level (descriptor_dpl d)
          else ltb level (rpl_of sel) || not (descriptor_dpl d == level))
        (general_protection (index_of sel))

  unfoldable pub check_gate : ℕ → Descriptor → Exec S Gate
  check_gate sel d = do
    level ← asks (λ c. cpl c.regs)
    refuse (ltb (descriptor_dpl d) level || ltb (descriptor_dpl d) (rpl_of sel))
        (general_protection (index_of sel))
    refuse (not (present d)) (not_present (index_of sel))
    let wide = sys_type d == 12
    pure (record {
      target = gate_sel d;
      offset = gate_off wide d;
      params = gate_params d;
      wide = wide;
    })

  unfoldable pub check_gate_target : ℕ → Descriptor → Exec S (Unit {0})
  check_gate_target sel d = do
    refuse (index_of sel == 0) (general_protection 0)
    refuse (not (is_code d)) (general_protection (index_of sel))
    level ← asks (λ c. cpl c.regs)
    refuse (ltb level (descriptor_dpl d)) (general_protection (index_of sel))
    refuse (not (present d)) (not_present (index_of sel))

module _ {S : Type 0} ⦃b : Bus S⦄ where
  -- The checks of a code segment that is reached without a gate.
  abbrev pub check_direct : ℕ → ℕ → Descriptor → Exec S (Unit {0})
  check_direct sel off d = do
    refuse (not (is_code d)) (general_protection (index_of sel))
    check_code_reachable sel d
    refuse (not (present d)) (not_present (index_of sel))
    refuse (ltb d.limit off) (general_protection 0)

  -- `CS` and `EIP`, at the privilege level there is.
  abbrev pub enter : ℕ → ℕ → Descriptor → Exec S (Unit {0})
  enter sel off d = do
    level ← asks (λ c. cpl c.regs)
    load_cs sel d level
    update_regs (set_eip off)

  unfoldable pub jump_code : ℕ → ℕ → Descriptor → Exec S (Unit {0})
  jump_code sel off d = do check_direct sel off d; enter sel off d

  unfoldable pub jump_gate : ℕ → Descriptor → Exec S (Unit {0})
  jump_gate sel d = do
    gate ← check_gate sel d
    target ← read_descriptor gate.target
    check_gate_target gate.target target
    level ← asks (λ c. cpl c.regs)
    refuse (not (is_conforming target) && not (descriptor_dpl target == level))
        (general_protection (index_of gate.target))
    let off = gate_target gate.wide gate.offset
    refuse (ltb target.limit off) (general_protection 0)
    enter gate.target off target

  abbrev pub jump_by : ℕ → ℕ → Descriptor → Exec S (Unit {0})
  jump_by sel off d =
      if is_code_data d
      then jump_code sel off d
      else (if is_call_gate d then jump_gate sel d else raise (general_protection (index_of sel)))

  unfoldable pub jump_protected : ℕ → ℕ → Exec S (Unit {0})
  jump_protected sel off = do
    refuse (index_of sel == 0) (general_protection 0)
    d ← read_descriptor sel
    jump_by sel off d

  unfoldable pub jump_far : ℕ → ℕ → Exec S (Unit {0})
  jump_far sel off m =
      if protected_mode m.cpu.regs then jump_protected sel off m else far_real sel off m
