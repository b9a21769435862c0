-- ===== src/I386/Calls.antt =====
-- x86_32/protected.rs: the far calls, with the switch to an inner stack.
use remu.Prelude.{
  ℕ, zero, suc, ◌+◌, ◌*◌, Bool, not, ◌&&◌, ◌||◌, ltb, ◌==◌, if◌then◌else◌, u16, u32, test, List, [],
  ◌∷◌,
}
use remu.Prelude.Outcome.{pure, raise, ◌>>=◌, ◌>>◌}
use remu.I386.Bus.{Bus}
use remu.I386.Registers.{reg_cs, reg_ss}
use remu.I386.Cpu.{Exec, stack_fault, general_protection, invalid_tss, cpl, protected_mode}
use remu.I386.Linear.{sys_read16, sys_read32, as_supervisor}
use remu.I386.Segments.{asks, update_regs, refuse, stack_ptr, push, push16, push32, read16, read32}
use remu.I386.Protected.{
  Descriptor, is_code_data, is_writable_data, is_conforming, present, descriptor_dpl, index_of,
  rpl_of, read_descriptor, read_descriptor_err, install, load_cs,
}
use remu.I386.Far.{
  Gate, is_call_gate, gate_target, set_eip, set_stack_ptr, far_real, check_gate, check_gate_target,
  check_direct, enter,
}

module _ {S : Type 0} ⦃b : Bus S⦄ where
  unfoldable pub tss_stack : ℕ → Exec S (ℕ × ℕ)
  tss_stack level m =
      let tr = m.cpu.regs.tr in
      let fault = invalid_tss (index_of tr.sel) in
      let wide_off = 4 + level * 8 in
      let off = 2 + level * 4 in
      let wide : Exec S (ℕ × ℕ) = (do
        refuse (ltb tr.limit (wide_off + 5)) fault
        sp ← sys_read32 (u32 (tr.base + wide_off))
        ss ← sys_read16 (u32 (tr.base + (wide_off + 4)))
        pure (ss, sp)) in
      let narrow : Exec S (ℕ × ℕ) = (do
        refuse (ltb tr.limit (off + 3)) fault
        sp ← sys_read16 (u32 (tr.base + off))
        ss ← sys_read16 (u32 (tr.base + (off + 2)))
        pure (ss, sp)) in
      if test tr.attrs 0x08 then wide m else narrow m

  unfoldable pub switch_stack : ℕ → ℕ → ℕ → Exec S (Unit {0})
  switch_stack ss sp level = do
    refuse (index_of ss == 0) (invalid_tss 0)
    refuse (not (rpl_of ss == level)) (invalid_tss (index_of ss))
    d ← read_descriptor_err ss invalid_tss
    refuse (not (is_writable_data d) || not (descriptor_dpl d == level)) (invalid_tss (index_of ss))
    refuse (not (present d)) (stack_fault (index_of ss))
    install reg_ss ss d
    update_regs (set_stack_ptr d sp)

  -- The parameters that are left, `n` from the `i`-th on.
  unfoldable pub read_args : Bool → ℕ → ℕ → ℕ → Exec S (List ℕ)
  read_args wide old_sp zero i = pure []
  read_args wide old_sp (suc n) i = do
    let off = u32 (old_sp + i * (if wide then 4 else 2))
    v ← (if wide then read32 reg_ss off else read16 reg_ss off)
    rest ← read_args wide old_sp n (i + 1)
    pure (v ∷ rest)

  abbrev pub push_size : Bool → ℕ → Exec S (Unit {0})
  push_size wide v = if wide then push32 v else push16 (u16 v)

  -- The last parameter first.
  unfoldable pub push_args : Bool → List ℕ → Exec S (Unit {0})
  push_args wide [] = pure tt
  push_args wide (v ∷ rest) = do push_args wide rest; push_size wide v

  abbrev push_return : Bool → Exec S (Unit {0})
  push_return wide = do
    cs ← asks (λ c. (c.regs.seg reg_cs).sel)
    ip ← asks (λ c. c.regs.eip)
    push_size wide cs
    push_size wide ip

  unfoldable pub push_gate_frame : Bool → ℕ → ℕ → List ℕ → Exec S (Unit {0})
  push_gate_frame wide old_ss old_sp args = do
    push_size wide old_ss
    push_size wide old_sp
    push_args wide args
    push_return wide

  -- A call to an inner level, on the stack that the TSS names.
  unfoldable pub call_inner : Gate → Descriptor → Exec S (Unit {0})
  call_inner gate target = do
    let level = descriptor_dpl target
    (new_ss, new_sp) ← tss_stack level
    old_ss ← asks (λ c. (c.regs.seg reg_ss).sel)
    old_sp ← asks (λ c. stack_ptr c.regs)
    args ← read_args gate.wide old_sp gate.params 0
    switch_stack new_ss new_sp level
    as_supervisor (push_gate_frame gate.wide old_ss old_sp args)
    load_cs gate.target target level
    update_regs (set_eip (gate_target gate.wide gate.offset))

  unfoldable pub call_same : Gate → Descriptor → ℕ → Exec S (Unit {0})
  call_same gate target level = do
    push_return gate.wide
    load_cs gate.target target level
    update_regs (set_eip (gate_target gate.wide gate.offset))

  abbrev call_by_level : Gate → Descriptor → ℕ → Exec S (Unit {0})
  call_by_level gate target level =
      if not (is_conforming target) && ltb (descriptor_dpl target) level
      then call_inner gate target
      else call_same gate target level

  unfoldable pub call_gate : ℕ → Descriptor → Exec S (Unit {0})
  call_gate sel d = do
    gate ← check_gate sel d
    target ← read_descriptor gate.target
    check_gate_target gate.target target
    level ← asks (λ c. cpl c.regs)
    call_by_level gate target level

  -- The return address at the operand size.
  abbrev push_address : Exec S (Unit {0})
  push_address = do
    cs ← asks (λ c. (c.regs.seg reg_cs).sel)
    ip ← asks (λ c. c.regs.eip)
    push cs
    push ip

  unfoldable pub call_code : ℕ → ℕ → Descriptor → Exec S (Unit {0})
  call_code sel off d = do check_direct sel off d; push_address; enter sel off d

  abbrev call_by : ℕ → ℕ → Descriptor → Exec S (Unit {0})
  call_by sel off d =
      if is_code_data d
      then call_code sel off d
      else (if is_call_gate d then call_gate sel d else raise (general_protection (index_of sel)))

  unfoldable pub call_protected : ℕ → ℕ → Exec S (Unit {0})
  call_protected sel off = do
    refuse (index_of sel == 0) (general_protection 0)
    d ← read_descriptor sel
    call_by sel off d

  unfoldable pub call_real : ℕ → ℕ → Exec S (Unit {0})
  call_real sel off = do push_address; far_real sel off

  unfoldable pub call_far : ℕ → ℕ → Exec S (Unit {0})
  call_far sel off m =
      if protected_mode m.cpu.regs then call_protected sel off m else call_real sel off m
