-- ===== src/I386/Far/Jumps.antt =====
-- The far jumps of protected.rs, through their checks, to the segment they enter.
use remu.Prelude.{
  if◌then◌else◌, ℕ, ◌≡◌, refl, arith, true, not, ◌&&◌, ◌||◌, Bool-cases, inl, inr, ltb, ◌==◌,
}
use remu.Prelude.Outcome.{raise, bind, pure, ◌>>=◌}
use remu.I386.Bus.{Bus}
use remu.I386.Cpu.{general_protection, Machine, cpl}
use remu.I386.Linear.Kept.{Keeps, then-Keeps}
use remu.I386.Segments.{asks, refuse}
use remu.I386.Protected.{
  Descriptor, is_code_data, is_code, is_conforming, present, descriptor_dpl, index_of, rpl_of,
  read_descriptor,
}
use remu.I386.Far.{
  Gate, gate_target, check_gate, check_gate_target, jump_gate, jump_by, jump_protected,
  is_call_gate, check_code_reachable, check_direct, enter, jump_code,
}
use remu.I386.Far.Checks.{
  refuse-Keeps, asks-Keeps, read_descriptor-Keeps, enter-Enters, Enters, Checks, refuse-Checks,
  both_check, bind_checked, bind_entered,
}

module _ {S : Type 0} where
  check_code_reachable-Checks :
      (sel : ℕ) (d : Descriptor) (n : Machine S)
      → Checks
          ((is_conforming d || (descriptor_dpl d == cpl n.cpu.regs)) ≡ true)
          n
          (check_code_reachable sel d n)
  unfolding check_code_reachable asks ◌>>=◌
  check_code_reachable-Checks sel d n =
      let level = cpl n.cpu.regs in
      let passed =
        refuse-Checks
          (if is_conforming d
            then ltb level (descriptor_dpl d)
            else ltb level (rpl_of sel) || not (descriptor_dpl d == level))
          _ n in
      λ e. let (same, q) = passed e in (same, ground (arith, q))

module _ {S : Type 0} ⦃b : Bus S⦄ where
  -- The checks before a jump to a code segment.
  check_direct-Checks :
      (sel off : ℕ) (d : Descriptor) (n : Machine S)
      → Checks
          ((is_conforming d || (descriptor_dpl d == cpl n.cpu.regs)) ≡ true)
          n
          (check_direct sel off d n)
  unfolding ◌>>=◌
  check_direct-Checks sel off d n =
      let Reachable : Type 0 = (is_conforming d || (descriptor_dpl d == cpl n.cpu.regs)) ≡ true in
      both_check {R = Reachable} _ _ n _ (refuse-Checks (not (is_code d)) _ n) (λ _.
        both_check {R = Reachable} _ _ n _ (check_code_reachable-Checks sel d n) (λ reach.
          both_check {R = Reachable} _ _ n _ (refuse-Checks (not (present d)) _ n)
            (λ _ e. let (same, _) = refuse-Checks (ltb d.limit off) _ n e in (same, reach))))

  jump_code-Enters :
      (sel off : ℕ) (d : Descriptor) (m : Machine S) → Enters m (jump_code sel off d m)
  unfolding jump_code ◌>>=◌
  jump_code-Enters sel off d m =
      bind_checked m (check_direct sel off d m).0 (check_direct sel off d m).1 m _
        (check_direct-Checks sel off d m) (enter-Enters sel off d m)

  check_gate-Keeps : (sel : ℕ) (d : Descriptor) → Keeps {S = S} (check_gate sel d)
  unfolding check_gate pure
  check_gate-Keeps sel d = then-Keeps (asks _) _ (asks-Keeps _) (λ level.
      then-Keeps (refuse _ _) _ (refuse-Keeps _ _)
        (λ _. then-Keeps (refuse _ _) _ (refuse-Keeps _ _) (λ _ m. refl)))

  check_gate_target-Keeps : (sel : ℕ) (d : Descriptor) → Keeps {S = S} (check_gate_target sel d)
  unfolding check_gate_target
  check_gate_target-Keeps sel d = then-Keeps (refuse _ _) _ (refuse-Keeps _ _) (λ _.
      then-Keeps (refuse _ _) _ (refuse-Keeps _ _) (λ _.
        then-Keeps (asks _) _ (asks-Keeps _)
          (λ level. then-Keeps (refuse _ _) _ (refuse-Keeps _ _) (λ _. refuse-Keeps _ _))))

  -- The end of a jump through a gate, after the checks of the gate and its target.
  enter_target :
      (gate : Gate) (target : Descriptor) (m : Machine S)
      → Enters m (
          bind
            (refuse
              (not (is_conforming target) && not (descriptor_dpl target == cpl m.cpu.regs))
              (general_protection (index_of gate.target))
              m)
            (λ _.
              refuse (ltb target.limit (gate_target gate.wide gate.offset)) (general_protection 0)
              >>= λ _. enter gate.target (gate_target gate.wide gate.offset) target))
  unfolding ◌>>=◌
  enter_target gate target m =
      let level = not (is_conforming target) && not (descriptor_dpl target == cpl m.cpu.regs) in
      bind_checked m _ _ m _ (refuse-Checks level (general_protection (index_of gate.target)) m)
        (λ q.
          bind_checked m _ _ m _ (refuse-Checks _ (general_protection 0) m)
            (λ _. enter-Enters gate.target _ target m (ground (arith, q))))

  jump_gate-Enters : (sel : ℕ) (d : Descriptor) (m : Machine S) → Enters m (jump_gate sel d m)
  unfolding jump_gate asks ◌>>=◌
  jump_gate-Enters sel d m =
      bind_entered m (check_gate sel d m).0 (check_gate sel d m).1 _ (check_gate-Keeps sel d m)
        (λ gate.
          let n = (check_gate sel d m).1 in
          let read = read_descriptor gate.target n in
          bind_entered n read.0 read.1 _ (read_descriptor-Keeps gate.target n) (λ target.
            let checked = check_gate_target gate.target target read.1 in
            bind_entered read.1 checked.0 checked.1 _
              (check_gate_target-Keeps gate.target target read.1)
              (λ _. enter_target gate target checked.1)))

  jump_by-Enters : (sel off : ℕ) (d : Descriptor) (m : Machine S) → Enters m (jump_by sel off d m)
  unfolding raise
  jump_by-Enters sel off d m = elim (Bool-cases (is_code_data d)) [
    | inl e ↦ rw e (jump_code-Enters sel off d m)
    | inr e ↦ elim (Bool-cases (is_call_gate d)) [
      | inl g ↦ rw (e, g) (jump_gate-Enters sel d m)
      | inr g ↦ rw (e, g) (λ h. absurd (ground (arith, h)))
    ]
  ]

  pub jump_protected-Enters : (sel off : ℕ) (m : Machine S) → Enters m (jump_protected sel off m)
  unfolding jump_protected ◌>>=◌
  jump_protected-Enters sel off m =
      bind_checked m _ _ m _ (refuse-Checks (index_of sel == 0) (general_protection 0) m) (λ _.
        let read = read_descriptor sel m in
        bind_entered m read.0 read.1 _ (read_descriptor-Keeps sel m)
          (λ d. jump_by-Enters sel off d read.1))
