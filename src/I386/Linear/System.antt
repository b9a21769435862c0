-- ===== src/I386/Linear/System.antt =====
-- Accesses to system structures are supervisor accesses, whatever the privilege level: they fault
-- only for a page that is not present.
use remu.Prelude.{
  ◌||◌, ◌/◌, ℕ, ◌+◌, ◌≡◌, refl, ◌∙◌, arith, Bool, true, false, not, ◌&&◌, Bool-cases, inl, inr, ltb,
  ◌==◌, u32, test, bit_and,
}
use remu.Prelude.Outcome.{Result, ok, err, bind, pure, always, ◌>>=◌}
use remu.I386.Bus.{Bus}
use remu.I386.Pte
use remu.I386.Cpu.{Machine, Exec, Exception, page_fault, slot_of, set_override}
use remu.I386.Paging.{
  user_access, fault_code, fault, mark_pde, mark_pte, write_back, complete, refill, second_level,
  walk, translate, allows, pde_address, pte_address,
}
use remu.I386.Linear.{
  paging, as_supervisor, read_within, split_read16, split_read32, lin_read8, lin_read16, lin_read32,
  sys_read32,
}

-- A result whose fault, if any, is that of a page that is not present, for a supervisor.
abbrev pub Absent : {A : Type 0} → Bool → Result Exception A → Type 0
Absent write (ok a) = Unit
Absent write (err x) = x ≡ page_fault (fault_code false write false)

-- With the override set, a command keeps it, and faults so at most.
abbrev IsSupervised : {S A : Type 0} → Bool → Exec S A → Machine S → Type 0
IsSupervised write f m = ((f m).1.cpu.supervisor_override ≡ true) × Absent write (f m).0

module _ {S : Type 0} ⦃b : Bus S⦄ where
  user_lem : (m : Machine S) → m.cpu.supervisor_override ≡ true → user_access m.cpu ≡ false
  unfolding user_access
  user_lem m h = ground (arith, h)

  mark_pde-override :
      (a pde : ℕ) (m : Machine S)
      → (mark_pde a pde m).cpu.supervisor_override ≡ m.cpu.supervisor_override
  unfolding mark_pde write_back
  mark_pde-override a pde m = elim (Bool-cases (test pde Pte.a)) [
    | inl e ↦ rw e refl
    | inr e ↦ rw e refl
  ]

  mark_pte-override :
      (write : Bool) (a pte : ℕ) (m : Machine S)
      → (mark_pte write a pte m).1.cpu.supervisor_override ≡ m.cpu.supervisor_override
  unfolding mark_pte write_back
  mark_pte-override write a pte m =
      elim (Bool-cases (not (test pte Pte.a) || (write && not (test pte Pte.d)))) [
        | inl e ↦ rw e refl
        | inr e ↦ rw e refl
      ]

  complete-IsSupervised :
      (lin : ℕ) (write : Bool) (pa pde qa pte : ℕ) (m : Machine S)
      → m.cpu.supervisor_override ≡ true
      → IsSupervised write (complete lin write pa pde qa pte) m
  unfolding complete refill
  complete-IsSupervised lin write pa pde qa pte m h =
      (mark_pte-override write qa pte (mark_pde pa pde m) ∙ mark_pde-override pa pde m ∙ h, tt)

  fault-IsSupervised :
      (lin : ℕ) (write : Bool) (m : Machine S)
      → m.cpu.supervisor_override ≡ true
      → IsSupervised write (fault lin (fault_code false write false)) m
  unfolding fault
  fault-IsSupervised lin write m h = (h, refl)

  second_level-IsSupervised :
      (lin : ℕ) (write : Bool) (pa pde : ℕ) (m : Machine S)
      → m.cpu.supervisor_override ≡ true
      → IsSupervised write (second_level lin write pa pde) m
  unfolding second_level
  second_level-IsSupervised lin write pa pde m h =
      let (pte, s) = b.read32 (pte_address pde lin) m.bus in
      let n : Machine S = record m { bus = s } in
      rw (user_lem m h) (elim (Bool-cases (test pte Pte.p)) [
        | inr e ↦ rw e (fault-IsSupervised lin write n h)
        | inl e ↦ rw e (complete-IsSupervised lin write pa pde (pte_address pde lin) pte n h)
      ])

  walk-IsSupervised :
      (lin : ℕ) (write : Bool) (m : Machine S)
      → m.cpu.supervisor_override ≡ true
      → IsSupervised write (walk lin write) m
  unfolding walk
  walk-IsSupervised lin write m h =
      let (pde, s) = b.read32 (pde_address m.cpu.regs.cr3 lin) m.bus in
      let n : Machine S = record m { bus = s } in
      rw (user_lem m h) (elim (Bool-cases (test pde Pte.p)) [
        | inr e ↦ rw e (fault-IsSupervised lin write n h)
        | inl e ↦
            rw e (second_level-IsSupervised lin write (pde_address m.cpu.regs.cr3 lin) pde n h)
      ])

  translate-IsSupervised :
      (lin : ℕ) (write : Bool) (m : Machine S)
      → m.cpu.supervisor_override ≡ true
      → IsSupervised write (translate lin write) m
  unfolding translate
  translate-IsSupervised lin write m h =
      let e = m.cpu.tlb.entries (slot_of (lin / 4096)) in
      elim (Bool-cases ((e.tag == lin / 4096) && allows e (user_access m.cpu) write)) [
        | inl k ↦ rw k (h, tt)
        | inr k ↦ rw k (walk-IsSupervised lin write m h)
      ]

  bind-IsSupervised :
      {A B : Type 0} (write : Bool) (r : Result Exception A) (k : A → Exec S B) (n : Machine S)
      → (n.cpu.supervisor_override ≡ true) × Absent write r
      → ((a : A) → IsSupervised write (k a) n)
      → ((bind (r, n) k).1.cpu.supervisor_override ≡ true) × Absent write (bind (r, n) k).0
  bind-IsSupervised write (ok a) k n h g = g a
  bind-IsSupervised write (err x) k n h g = h

  read_within-IsSupervised :
      (read : ℕ → S → ℕ × S) (lin : ℕ) (m : Machine S)
      → m.cpu.supervisor_override ≡ true
      → IsSupervised false (read_within read lin) m
  unfolding read_within always ◌>>=◌
  read_within-IsSupervised read lin m h =
      let t = translate-IsSupervised lin false m h in
      bind-IsSupervised false (translate lin false m).0 _ (translate lin false m).1 t
        (λ p. (t.0, tt))

  lin_read8-IsSupervised :
      (lin : ℕ) (m : Machine S)
      → m.cpu.supervisor_override ≡ true
      → IsSupervised false (lin_read8 lin) m
  unfolding lin_read8 always
  lin_read8-IsSupervised lin m h = elim (Bool-cases (paging m.cpu)) [
    | inl e ↦ rw e (read_within-IsSupervised b.read lin m h)
    | inr e ↦ rw e (h, tt)
  ]

  -- Two reads, one after the other.
  split-IsSupervised :
      (join : ℕ → ℕ → ℕ) (f g : Exec S ℕ) (m : Machine S)
      → ((n : Machine S) → n.cpu.supervisor_override ≡ true → IsSupervised false f n)
      → ((n : Machine S) → n.cpu.supervisor_override ≡ true → IsSupervised false g n)
      → m.cpu.supervisor_override ≡ true
      → IsSupervised false (f >>= λ lo. g >>= λ hi. pure (join lo hi)) m
  unfolding ◌>>=◌ pure
  split-IsSupervised join f g m p q h = bind-IsSupervised false (f m).0 _ (f m).1 (p m h) (λ lo.
      let second = q (f m).1 (p m h).0 in
      bind-IsSupervised false (g (f m).1).0 _ (g (f m).1).1 second (λ hi. (second.0, tt)))

  lin_read16-IsSupervised :
      (lin : ℕ) (m : Machine S)
      → m.cpu.supervisor_override ≡ true
      → IsSupervised false (lin_read16 lin) m
  unfolding lin_read16 split_read16 always
  lin_read16-IsSupervised lin m h = elim (Bool-cases (paging m.cpu)) [
    | inr off ↦ rw off (h, tt)
    | inl on ↦ elim (Bool-cases (ltb (bit_and lin 0xFFF) 0xFFF)) [
      | inl e ↦ rw (on, e) (read_within-IsSupervised b.read16 lin m h)
      | inr e ↦
          rw (on, e)
            (split-IsSupervised _ (lin_read8 lin) (lin_read8 (u32 (lin + 1))) m
              (lin_read8-IsSupervised lin) (lin_read8-IsSupervised (u32 (lin + 1))) h)
    ]
  ]

  lin_read32-IsSupervised :
      (lin : ℕ) (m : Machine S)
      → m.cpu.supervisor_override ≡ true
      → IsSupervised false (lin_read32 lin) m
  unfolding lin_read32 split_read32 always
  lin_read32-IsSupervised lin m h = elim (Bool-cases (paging m.cpu)) [
    | inr off ↦ rw off (h, tt)
    | inl on ↦ elim (Bool-cases (ltb (bit_and lin 0xFFF) 0xFFD)) [
      | inl e ↦ rw (on, e) (read_within-IsSupervised b.read32 lin m h)
      | inr e ↦
          rw (on, e)
            (split-IsSupervised _ (lin_read16 lin) (lin_read16 (u32 (lin + 2))) m
              (lin_read16-IsSupervised lin) (lin_read16-IsSupervised (u32 (lin + 2))) h)
    ]
  ]

  -- On any bus, at any privilege level, a double word read from a system structure is refused for
  -- no other reason than a page that is not present, with the error code of a supervisor's read, and
  -- the override is left as it was.
  pub sys_read32-Absent :
      (lin : ℕ) (m : Machine S)
      → Absent false (sys_read32 lin m).0
        × ((sys_read32 lin m).1.cpu.supervisor_override ≡ m.cpu.supervisor_override)
  unfolding as_supervisor
  sys_read32-Absent lin m = ((lin_read32-IsSupervised lin (set_override true m) refl).1, refl)
