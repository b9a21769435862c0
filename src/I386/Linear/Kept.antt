-- ===== src/I386/Linear/Kept.antt =====
-- On any bus, an access at a linear address keeps the registers but `CR2`.
use remu.Prelude.{
  ℕ, ◌+◌, ◌/◌, ◌≡◌, refl, ap, ◌∙◌, subst, sym, Bool, true, false, not, ◌&&◌, ◌||◌, Bool-cases, inl,
  inr, ltb, ◌==◌, u32, test, bit_and,
}
use remu.Prelude.Outcome.{bind_keeps, pure, always, ◌>>=◌}
use remu.Prelude.State.{modify}
use remu.I386.Bus.{Bus}
use remu.I386.Pte
use remu.I386.Registers.{Registers}
use remu.I386.Cpu.{Machine, Exec, slot_of, set_override}
use remu.I386.Paging.{
  user_access, denied, fault, mark_pde, mark_pte, write_back, complete, refill, second_level, walk,
  translate, allows, pde_address, pte_address,
}
use remu.I386.Linear.{
  paging, as_supervisor, read_within, write_within, store_at, split_read16, split_read32, lin_read8,
  lin_read16, lin_read32, lin_write8, sys_read32, sys_write8,
}

module _ {S : Type 0} where
  abbrev pub Kept : Machine S → Machine S → Type 0
  Kept m n = n.cpu.regs ≡ record (m.cpu.regs) { cr2 = n.cpu.regs.cr2 }

  pub Kept-trans : (m n o : Machine S) → Kept m n → Kept n o → Kept m o
  Kept-trans m n o f g = g ∙ ap (λ (r : Registers). record r { cr2 = o.cpu.regs.cr2 }) f

  -- Machines with the same registers.
  Kept-same : (m n : Machine S) → n.cpu.regs ≡ m.cpu.regs → Kept m n
  Kept-same m n e = subst (λ (r : Registers). r ≡ record (m.cpu.regs) { cr2 = r.cr2 }) (sym e) refl

  -- A command that keeps the registers so, in every machine.
  abbrev pub Keeps : {A : Type 0} → Exec S A → Type 0
  Keeps f = (m : Machine S) → Kept m (f m).1

  pub then-Keeps :
      {A B : Type 0} (f : Exec S A) (k : A → Exec S B)
      → Keeps f
      → ((a : A) → Keeps (k a))
      → Keeps (f >>= k)
  unfolding ◌>>=◌
  then-Keeps f k h g m = bind_keeps Kept Kept-trans (f m).0 k m (f m).1 (h m) (λ a. g a (f m).1)

  pub as_supervisor-Keeps : {A : Type 0} (f : Exec S A) → Keeps f → Keeps (as_supervisor f)
  unfolding as_supervisor
  as_supervisor-Keeps f h m = h (set_override true m)

module _ {S : Type 0} ⦃b : Bus S⦄ where
  mark_pde-regs : (a pde : ℕ) (m : Machine S) → (mark_pde a pde m).cpu.regs ≡ m.cpu.regs
  unfolding mark_pde write_back
  mark_pde-regs a pde m = elim (Bool-cases (test pde Pte.a)) [
    | inl e ↦ rw e refl
    | inr e ↦ rw e refl
  ]

  mark_pte-regs :
      (write : Bool) (a pte : ℕ) (m : Machine S) → (mark_pte write a pte m).1.cpu.regs ≡ m.cpu.regs
  unfolding mark_pte write_back
  mark_pte-regs write a pte m =
      elim (Bool-cases (not (test pte Pte.a) || (write && not (test pte Pte.d)))) [
        | inl e ↦ rw e refl
        | inr e ↦ rw e refl
      ]

  complete-Keeps :
      (lin : ℕ) (write : Bool) (pa pde qa pte : ℕ) (m : Machine S)
      → Kept m (complete lin write pa pde qa pte m).1
  unfolding complete refill
  complete-Keeps lin write pa pde qa pte m =
      let n = (complete lin write pa pde qa pte m).1 in
      Kept-same m n (mark_pte-regs write qa pte (mark_pde pa pde m) ∙ mark_pde-regs pa pde m)

  second_level-Keeps :
      (lin : ℕ) (write : Bool) (pa pde : ℕ) (m : Machine S)
      → Kept m (second_level lin write pa pde m).1
  unfolding second_level fault
  second_level-Keeps lin write pa pde m =
      let (pte, s) = b.read32 (pte_address pde lin) m.bus in
      let n : Machine S = record m { bus = s } in
      elim (Bool-cases (test pte Pte.p)) [
        | inr e ↦ rw e refl
        | inl e ↦ elim (Bool-cases (denied (user_access m.cpu) write pde pte)) [
          | inl d ↦ rw (e, d) refl
          | inr d ↦ rw (e, d) (complete-Keeps lin write pa pde (pte_address pde lin) pte n)
        ]
      ]

  walk-Keeps : (lin : ℕ) (write : Bool) → Keeps {S = S} (walk lin write)
  unfolding walk fault
  walk-Keeps lin write m =
      let (pde, s) = b.read32 (pde_address m.cpu.regs.cr3 lin) m.bus in
      let n : Machine S = record m { bus = s } in
      elim (Bool-cases (test pde Pte.p)) [
        | inr e ↦ rw e refl
        | inl e ↦ rw e (second_level-Keeps lin write (pde_address m.cpu.regs.cr3 lin) pde n)
      ]

  translate-Keeps : (lin : ℕ) (write : Bool) → Keeps {S = S} (translate lin write)
  unfolding translate
  translate-Keeps lin write m =
      let e = m.cpu.tlb.entries (slot_of (lin / 4096)) in
      elim (Bool-cases ((e.tag == lin / 4096) && allows e (user_access m.cpu) write)) [
        | inl k ↦ rw k refl
        | inr k ↦ rw k (walk-Keeps lin write m)
      ]

  read_within-Keeps : (read : ℕ → S → ℕ × S) (lin : ℕ) → Keeps {S = S} (read_within read lin)
  unfolding read_within always
  read_within-Keeps read lin =
      then-Keeps (translate lin false) _ (translate-Keeps lin false) (λ p m. refl)

  write_within-Keeps : (write : ℕ → S → S) (lin : ℕ) → Keeps {S = S} (write_within write lin)
  unfolding write_within store_at always modify
  write_within-Keeps write lin =
      then-Keeps (translate lin true) _ (translate-Keeps lin true) (λ p m. refl)

  lin_read8-Keeps : (lin : ℕ) → Keeps {S = S} (lin_read8 lin)
  unfolding lin_read8 always
  lin_read8-Keeps lin m = elim (Bool-cases (paging m.cpu)) [
    | inl e ↦ rw e (read_within-Keeps b.read lin m)
    | inr e ↦ rw e refl
  ]

  -- Two reads, one after the other.
  split-Keeps :
      (join : ℕ → ℕ → ℕ) (f g : Exec S ℕ)
      → Keeps f
      → Keeps g
      → Keeps {S = S} (f >>= λ lo. g >>= λ hi. pure (join lo hi))
  unfolding pure
  split-Keeps join f g p q = then-Keeps f _ p (λ lo. then-Keeps g _ q (λ hi m. refl))

  lin_read16-Keeps : (lin : ℕ) → Keeps {S = S} (lin_read16 lin)
  unfolding lin_read16 split_read16 always
  lin_read16-Keeps lin m = elim (Bool-cases (paging m.cpu)) [
    | inr off ↦ rw off refl
    | inl on ↦ elim (Bool-cases (ltb (bit_and lin 0xFFF) 0xFFF)) [
      | inl e ↦ rw (on, e) (read_within-Keeps b.read16 lin m)
      | inr e ↦
          rw (on, e)
            (split-Keeps _ (lin_read8 lin) (lin_read8 (u32 (lin + 1))) (lin_read8-Keeps lin)
              (lin_read8-Keeps (u32 (lin + 1))) m)
    ]
  ]

  lin_read32-Keeps : (lin : ℕ) → Keeps {S = S} (lin_read32 lin)
  unfolding lin_read32 split_read32 always
  lin_read32-Keeps lin m = elim (Bool-cases (paging m.cpu)) [
    | inr off ↦ rw off refl
    | inl on ↦ elim (Bool-cases (ltb (bit_and lin 0xFFF) 0xFFD)) [
      | inl e ↦ rw (on, e) (read_within-Keeps b.read32 lin m)
      | inr e ↦
          rw (on, e)
            (split-Keeps _ (lin_read16 lin) (lin_read16 (u32 (lin + 2))) (lin_read16-Keeps lin)
              (lin_read16-Keeps (u32 (lin + 2))) m)
    ]
  ]

  lin_write8-Keeps : (lin v : ℕ) → Keeps {S = S} (lin_write8 lin v)
  unfolding lin_write8 store_at always modify
  lin_write8-Keeps lin v m = elim (Bool-cases (paging m.cpu)) [
    | inl e ↦ rw e (write_within-Keeps (λ p. b.write p v) lin m)
    | inr e ↦ rw e refl
  ]

  pub sys_read32-Keeps : (lin : ℕ) → Keeps {S = S} (sys_read32 lin)
  sys_read32-Keeps lin = as_supervisor-Keeps (lin_read32 lin) (lin_read32-Keeps lin)

  pub sys_write8-Keeps : (lin v : ℕ) → Keeps {S = S} (sys_write8 lin v)
  sys_write8-Keeps lin v = as_supervisor-Keeps (lin_write8 lin v) (lin_write8-Keeps lin v)
