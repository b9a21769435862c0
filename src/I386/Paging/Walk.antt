-- ===== src/I386/Paging/Walk.antt =====
-- The walk on plain memory: its branches, and what it keeps.
use remu.Prelude.{
  ℕ, ◌/◌, ◌^◌, ◌<◌, ◌≡◌, refl, sym, subst, ◌∙◌, Bool, true, false, not, if◌then◌else◌, Bool-cases,
  inl, inr, test,
}
use remu.I386.Bus.{Bus}
use remu.I386.Memory.{IsMemory}
use remu.I386.Registers.{Registers}
use remu.I386.Cpu.{Machine, Exec, Tlb, slot_of}
use remu.I386.Pte
use remu.I386.Paging.{
  user_access, fault_code, pde_address, pte_address, denied, entry_of, put_entry, fault, refill,
  mark_pde, mark_pte, complete, second_level, walk,
}
use remu.I386.Paging.Marks.{
  pde_address-aligned, pde_address-lt, pte_address-aligned, pte_address-lt, word_at, Marks,
  Marks-refl, Marks-trans, IsFirst, IsSecond, mark_pde-IsFirst, mark_pte-IsSecond,
}
use remu.I386.Paging.Coherent.{
  entry_of-Reflects, Reflects-page, Reflects-frame, Reflects, pde_at, pte_at, Coherent, IsCoherent,
  Coherent-Marks, put_entry-Coherent,
}

module _ {S : Type 0} ⦃b : Bus S⦄ (memory : IsMemory b) where
  -- What an access keeps: the registers but `CR2`, the override, and memory but for marks; and the
  -- cache agrees with the tables if it did.
  pub record IsAccess (m n : Machine S) : Type 0 where
    pub regs : n.cpu.regs ≡ record (m.cpu.regs) { cr2 = n.cpu.regs.cr2 }
    pub supervisor : n.cpu.supervisor_override ≡ m.cpu.supervisor_override
    pub marks : Marks memory m.bus n.bus
    pub coherent : IsCoherent memory m → IsCoherent memory n

module _ {S : Type 0} ⦃b : Bus S⦄ (memory : IsMemory b) (lin : ℕ) (bound : lin < 2 ^ 32) where
  abbrev pub first : Machine S → ℕ
  first m = pde_at memory m.bus m.cpu.regs.cr3 lin

  abbrev pub second : Machine S → ℕ
  second m = pte_at memory m.bus m.cpu.regs.cr3 lin

  -- The walk, by the two entries.
  abbrev pub checked : Bool → ℕ → ℕ → Exec S ℕ
  checked write pde pte m =
      if not (test pte Pte.p)
      then fault lin (fault_code false write (user_access m.cpu)) m
      else (if denied (user_access m.cpu) write pde pte
          then fault lin (fault_code true write (user_access m.cpu)) m
          else complete lin write (pde_address m.cpu.regs.cr3 lin) pde (pte_address pde lin) pte m)

  abbrev pub walked : Bool → ℕ → ℕ → Exec S ℕ
  walked write pde pte m =
      if not (test pde Pte.p)
      then fault lin (fault_code false write (user_access m.cpu)) m
      else checked write pde pte m

  second_level_lem :
      (write : Bool) (m : Machine S)
      → second_level lin write (pde_address m.cpu.regs.cr3 lin) (first m) m
        ≡ checked write (first m) (second m) m
  unfolding second_level
  second_level_lem write m =
      rw
        (memory.read32-words (pte_address (first m) lin) m.bus (pte_address-aligned (first m) lin)
          (pte_address-lt (first m) lin))
        refl

  pub walk_lem :
      (write : Bool) (m : Machine S) → walk lin write m ≡ walked write (first m) (second m) m
  unfolding walk
  walk_lem write m =
      let cr3 = m.cpu.regs.cr3 in
      rw
        (
          memory.read32-words (pde_address cr3 lin) m.bus (pde_address-aligned cr3 lin)
              (pde_address-lt cr3 lin bound),
          second_level_lem write m,
        )
        refl

  fault-IsAccess : (code : ℕ) (m : Machine S) → IsAccess memory m (fault lin code m).1
  unfolding fault
  fault-IsAccess code m = record {
    regs = refl;
    supervisor = refl;
    marks = Marks-refl memory m.bus;
    coherent = λ h. h;
  }

  module _ (write : Bool) (m : Machine S)
      (present : (test (first m) Pte.p ≡ true) × (test (second m) Pte.p ≡ true)) where
    abbrev marked_first : Machine S
    marked_first = mark_pde (pde_address m.cpu.regs.cr3 lin) (first m) m

    abbrev marked_second : ℕ × Machine S
    marked_second = mark_pte write (pte_address (first m) lin) (second m) marked_first

    first_lem : IsFirst memory (pde_address m.cpu.regs.cr3 lin) m marked_first
    first_lem =
        let cr3 = m.cpu.regs.cr3 in
        mark_pde-IsFirst memory (pde_address cr3 lin) m (pde_address-aligned cr3 lin)
          (pde_address-lt cr3 lin bound)

    second_lem :
        IsSecond memory
          (pte_address (first m) lin)
          (second m)
          marked_first
          marked_second.0
          marked_second.1
    second_lem =
        let f = first_lem in
        let a = pte_address (first m) lin in
        mark_pte-IsSecond memory a (second m) marked_first (pte_address-aligned (first m) lin)
          (pte_address-lt (first m) lin) (f.marks (memory.cell a)) (f.dirty (memory.cell a)) write

    walk-Marks : Marks memory m.bus marked_second.1.bus
    walk-Marks =
        Marks-trans memory m.bus marked_first.bus marked_second.1.bus first_lem.marks
          second_lem.marks

    entry-Reflects :
        Reflects
          (entry_of lin (first m) marked_second.0)
          (pde_at memory marked_second.1.bus m.cpu.regs.cr3 lin)
          (pte_at memory marked_second.1.bus m.cpu.regs.cr3 lin)
    entry-Reflects =
        let f = first_lem in
        let g = second_lem in
        let all_marks = walk-Marks in
        let a = pde_address m.cpu.regs.cr3 lin in
        let s = marked_second.1.bus in
        let pde = pde_at memory s m.cpu.regs.cr3 lin in
        let pte = word_at memory s (pte_address (first m) lin) in
        Reflects-frame memory (entry_of lin (first m) marked_second.0) s m.cpu.regs.cr3 (first m)
          lin (all_marks (memory.cell a))
          (entry_of-Reflects lin (first m) (second m) marked_second.0 pde pte
            (all_marks (memory.cell a)) g.marked
            (all_marks (memory.cell (pte_address (first m) lin))) present
            ((g.marks (memory.cell a)).accessed f.accessed, g.accessed) g.dirty)

    complete-IsAccess :
        IsAccess memory m
          (complete lin write
            (pde_address m.cpu.regs.cr3 lin)
            (first m)
            (pte_address (first m) lin)
            (second m)
            m).1
    unfolding complete refill
    complete-IsAccess =
        let f = first_lem in
        let g = second_lem in
        let n = marked_second.1 in
        let e = entry_of lin (first m) marked_second.0 in
        let regs : n.cpu.regs ≡ m.cpu.regs = g.kept.0 ∙ f.kept.0 in
        let tlb : n.cpu.tlb ≡ m.cpu.tlb = g.kept.1 ∙ f.kept.1 in
        record {
          regs = subst (λ (r : Registers). r ≡ record (m.cpu.regs) { cr2 = r.cr2 }) (sym regs) refl;
          supervisor = g.kept.2 ∙ f.kept.2;
          marks = walk-Marks;
          coherent = λ h.
              subst
                (λ (t : Tlb).
                  Coherent memory (put_entry (slot_of (lin / 4096)) e t) n.cpu.regs.cr3 n.bus)
                (sym tlb)
                (subst
                  (λ (r : Registers).
                    Coherent memory (put_entry (slot_of (lin / 4096)) e m.cpu.tlb) r.cr3 n.bus)
                  (sym regs)
                  (put_entry-Coherent memory (slot_of (lin / 4096)) e m.cpu.tlb m.cpu.regs.cr3 n.bus
                    (Reflects-page memory e n.bus m.cpu.regs.cr3 lin entry-Reflects)
                    (Coherent-Marks memory m.cpu.tlb m.cpu.regs.cr3 m.bus n.bus walk-Marks h)));
        }

  checked-IsAccess :
      (write : Bool) (m : Machine S)
      → test (first m) Pte.p ≡ true
      → IsAccess memory m (checked write (first m) (second m) m).1
  checked-IsAccess write m h = elim (Bool-cases (test (second m) Pte.p)) [
    | inr e ↦ rw e (fault-IsAccess (fault_code false write (user_access m.cpu)) m)
    | inl e ↦ elim (Bool-cases (denied (user_access m.cpu) write (first m) (second m))) [
      | inl d ↦ rw (e, d) (fault-IsAccess (fault_code true write (user_access m.cpu)) m)
      | inr d ↦ rw (e, d) (complete-IsAccess write m (h, e))
    ]
  ]

  pub walk-IsAccess : (write : Bool) (m : Machine S) → IsAccess memory m (walk lin write m).1
  walk-IsAccess write m = rw (walk_lem write m) (elim (Bool-cases (test (first m) Pte.p)) [
    | inl e ↦ rw e (checked-IsAccess write m e)
    | inr e ↦ rw e (fault-IsAccess (fault_code false write (user_access m.cpu)) m)
  ])
