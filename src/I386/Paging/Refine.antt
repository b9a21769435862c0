-- ===== src/I386/Paging/Refine.antt =====
-- The cache of translations is not seen: with it, accesses give what the walk of the tables alone
-- gives.
use remu.Prelude.{
  ℕ, ◌*◌, ◌/◌, ◌^◌, ◌<◌, ◌≡◌, refl, ap, sym, subst, ◌∙◌, arith, Bool, true, false, not, ◌&&◌, ◌||◌,
  ◌==◌, Bool-cases, inl, inr, test, bit_and, bit_or, List, [], ◌∷◌, All,
}
use remu.Prelude.Outcome.{Result, ok}
use remu.I386.Bus.{Bus}
use remu.I386.Memory.{IsMemory}
use remu.I386.Cpu.{Machine, Exec, Exception, TlbEntry, slot_of, new_tlb}
use remu.I386.Pte
use remu.I386.Paging.{
  user_access, pde_address, pte_address, denied, fault, refill, mark_pde, mark_pte, complete,
  second_level, walk, translate, allows, write_back,
}
use remu.I386.Paging.Marks.{Marks-refl}
use remu.I386.Paging.Coherent.{Reflects, pde_at, pte_at, IsCoherent, Reflects-address}
use remu.I386.Paging.Walk.{first, second, walk_lem, IsAccess, walk-IsAccess}

-- The machine without its cache, and the access of such a machine: a walk each time.
abbrev pub forget : {S : Type 0} → Machine S → Machine S
forget m = record m { cpu = record (m.cpu) { tlb = new_tlb } }

unfoldable pub uncached : {S : Type 0} ⦃b : Bus S⦄ → ℕ → Bool → Exec S ℕ
uncached lin write m = let (r, n) = walk lin write m in (r, forget n)

-- A sequence of accesses, each at an address and for a write or not, with their results.
abbrev pub Access : Type 0
Access = ℕ × Bool

unfoldable pub run :
    {S : Type 0}
    → (ℕ → Bool → Exec S ℕ)
    → List Access
    → Machine S
    → List (Result Exception ℕ) × Machine S
run access [] m = ([], m)
run access ((lin, write) ∷ rest) m =
    let (r, n) = access lin write m in let (rs, last) = run access rest n in (r ∷ rs, last)

module _ {S : Type 0} ⦃b : Bus S⦄ where
  -- A method that does not look at the cache.
  abbrev Blind : {A : Type 0} → (Machine S → A × Machine S) → Machine S → Type 0
  Blind f m = ((f (forget m)).0 ≡ (f m).0) × (forget (f (forget m)).1 ≡ forget (f m).1)

  mark_pde-forget :
      (a pde : ℕ) (m : Machine S) → mark_pde a pde (forget m) ≡ forget (mark_pde a pde m)
  unfolding mark_pde write_back
  mark_pde-forget a pde m = elim (Bool-cases (test pde Pte.a)) [
    | inl e ↦ rw e refl
    | inr e ↦ rw e refl
  ]

  mark_pte-forget :
      (write : Bool) (a pte : ℕ) (m : Machine S)
      → mark_pte write a pte (forget m)
        ≡ ((mark_pte write a pte m).0, forget (mark_pte write a pte m).1)
  unfolding mark_pte write_back
  mark_pte-forget write a pte m =
      elim (Bool-cases (not (test pte Pte.a) || (write && not (test pte Pte.d)))) [
        | inl e ↦ rw e refl
        | inr e ↦ rw e refl
      ]

  complete-Blind :
      (lin : ℕ) (write : Bool) (pa pde qa pte : ℕ) (m : Machine S)
      → Blind (complete lin write pa pde qa pte) m
  unfolding complete refill
  complete-Blind lin write pa pde qa pte m =
      rw (mark_pde-forget pa pde m, mark_pte-forget write qa pte (mark_pde pa pde m)) (refl, refl)

  second_level-Blind :
      (lin : ℕ) (write : Bool) (pa pde : ℕ) (m : Machine S)
      → Blind (second_level lin write pa pde) m
  unfolding second_level fault user_access
  second_level-Blind lin write pa pde m =
      let (pte, s) = b.read32 (pte_address pde lin) m.bus in
      let n : Machine S = record m { bus = s } in
      elim (Bool-cases (test pte Pte.p)) [
        | inr e ↦ rw e (refl, refl)
        | inl e ↦ elim (Bool-cases (denied (user_access m.cpu) write pde pte)) [
          | inl d ↦ rw (e, d) (refl, refl)
          | inr d ↦ rw (e, d) (complete-Blind lin write pa pde (pte_address pde lin) pte n)
        ]
      ]

  walk-Blind : (lin : ℕ) (write : Bool) (m : Machine S) → Blind (walk lin write) m
  unfolding walk fault user_access
  walk-Blind lin write m =
      let (pde, s) = b.read32 (pde_address m.cpu.regs.cr3 lin) m.bus in
      let n : Machine S = record m { bus = s } in
      elim (Bool-cases (test pde Pte.p)) [
        | inr e ↦ rw e (refl, refl)
        | inl e ↦ rw e (second_level-Blind lin write (pde_address m.cpu.regs.cr3 lin) pde n)
      ]

module _ {S : Type 0} ⦃b : Bus S⦄ (memory : IsMemory b) (lin : ℕ) (bound : lin < 2 ^ 32) where
  abbrev entry : Machine S → TlbEntry
  entry m = m.cpu.tlb.entries (slot_of (lin / 4096))

  -- An entry that agrees with the tables, and allows an access: the walk changes nothing but the
  -- cache, and finds the entry's page.
  walked-hit :
      (e : TlbEntry) (write : Bool) (pde pte : ℕ) (m : Machine S)
      → Reflects e pde pte
      → allows e (user_access m.cpu) write ≡ true
      → (denied (user_access m.cpu) write pde pte ≡ false)
        × ((not (test pte Pte.a) || (write && not (test pte Pte.d))) ≡ false)
  unfolding allows
  walked-hit e write pde pte m r h = ground (arith, h, r.user, r.writable, r.dirty, r.accessed.1)

  complete-hit :
      (write : Bool) (pa pde qa pte : ℕ) (m : Machine S)
      → test pde Pte.a ≡ true
      → (not (test pte Pte.a) || (write && not (test pte Pte.d))) ≡ false
      → ((complete lin write pa pde qa pte m).0
          ≡ ok (bit_or (bit_and pte 0xFFFFF000) (bit_and lin 0xFFF)))
        × (forget (complete lin write pa pde qa pte m).1 ≡ forget m)
  unfolding complete mark_pde mark_pte refill
  complete-hit write pa pde qa pte m h k = rw (h, k) (refl, refl)

  entry-Reflects :
      (m : Machine S)
      → IsCoherent memory m
      → (entry m).tag ≡ lin / 4096
      → Reflects (entry m) (first memory lin bound m) (second memory lin bound m)
  entry-Reflects m h e = Reflects-address memory (entry m) m.bus m.cpu.regs.cr3 lin (
      subst
        (λ (page : ℕ).
          Reflects (entry m) (pde_at memory m.bus m.cpu.regs.cr3 (page * 4096))
            (pte_at memory m.bus m.cpu.regs.cr3 (page * 4096)))
        e (h (slot_of (lin / 4096)) (omega (arith, e, bound))))

  walk-hit :
      (write : Bool) (m : Machine S)
      → IsCoherent memory m
      → (entry m).tag ≡ lin / 4096
      → allows (entry m) (user_access m.cpu) write ≡ true
      → ((walk lin write m).0 ≡ ok (bit_or (entry m).phys (bit_and lin 0xFFF)))
        × (forget (walk lin write m).1 ≡ forget m)
  walk-hit write m h e k =
      let r = entry-Reflects m h e in
      let pde = first memory lin bound m in
      let pte = second memory lin bound m in
      let hit = walked-hit (entry m) write pde pte m r k in
      rw (walk_lem memory lin bound write m, r.present.0, r.present.1, hit.0, r.phys)
        (complete-hit write (pde_address m.cpu.regs.cr3 lin) pde (pte_address pde lin) pte m
          r.accessed.0 hit.1)

  -- `translate` at a hit and at a miss.
  pub translate-walk :
      (write : Bool) (m : Machine S)
      → IsCoherent memory m
      → ((translate lin write m).0 ≡ (walk lin write m).0)
        × (forget (translate lin write m).1 ≡ forget (walk lin write m).1)
  unfolding translate
  translate-walk write m h =
      elim (Bool-cases
        (((entry m).tag == lin / 4096) && allows (entry m) (user_access m.cpu) write)) [
          | inl e ↦
              let hit = walk-hit write m h (ground (arith, e)) (ground (arith, e)) in
              rw e (sym hit.0, sym hit.1)
          | inr e ↦ rw e (refl, refl)
        ]

  -- On plain memory, for an address of 32 bits, whether it faults or not: a translation keeps the
  -- registers but `CR2`, the override, and all 32 bits of every double word of memory but the accessed
  -- and the dirty one, bits 5 and 6, which it clears in none; and a cache that agrees with the page
  -- tables agrees with them after it.
  pub translate-IsAccess :
      (write : Bool) (m : Machine S) → IsAccess memory m (translate lin write m).1
  unfolding translate
  translate-IsAccess write m =
      elim (Bool-cases
        (((entry m).tag == lin / 4096) && allows (entry m) (user_access m.cpu) write)) [
          | inl e ↦ rw e (record {
            regs = refl;
            supervisor = refl;
            marks = Marks-refl memory m.bus;
            coherent = λ h. h;
          })
          | inr e ↦ rw e (walk-IsAccess memory lin bound write m)
        ]

  translate-uncached :
      (write : Bool) (m : Machine S)
      → IsCoherent memory m
      → ((translate lin write m).0 ≡ (uncached lin write (forget m)).0)
        × (forget (translate lin write m).1 ≡ (uncached lin write (forget m)).1)
  unfolding uncached
  translate-uncached write m h =
      let (r, n) = translate-walk write m h in
      let (q, k) = walk-Blind lin write m in (r ∙ sym q, n ∙ sym k)

module _ {S : Type 0} ⦃b : Bus S⦄ (memory : IsMemory b) where
  -- On plain memory, with a cache that agrees with the page tables: a sequence of translations, each
  -- for a read or a write, gives the addresses and the faults that walks of the tables alone give,
  -- and leaves the same memory and the same processor, its cache apart.
  pub run-uncached :
      (rs : List Access) (m : Machine S)
      → All (λ (r : Access). r.0 < 2 ^ 32) rs
      → IsCoherent memory m
      → ((run translate rs m).0 ≡ (run uncached rs (forget m)).0)
        × (forget (run translate rs m).1 ≡ (run uncached rs (forget m)).1)
  unfolding run
  run-uncached [] m bounds h = (refl, refl)
  run-uncached ((lin, write) ∷ rest) m bounds h =
      let n = (translate lin write m).1 in
      let (r, s) = translate-uncached memory lin bounds.0 write m h in
      let k = (translate-IsAccess memory lin bounds.0 write m).coherent h in
      let (rs, last) = run-uncached rest n bounds.1 k in
      rw (← r, ← s) (ap (λ (t : List (Result Exception ℕ)). (translate lin write m).0 ∷ t) rs, last)
