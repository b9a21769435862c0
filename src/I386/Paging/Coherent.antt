-- ===== src/I386/Paging/Coherent.antt =====
-- The cache of translations agrees with the page tables, and the walk keeps it so.
use remu.Prelude.{
  ℕ, ◌+◌, ◌*◌, ◌/◌, ◌<◌, ◌≡◌, ap₂, sym, subst, ◌∙◌, arith, Bool, true, ◌&&◌, ◌==◌, Bool-cases, inl,
  inr, test, bit_and,
}
use remu.I386.Bus.{Bus}
use remu.I386.Memory.{IsMemory}
use remu.I386.Cpu.{Machine, Tlb, TlbEntry, flush}
use remu.I386.Pte
use remu.I386.Paging.{pde_address, pte_address, both, entry_of, put_entry}
use remu.I386.Paging.Bits.{
  IsMarked, IsMarked-refl, frame_kept, present_kept, writable_kept, user_kept, both-us, both-rw,
}
use remu.I386.Paging.Marks.{word_at, Marks}

-- An entry of the cache agrees with the two entries of the tables: they are present and marked as
-- accessed, and a dirty one is marked dirty.
pub record Reflects (e : TlbEntry) (pde pte : ℕ) : Type 0 where
  pub present : (test pde Pte.p ≡ true) × (test pte Pte.p ≡ true)
  pub accessed : (test pde Pte.a ≡ true) × (test pte Pte.a ≡ true)
  pub phys : e.phys ≡ bit_and pte 0xFFFFF000
  pub user : e.user ≡ both pde pte Pte.us
  pub writable : e.writable ≡ both pde pte Pte.rw
  pub dirty : e.dirty ≡ true → test pte Pte.d ≡ true

pub both-us_marked :
    (p q p2 q2 : ℕ) → IsMarked p p2 → IsMarked q q2 → both p q Pte.us ≡ both p2 q2 Pte.us
both-us_marked p q p2 q2 f g =
    both-us p q ∙ ap₂ (λ (s t : Bool). s && t) (user_kept f) (user_kept g) ∙ sym (both-us p2 q2)

pub both-rw_marked :
    (p q p2 q2 : ℕ) → IsMarked p p2 → IsMarked q q2 → both p q Pte.rw ≡ both p2 q2 Pte.rw
both-rw_marked p q p2 q2 f g =
    both-rw p q
    ∙ ap₂ (λ (s t : Bool). s && t) (writable_kept f) (writable_kept g)
    ∙ sym (both-rw p2 q2)

Reflects-marked :
    (e : TlbEntry) (p q p2 q2 : ℕ)
    → IsMarked p p2
    → IsMarked q q2
    → Reflects e p q
    → Reflects e p2 q2
Reflects-marked e p q p2 q2 f g r = record {
  present = (sym (present_kept f) ∙ r.present.0, sym (present_kept g) ∙ r.present.1);
  accessed = (f.accessed r.accessed.0, g.accessed r.accessed.1);
  phys = r.phys ∙ frame_kept g;
  user = r.user ∙ both-us_marked p q p2 q2 f g;
  writable = r.writable ∙ both-rw_marked p q p2 q2 f g;
  dirty = λ d. g.dirty (r.dirty d);
}

-- The entry that a walk leaves in the cache, from the entries `pde` and `pte` that it read.
pub entry_of-Reflects :
    (lin pde pte new pde2 pte2 : ℕ)
    → IsMarked pde pde2
    → IsMarked pte new
    → IsMarked pte pte2
    → (test pde Pte.p ≡ true) × (test pte Pte.p ≡ true)
    → (test pde2 Pte.a ≡ true) × (test pte2 Pte.a ≡ true)
    → (test new Pte.d ≡ true → test pte2 Pte.d ≡ true)
    → Reflects (entry_of lin pde new) pde2 pte2
entry_of-Reflects lin pde pte new pde2 pte2 f g h present accessed dirty =
    let same = IsMarked-refl pde in
    record {
      present = (sym (present_kept f) ∙ present.0, sym (present_kept h) ∙ present.1);
      accessed = accessed;
      phys = sym (frame_kept g) ∙ frame_kept h;
      user = sym (both-us_marked pde pte pde new same g) ∙ both-us_marked pde pte pde2 pte2 f h;
      writable = sym (both-rw_marked pde pte pde new same g) ∙ both-rw_marked pde pte pde2 pte2 f h;
      dirty = dirty;
    }

module _ {S : Type 0} ⦃b : Bus S⦄ (memory : IsMemory b) where
  -- The entries of the two levels for a linear address.
  abbrev pub pde_at : S → ℕ → ℕ → ℕ
  pde_at s cr3 lin = word_at memory s (pde_address cr3 lin)

  abbrev pub pte_at : S → ℕ → ℕ → ℕ
  pte_at s cr3 lin = word_at memory s (pte_address (pde_at s cr3 lin) lin)

  -- Every entry that a linear address may meet agrees with the tables.
  abbrev pub Coherent : Tlb → ℕ → S → Type 0
  Coherent t cr3 s =
      (slot : ℕ)
      → (t.entries slot).tag < 0x100000
      → Reflects (t.entries slot) (pde_at s cr3 ((t.entries slot).tag * 4096))
          (pte_at s cr3 ((t.entries slot).tag * 4096))

  abbrev pub IsCoherent : Machine S → Type 0
  IsCoherent m = Coherent m.cpu.tlb m.cpu.regs.cr3 m.bus

  -- The second entry lies where it lay, and is marked.
  pte_at-Marks :
      (s t : S) (cr3 lin : ℕ) → Marks memory s t → IsMarked (pte_at s cr3 lin) (pte_at t cr3 lin)
  pte_at-Marks s t cr3 lin f =
      let first = f (memory.cell (pde_address cr3 lin)) in
      subst
        (λ (w : ℕ).
          IsMarked (pte_at s cr3 lin) (word_at memory t (w + bit_and (lin / 4096) 0x3FF * 4)))
        (frame_kept first) (f (memory.cell (pte_address (pde_at s cr3 lin) lin)))

  pub Coherent-Marks :
      (c : Tlb) (cr3 : ℕ) (s t : S) → Marks memory s t → Coherent c cr3 s → Coherent c cr3 t
  Coherent-Marks c cr3 s t f h slot bound =
      let e = c.entries slot in
      let lin = e.tag * 4096 in
      Reflects-marked e (pde_at s cr3 lin) (pte_at s cr3 lin) (pde_at t cr3 lin) (pte_at t cr3 lin)
        (f (memory.cell (pde_address cr3 lin))) (pte_at-Marks s t cr3 lin f) (h slot bound)

  -- What a flush leaves agrees with any tables.
  pub flush-Coherent : (t : Tlb) (cr3 : ℕ) (s : S) → Coherent (flush t) cr3 s
  unfolding flush
  flush-Coherent t cr3 s slot bound = absurd (omega (arith, bound))

  pub put_entry-Coherent :
      (slot : ℕ) (e : TlbEntry) (t : Tlb) (cr3 : ℕ) (s : S)
      → Reflects e (pde_at s cr3 (e.tag * 4096)) (pte_at s cr3 (e.tag * 4096))
      → Coherent t cr3 s
      → Coherent (put_entry slot e t) cr3 s
  unfolding put_entry
  put_entry-Coherent slot e t cr3 s r h i = elim (Bool-cases (i == slot)) [
    | inl d ↦ rw d (λ bound. r)
    | inr d ↦ rw d (h i)
  ]

  -- The page of an address has the entries of the address.
  pub Reflects-page :
      (e : TlbEntry) (s : S) (cr3 lin : ℕ)
      → Reflects e (pde_at s cr3 lin) (pte_at s cr3 lin)
      → Reflects e (pde_at s cr3 (lin / 4096 * 4096)) (pte_at s cr3 (lin / 4096 * 4096))
  Reflects-page e s cr3 lin r =
      let page : lin / 4096 * 4096 / 4096 ≡ lin / 4096 = omega arith in
      let directory : lin / 4096 * 4096 / 4194304 ≡ lin / 4194304 = omega arith in
      rw (page, directory) r

  pub Reflects-address :
      (e : TlbEntry) (s : S) (cr3 lin : ℕ)
      → Reflects e (pde_at s cr3 (lin / 4096 * 4096)) (pte_at s cr3 (lin / 4096 * 4096))
      → Reflects e (pde_at s cr3 lin) (pte_at s cr3 lin)
  Reflects-address e s cr3 lin =
      let page : lin / 4096 * 4096 / 4096 ≡ lin / 4096 = omega arith in
      let directory : lin / 4096 * 4096 / 4194304 ≡ lin / 4194304 = omega arith in
      rw (page, directory) (λ r. r)

  pub Reflects-frame :
      (e : TlbEntry) (s : S) (cr3 pde lin : ℕ)
      → IsMarked pde (pde_at s cr3 lin)
      → Reflects e (pde_at s cr3 lin) (word_at memory s (pte_address pde lin))
      → Reflects e (pde_at s cr3 lin) (pte_at s cr3 lin)
  Reflects-frame e s cr3 pde lin f =
      subst
        (λ (w : ℕ).
          Reflects e (pde_at s cr3 lin) (word_at memory s (w + bit_and (lin / 4096) 0x3FF * 4)))
        (frame_kept f)
