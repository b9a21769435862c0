-- ===== src/I386/Paging/Marks.antt =====
-- What a walk does to memory: the accessed and dirty bits it sets.
use remu.Prelude.{
  ℕ, ◌/◌, ◌%◌, ◌^◌, ◌<◌, ◌≡◌, refl, ap, sym, subst, ◌∙◌, arith, Bool, true, false, not, ◌&&◌, ◌||◌,
  ◌==◌, ==_iff, if◌then◌else◌, u32, Bool-cases, inl, inr, test, bit_and, bit_or,
}
use remu.Prelude.Bits.{bit_and_mask}
use remu.I386.Bus.{Bus}
use remu.I386.Memory.{IsMemory}
use remu.I386.Cpu.{Machine}
use remu.I386.Pte
use remu.I386.Paging.{pde_address, pte_address, marked, write_back, mark_pde, mark_pte}
use remu.I386.Paging.Bits.{
  IsMarked, IsMarked-refl, IsMarked-trans, IsMarked-u32, IsMarked-accessed, IsMarked-marked,
  frame_lem, accessed-dirty, test-accessed, marked-accessed,
}

-- The addresses of the entries.
pub pde_address-aligned : (cr3 lin : ℕ) → pde_address cr3 lin % 4 ≡ 0
pde_address-aligned cr3 lin = omega (arith, frame_lem cr3)

pub pde_address-lt : (cr3 lin : ℕ) → lin < 2 ^ 32 → pde_address cr3 lin < 2 ^ 32
pde_address-lt cr3 lin h = omega (arith, frame_lem cr3)

index_lem : (lin : ℕ) → bit_and (lin / 4096) 0x3FF ≡ lin / 4096 % 1024
index_lem lin = bit_and_mask 10 0x3FF (lin / 4096) (omega arith)

pub pte_address-aligned : (pde lin : ℕ) → pte_address pde lin % 4 ≡ 0
pte_address-aligned pde lin = omega (arith, frame_lem pde, index_lem lin)

pub pte_address-lt : (pde lin : ℕ) → pte_address pde lin < 2 ^ 32
pte_address-lt pde lin = omega (arith, frame_lem pde, index_lem lin)

module _ {S : Type 0} ⦃b : Bus S⦄ (memory : IsMemory b) where
  abbrev pub word_at : S → ℕ → ℕ
  word_at s a = memory.words s (memory.cell a)

  abbrev pub Marks : S → S → Type 0
  Marks s t = (c : ℕ) → IsMarked (memory.words s c) (memory.words t c)

  pub Marks-refl : (s : S) → Marks s s
  Marks-refl s c = IsMarked-refl (memory.words s c)

  pub Marks-trans : (s t u : S) → Marks s t → Marks t u → Marks s u
  Marks-trans s t u f g c =
      IsMarked-trans (memory.words s c) (memory.words t c) (memory.words u c) (f c) (g c)

  -- A double word written over one that it marks.
  write32-Marks :
      (a v : ℕ) (s : S)
      → a % 4 ≡ 0
      → a < 2 ^ 32
      → IsMarked (word_at s a) (u32 v)
      → Marks s (b.write32 a v s)
  write32-Marks a v s h k w c = elim (Bool-cases (c == memory.cell a)) [
    | inl e ↦
        let same : c ≡ memory.cell a = (==_iff c (memory.cell a)).0 e in
        let new : u32 v ≡ memory.words (b.write32 a v s) c = sym (
          memory.words-write32 a v c s h k
          ∙ ap (λ (t : Bool). if t then u32 v else memory.words s c) e) in
        subst (λ (t : ℕ). IsMarked (memory.words s c) t) new
          (subst (λ (t : ℕ). IsMarked (memory.words s t) (u32 v)) (sym same) w)
    | inr e ↦
        let old : memory.words s c ≡ memory.words (b.write32 a v s) c = sym (
          memory.words-write32 a v c s h k
          ∙ ap (λ (t : Bool). if t then u32 v else memory.words s c) e) in
        subst (λ (t : ℕ). IsMarked (memory.words s c) t) old (IsMarked-refl (memory.words s c))
  ]

  -- The processor but for the stamps of the instruction cache.
  abbrev pub Kept : Machine S → Machine S → Type 0
  Kept m n =
      (n.cpu.regs ≡ m.cpu.regs)
      × (n.cpu.tlb ≡ m.cpu.tlb)
      × (n.cpu.supervisor_override ≡ m.cpu.supervisor_override)

  -- The marking of the first level, `a` the entry's address.
  pub record IsFirst (a : ℕ) (m n : Machine S) : Type 0 where
    pub kept : Kept m n
    pub marks : Marks m.bus n.bus
    pub accessed : test (word_at n.bus a) Pte.a ≡ true
    pub dirty :
        (c : ℕ)
        → test (memory.words n.bus c) Pte.d ≡ true
        → test (memory.words m.bus c) Pte.d ≡ true

  write_back-Kept : (a v : ℕ) (m : Machine S) → Kept m (write_back a v m)
  unfolding write_back
  write_back-Kept a v m = (refl, refl, refl)

  write_back-Marks :
      (a v : ℕ) (m : Machine S)
      → a % 4 ≡ 0
      → a < 2 ^ 32
      → IsMarked (word_at m.bus a) (u32 v)
      → Marks m.bus (write_back a v m).bus
  unfolding write_back
  write_back-Marks a v m h k w = write32-Marks a v m.bus h k w

  words-write_back :
      (a v c : ℕ) (m : Machine S)
      → a % 4 ≡ 0
      → a < 2 ^ 32
      → memory.words (write_back a v m).bus c
        ≡ (if c == memory.cell a then u32 v else memory.words m.bus c)
  unfolding write_back
  words-write_back a v c m h k = memory.words-write32 a v c m.bus h k

  word_at-write_back :
      (a v : ℕ) (m : Machine S) → a % 4 ≡ 0 → a < 2 ^ 32 → word_at (write_back a v m).bus a ≡ u32 v
  word_at-write_back a v m h k = words-write_back a v (memory.cell a) m h k ∙ ground arith

  -- The accessed bit leaves the dirty bits.
  accessed-dirty_at :
      (a c : ℕ) (m : Machine S)
      → a % 4 ≡ 0
      → a < 2 ^ 32
      → test (memory.words (write_back a (bit_or (word_at m.bus a) Pte.a) m).bus c) Pte.d
        ≡ test (memory.words m.bus c) Pte.d
  accessed-dirty_at a c m h k =
      let new = bit_or (word_at m.bus a) Pte.a in
      let cases = words-write_back a new c m h k in
      elim (Bool-cases (c == memory.cell a)) [
        | inl e ↦
            ap (λ (t : ℕ). test t Pte.d)
              (cases ∙ ap (λ (t : Bool). if t then u32 new else memory.words m.bus c) e)
            ∙ accessed-dirty (word_at m.bus a)
            ∙ ap (λ (t : ℕ). test (memory.words m.bus t) Pte.d)
                (sym ((==_iff c (memory.cell a)).0 e))
        | inr e ↦
            ap (λ (t : ℕ). test t Pte.d)
              (cases ∙ ap (λ (t : Bool). if t then u32 new else memory.words m.bus c) e)
      ]

  mark_pde-cases :
      (a : ℕ) (m : Machine S) (t : Bool)
      → a % 4 ≡ 0
      → a < 2 ^ 32
      → test (word_at m.bus a) Pte.a ≡ t
      → IsFirst a m (if not t then write_back a (bit_or (word_at m.bus a) Pte.a) m else m)
  mark_pde-cases a m true h k e = record {
    kept = (refl, refl, refl);
    marks = Marks-refl m.bus;
    accessed = e;
    dirty = λ c d. d;
  }
  mark_pde-cases a m false h k e =
      let word = word_at m.bus a in
      let new = bit_or word Pte.a in
      record {
        kept = write_back-Kept a new m;
        marks =
            write_back-Marks a new m h k
              (IsMarked-trans word new (u32 new) (IsMarked-accessed word) (IsMarked-u32 new));
        accessed =
            ap (λ (t : ℕ). test t Pte.a) (word_at-write_back a new m h k)
            ∙ (IsMarked-u32 new).accessed (test-accessed word);
        dirty = λ c d. sym (accessed-dirty_at a c m h k) ∙ d;
      }

  pub mark_pde-IsFirst :
      (a : ℕ) (m : Machine S)
      → a % 4 ≡ 0
      → a < 2 ^ 32
      → IsFirst a m (mark_pde a (word_at m.bus a) m)
  unfolding mark_pde
  mark_pde-IsFirst a m h k = mark_pde-cases a m (test (word_at m.bus a) Pte.a) h k refl

  -- The marking of the second level: `a` is the entry's address, and `old` the entry as it was
  -- read, before the first level was marked.
  pub record IsSecond (a old : ℕ) (m : Machine S) (new : ℕ) (n : Machine S) : Type 0 where
    pub kept : Kept m n
    pub marks : Marks m.bus n.bus
    pub accessed : test (word_at n.bus a) Pte.a ≡ true
    pub marked : IsMarked old new
    pub dirty : test new Pte.d ≡ true → test (word_at n.bus a) Pte.d ≡ true

  -- The word of the second level, written over one with no bit that the old one lacks.
  marked_over :
      (old word : ℕ) (write : Bool)
      → IsMarked old word
      → (test word Pte.d ≡ true → test old Pte.d ≡ true)
      → IsMarked word (u32 (marked write old))
  marked_over old word write f d =
      let new = marked write old in
      let g = IsMarked-trans old new (u32 new) (IsMarked-marked write old) (IsMarked-u32 new) in
      record {
        low = sym f.low ∙ g.low;
        high = sym f.high ∙ g.high;
        accessed = λ h. (IsMarked-u32 new).accessed (marked-accessed write old);
        dirty = λ h. g.dirty (d h);
      }

  module _ (a old : ℕ) (m : Machine S) (aligned : a % 4 ≡ 0) (bound : a < 2 ^ 32)
      (word : IsMarked old (word_at m.bus a))
      (clean : test (word_at m.bus a) Pte.d ≡ true → test old Pte.d ≡ true) where
    abbrev after : Bool → Bool → ℕ × Machine S
    after write t = if t then (marked write old, write_back a (marked write old) m) else (old, m)

    mark_pte-cases :
        (write t : Bool)
        → (not (test old Pte.a) || (write && not (test old Pte.d))) ≡ t
        → IsSecond a old m (after write t).0 (after write t).1
    mark_pte-cases write true e =
        let new = marked write old in
        record {
          kept = write_back-Kept a new m;
          marks =
              write_back-Marks a new m aligned bound
                (marked_over old (word_at m.bus a) write word clean);
          accessed =
              ap (λ (t : ℕ). test t Pte.a) (word_at-write_back a new m aligned bound)
              ∙ (IsMarked-u32 new).accessed (marked-accessed write old);
          marked = IsMarked-marked write old;
          dirty = λ d.
              ap (λ (t : ℕ). test t Pte.d) (word_at-write_back a new m aligned bound)
              ∙ (IsMarked-u32 new).dirty d;
        }
    mark_pte-cases write false e = record {
      kept = (refl, refl, refl);
      marks = Marks-refl m.bus;
      accessed = word.accessed (ground (arith, e));
      marked = IsMarked-refl old;
      dirty = word.dirty;
    }

    pub mark_pte-IsSecond :
        (write : Bool) → IsSecond a old m (mark_pte write a old m).0 (mark_pte write a old m).1
    unfolding mark_pte
    mark_pte-IsSecond write =
        mark_pte-cases write (not (test old Pte.a) || (write && not (test old Pte.d))) refl
