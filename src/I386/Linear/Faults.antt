-- ===== src/I386/Linear/Faults.antt =====
-- A write that faults, also one over two pages, stores nothing.
use remu.Prelude.{
  ℕ, zero, suc, ◌+◌, ◌^◌, ◌<◌, ◌≡◌, refl, ap, ◌∙◌, arith, true, Bool-cases, inl, inr, ltb, u32,
  bit_and,
}
use remu.Prelude.Outcome.{bind_keeps, Result, ok, err, bind, pure, always, ◌>>=◌}
use remu.Prelude.State.{modify}
use remu.I386.Bus.{Bus}
use remu.I386.Memory.{IsMemory}
use remu.I386.Registers.{Registers}
use remu.I386.Cpu.{Machine, Exec, Exception}
use remu.I386.Paging.{translate}
use remu.I386.Paging.Marks.{Marks-refl, Marks-trans}
use remu.I386.Paging.Walk.{IsAccess}
use remu.I386.Paging.Refine.{translate-IsAccess}
use remu.I386.Linear.{
  paging, store, store_at, write_within, split_write16, split_write32, translate_bytes, lin_write32,
}

module _ {S : Type 0} ⦃b : Bus S⦄ (memory : IsMemory b) where
  IsAccess-trans :
      (m n o : Machine S) → IsAccess memory m n → IsAccess memory n o → IsAccess memory m o
  IsAccess-trans m n o f g = record {
    regs = g.regs ∙ ap (λ (r : Registers). record r { cr2 = o.cpu.regs.cr2 }) f.regs;
    supervisor = g.supervisor ∙ f.supervisor;
    marks = Marks-trans memory m.bus n.bus o.bus f.marks g.marks;
    coherent = λ h. g.coherent (f.coherent h);
  }

  IsAccess-refl : (m : Machine S) → IsAccess memory m m
  IsAccess-refl m = record {
    regs = refl;
    supervisor = refl;
    marks = Marks-refl memory m.bus;
    coherent = λ h. h;
  }

  -- Where the command faults, it has done no more than accesses do.
  abbrev FaultsClean : {A : Type 0} → Exec S A → Machine S → Type 0
  FaultsClean f m = (x : Exception) → (f m).0 ≡ err x → IsAccess memory m (f m).1

  bind-FaultsClean :
      {A B : Type 0} (r : Result Exception A) (k : A → Exec S B) (m n : Machine S)
      → IsAccess memory m n
      → ((a : A) → FaultsClean (k a) n)
      → (x : Exception) → (bind (r, n) k).0 ≡ err x
      → IsAccess memory m (bind (r, n) k).1
  bind-FaultsClean (ok a) k m n f h x e = IsAccess-trans m n (k a n).1 f (h a x e)
  bind-FaultsClean (err y) k m n f h x e = f

  then-FaultsClean :
      {A B : Type 0} (f : Exec S A) (k : A → Exec S B) (m : Machine S)
      → IsAccess memory m (f m).1
      → ((a : A) → FaultsClean (k a) (f m).1)
      → FaultsClean (f >>= k) m
  unfolding ◌>>=◌
  then-FaultsClean f k m h g = bind-FaultsClean (f m).0 k m (f m).1 h g

  store-FaultsClean : (f : S → S) (p q : ℕ) (m : Machine S) → FaultsClean (store f p q) m
  unfolding store always modify
  store-FaultsClean f p q m x e = absurd (ground (arith, e))

  store_at-FaultsClean : (f : S → S) (p : ℕ) (m : Machine S) → FaultsClean (store_at f p) m
  unfolding store_at always modify
  store_at-FaultsClean f p m x e = absurd (ground (arith, e))

  write_within-FaultsClean :
      (write : ℕ → S → S) (lin : ℕ) (m : Machine S)
      → lin < 2 ^ 32
      → FaultsClean (write_within write lin) m
  unfolding write_within
  write_within-FaultsClean write lin m h =
      then-FaultsClean (translate lin true) (λ p. store_at (write p) p) m
        (translate-IsAccess memory lin h true m)
        (λ p. store_at-FaultsClean (write p) p (translate lin true m).1)

  split_write16-FaultsClean :
      (lin v : ℕ) (m : Machine S) → lin < 2 ^ 32 → FaultsClean (split_write16 lin v) m
  unfolding split_write16
  split_write16-FaultsClean lin v m h =
      let n = (translate lin true m).1 in
      let next = u32 (lin + 1) in
      then-FaultsClean (translate lin true) _ m (translate-IsAccess memory lin h true m) (λ p0.
        then-FaultsClean (translate next true) _ n
          (translate-IsAccess memory next (omega arith) true n)
          (λ p1. store-FaultsClean _ p0 p1 (translate next true n).1))

  -- The loop over the pages does no more than accesses do, whether it faults or not.
  translate_bytes-IsAccess :
      (n i lin : ℕ) (m : Machine S) → IsAccess memory m (translate_bytes n i lin m).1
  unfolding translate_bytes pure ◌>>=◌
  translate_bytes-IsAccess zero i lin m = IsAccess-refl m
  translate_bytes-IsAccess (suc n) i lin m =
      let here = u32 (lin + i) in
      let after = (translate here true m).1 in
      let rest = (translate_bytes n (i + 1) lin after).1 in
      bind_keeps (IsAccess memory) IsAccess-trans (translate here true m).0 _ m after
        (translate-IsAccess memory here (omega arith) true m)
        (λ p.
          bind_keeps (IsAccess memory) IsAccess-trans (translate_bytes n (i + 1) lin after).0 _
            after rest (translate_bytes-IsAccess n (i + 1) lin after) (λ ps. IsAccess-refl rest))

  split_write32-FaultsClean : (lin v : ℕ) (m : Machine S) → FaultsClean (split_write32 lin v) m
  unfolding split_write32
  split_write32-FaultsClean lin v m =
      then-FaultsClean (translate_bytes 4 0 lin) _ m (translate_bytes-IsAccess 4 0 lin m)
        (λ phys. store-FaultsClean _ _ _ (translate_bytes 4 0 lin m).1)

  -- On plain memory: a write of a double word at a 32-bit linear address that faults, also on the
  -- second of two pages, keeps the registers but `CR2`, the override, and all 32 bits of every double
  -- word of memory but bits 5 and 6, the accessed and the dirty one of an entry, which it clears in
  -- none; and a cache that agrees with the page tables agrees with them after it.
  pub lin_write32-FaultsClean :
      (lin v : ℕ) (m : Machine S) (x : Exception)
      → lin < 2 ^ 32
      → (lin_write32 lin v m).0 ≡ err x
      → IsAccess memory m (lin_write32 lin v m).1
  unfolding lin_write32
  lin_write32-FaultsClean lin v m x h = elim (Bool-cases (paging m.cpu)) [
    | inr off ↦ rw off (store-FaultsClean (b.write32 lin v) lin (u32 (lin + 3)) m x)
    | inl on ↦ elim (Bool-cases (ltb (bit_and lin 0xFFF) 0xFFD)) [
      | inl e ↦ rw (on, e) (write_within-FaultsClean (λ p. b.write32 p v) lin m h x)
      | inr e ↦ rw (on, e) (split_write32-FaultsClean lin v m x)
    ]
  ]
