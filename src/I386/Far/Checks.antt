-- ===== src/I386/Far/Checks.antt =====
-- What the checks and the transfers of protected.rs keep: a check that passes changes nothing, an
-- access keeps the registers, and a transfer that is checked enters a segment of the right level.
use remu.Prelude.{
  ℕ, ◌≡◌, refl, ap, ◌∙◌, subst, sym, arith, Bool, true, false, not, ◌&&◌, ◌||◌, Bool-cases, inl,
  inr, ◌==◌, test, bit_or,
}
use remu.Prelude.Outcome.{Result, ok, err, bind, pure, ◌>>=◌}
use remu.I386.Bus.{Bus}
use remu.I386.Registers.{Registers, reg_cs}
use remu.I386.Cpu.{Cpu, Machine, Exec, Exception, cpl, protected_mode}
use remu.I386.Linear.Kept.{Kept, Keeps, then-Keeps, sys_read32-Keeps, sys_write8-Keeps}
use remu.I386.Segments.{asks, update_cpu, update_regs, refuse}
use remu.I386.Protected.{
  Descriptor, is_code_data, is_conforming, descriptor_dpl, index_of, prepare_cold_write,
  read_descriptor, read_descriptor_err, mark_accessed, commit_seg, load_cs,
}
use remu.I386.Far.{enter}

module _ {S : Type 0} where
  pub refuse-Keeps : (r : Bool) (x : Exception) → Keeps {S = S} (refuse r x)
  unfolding refuse
  refuse-Keeps true x m = refl
  refuse-Keeps false x m = refl

  pub asks-Keeps : {A : Type 0} (f : Cpu → A) → Keeps {S = S} (asks f)
  unfolding asks
  asks-Keeps f m = refl

  -- The same privilege level, as far as it does not hang on `CS`.
  abbrev pub SameMode : Machine S → Machine S → Type 0
  SameMode m n = (n.cpu.regs.eflags ≡ m.cpu.regs.eflags) × (n.cpu.regs.cr0 ≡ m.cpu.regs.cr0)

  -- `CS` holds a segment that is conforming, or of the level there was.
  pub record IsEntered (m n : Machine S) : Type 0 where
    pub mode : SameMode m n
    pub segment : Descriptor
    pub loaded : (n.cpu.regs.seg reg_cs).attrs ≡ bit_or segment.attrs 0x80
    pub level : (is_conforming segment || (descriptor_dpl segment == cpl m.cpu.regs)) ≡ true

  abbrev pub Enters : Machine S → Result Exception (Unit {0}) × Machine S → Type 0
  Enters m r = r.0 ≡ ok tt → IsEntered m r.1

module _ {S : Type 0} ⦃b : Bus S⦄ where
  pub read_descriptor-Keeps : (sel : ℕ) → Keeps {S = S} (read_descriptor sel)
  unfolding read_descriptor_err pure
  read_descriptor-Keeps sel = then-Keeps (asks _) _ (asks-Keeps _) (λ (base, limit).
      then-Keeps (refuse _ _) _ (refuse-Keeps _ _) (λ _.
        then-Keeps _ _ (sys_read32-Keeps _)
          (λ lo. then-Keeps _ _ (sys_read32-Keeps _) (λ hi m. refl))))

  mark_accessed-Keeps : (d : Descriptor) → Keeps {S = S} (mark_accessed d)
  unfolding mark_accessed
  mark_accessed-Keeps d m = elim (Bool-cases (is_code_data d && not (test d.attrs 1))) [
    | inl e ↦ rw e (sys_write8-Keeps _ _ m)
    | inr e ↦ rw e refl
  ]

  -- The descriptor's end of the transfer, after the write of the accessed bit.
  entered :
      (sel off : ℕ) (d : Descriptor) (r : Result Exception (Unit {0})) (m n : Machine S)
      → Kept m n
      → (is_conforming d || (descriptor_dpl d == cpl m.cpu.regs)) ≡ true
      → Enters m (
          bind
            (bind (r, n) (λ _. commit_seg reg_cs sel d))
            (λ _. update_regs (λ c. record c { eip = off })))
  unfolding commit_seg update_cpu update_regs prepare_cold_write ◌>>=◌
  entered sel off d (err x) m n k h = λ e. absurd (ground (arith, e))
  entered sel off d (ok tt) m n k h = elim (Bool-cases n.cpu.cold_saved) [
    | inl c ↦ rw c (λ e. record {
      mode = (ap (λ (r : Registers). r.eflags) k, ap (λ (r : Registers). r.cr0) k);
      segment = d;
      loaded = refl;
      level = h;
    })
    | inr c ↦ rw c (λ e. record {
      mode = (ap (λ (r : Registers). r.eflags) k, ap (λ (r : Registers). r.cr0) k);
      segment = d;
      loaded = refl;
      level = h;
    })
  ]

  pub enter-Enters :
      (sel off : ℕ) (d : Descriptor) (m : Machine S)
      → (is_conforming d || (descriptor_dpl d == cpl m.cpu.regs)) ≡ true
      → Enters m (enter sel off d m)
  unfolding load_cs asks ◌>>=◌
  enter-Enters sel off d m h =
      let r = mark_accessed d m in
      entered (bit_or (index_of sel) (cpl m.cpu.regs)) off d r.0 m r.1 (mark_accessed-Keeps d m) h

module _ {S : Type 0} where
  -- The level hangs on registers that an access keeps.
  cpl-Kept : (m n : Machine S) → Kept m n → cpl n.cpu.regs ≡ cpl m.cpu.regs
  unfolding cpl protected_mode
  cpl-Kept m n k = ap cpl k

  IsEntered-Kept : (m n o : Machine S) → Kept m n → IsEntered n o → IsEntered m o
  IsEntered-Kept m n o k e = record {
    mode =
        (e.mode.0 ∙ ap (λ (r : Registers). r.eflags) k, e.mode.1 ∙ ap (λ (r : Registers). r.cr0) k);
    segment = e.segment;
    loaded = e.loaded;
    level =
        ap (λ (l : ℕ). is_conforming e.segment || (descriptor_dpl e.segment == l))
          (sym (cpl-Kept m n k))
        ∙ e.level;
  }

  -- A check that may fail, and changes nothing; if it passes, `Q` holds.
  abbrev pub Checks : Type 0 → Machine S → Result Exception (Unit {0}) × Machine S → Type 0
  Checks Q n r = r.0 ≡ ok tt → (r.1 ≡ n) × Q

  pub refuse-Checks :
      (c : Bool) (x : Exception) (n : Machine S) → Checks (c ≡ false) n (refuse c x n)
  unfolding refuse
  refuse-Checks true x n = λ e. absurd (ground (arith, e))
  refuse-Checks false x n = λ e. (refl, refl)

  -- One check after another.
  pub both_check :
      {Q R : Type 0} (r : Result Exception (Unit {0})) (l n : Machine S)
      (k : Unit {0} → Exec S (Unit {0}))
      → Checks Q n (r, l)
      → (Q → Checks R n (k tt n))
      → Checks R n (bind (r, l) k)
  both_check (err x) l n k f g = λ e. absurd (ground (arith, e))
  both_check {R = R} (ok tt) l n k f g =
      let (same, q) = f refl in subst (λ (t : Machine S). Checks R n (k tt t)) (sym same) (g q)

  -- A check, then a transfer.
  pub bind_checked :
      {Q : Type 0} (m : Machine S) (r : Result Exception (Unit {0})) (l n : Machine S)
      (k : Unit {0} → Exec S (Unit {0}))
      → Checks Q n (r, l)
      → (Q → Enters m (k tt n))
      → Enters m (bind (r, l) k)
  bind_checked m (err x) l n k f g = λ e. absurd (ground (arith, e))
  bind_checked m (ok tt) l n k f g =
      let (same, q) = f refl in subst (λ (t : Machine S). Enters m (k tt t)) (sym same) (g q)

  -- A command that keeps the registers, then a transfer.
  pub bind_entered :
      {A : Type 0} (m : Machine S) (r : Result Exception A) (n : Machine S)
      (k : A → Exec S (Unit {0}))
      → Kept m n
      → ((a : A) → Enters n (k a n))
      → Enters m (bind (r, n) k)
  bind_entered m (err x) n k f g = λ e. absurd (ground (arith, e))
  bind_entered m (ok a) n k f g = λ e. IsEntered-Kept m n (k a n).1 f (g a e)
