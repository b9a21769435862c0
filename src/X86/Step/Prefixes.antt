-- ===== src/X86/Step/Prefixes.antt =====
-- The loop over the prefixes, and that a step ends.
use remu.Prelude.{
  ℕ, zero, suc, ◌+◌, ◌<◌, ◌≡◌, refl, arith, ap, sym, ◌∙◌, Bool, true, false, not, ◌&&◌, Option,
  none, some, ◌==◌, if◌then◌else◌, u16, Bool-cases, inl, inr, ltb, lt→ltb, ltb→lt, subst,
}
use remu.Prelude.State.{pure, ◌>>=◌}
use remu.X86.Registers.{Registers}
use remu.X86.Bus.{Bus, IsMemory}
use remu.X86.Cpu.{Cpu, Machine, phys, modify_regs, get_regs, fetch_byte}
use remu.X86.Memory.{byte_at, read8_lem}
use remu.X86.Div.{is_some}
use remu.X86.Execute.Dispatch.{is_prefix, dispatch}
use remu.X86.Execute.Dispatch.Total.{dispatch-some}
use remu.X86.Step.{
  idle, on_intr, service, on_prefix, without_prefix, with_cpu, fetch_opcode, finished, dispatched,
  instruction, running, step,
}

on_prefix-regs : (p : ℕ) (c : Cpu) → (on_prefix p c).regs ≡ c.regs
unfolding on_prefix
on_prefix-regs p c = either (p == 0x26) _ _ refl (
    either (p == 0x2E) _ _ refl (
      either (p == 0x36) _ _ refl (
        either (p == 0x3E) _ _ refl
          (either (p == 0xF2) _ _ refl (either (p == 0xF3) _ _ refl refl)))))
  where
    either :
        (t : Bool) (x y : Cpu)
        → x.regs ≡ c.regs
        → y.regs ≡ c.regs
        → (if t then x else y).regs ≡ c.regs
    either true x y hx hy = hx
    either false x y hx hy = hy

module _ {S : Type 0} ⦃b : Bus S⦄ (memory : IsMemory b) where
  -- The machine behind the byte at CS:IP.
  abbrev advanced : Machine S → Machine S
  advanced m = record m {
    cpu = record (m.cpu) { regs = record (m.cpu.regs) { ip = u16 (m.cpu.regs.ip + 1) } };
  }

  fetch_byte_lem :
      (m : Machine S) → fetch_byte m ≡ (byte_at memory m m.cpu.regs.cs m.cpu.regs.ip, advanced m)
  unfolding fetch_byte ◌>>=◌ get_regs modify_regs pure
  fetch_byte_lem m = rw (read8_lem memory m.cpu.regs.cs m.cpu.regs.ip m) refl

  -- The byte of the code that the registers `r` address, `k` bytes on.
  abbrev code : S → Registers → ℕ → ℕ
  code s r k = memory.peek s (phys r.cs (u16 (r.ip + k)))

  -- An opcode was found, and CX is a word.
  abbrev ready : Option (ℕ × ℕ × Machine S) → Bool
  ready none = false
  ready (some (p, cycles, m)) = not (is_prefix p) && ltb m.cpu.regs.cx 65536

  -- The round that finds the opcode.
  fetch_opcode-found :
      (n cycles : ℕ) (m : Machine S)
      → m.cpu.regs.cx < 65536
      → is_prefix (byte_at memory m m.cpu.regs.cs m.cpu.regs.ip) ≡ false
      → ready (fetch_opcode (suc n) cycles m) ≡ true
  unfolding fetch_opcode
  fetch_opcode-found n cycles m hc e = rw (fetch_byte_lem m) (rw e (rw e (lt→ltb _ _ hc)))

  -- A round that finds a prefix.
  fetch_opcode-prefix :
      (n cycles : ℕ) (m : Machine S)
      → let p = byte_at memory m m.cpu.regs.cs m.cpu.regs.ip in
        is_prefix p ≡ true
        → fetch_opcode (suc n) cycles m
          ≡ fetch_opcode n (cycles + 2) (with_cpu (on_prefix p) (advanced m))
  unfolding fetch_opcode
  fetch_opcode-prefix n cycles m e = rw (fetch_byte_lem m) (rw e refl)

  fetch_opcode-ready :
      (n k cycles : ℕ) (m : Machine S)
      → m.cpu.regs.ip < 65536
      → m.cpu.regs.cx < 65536
      → k < n
      → is_prefix (code m.bus m.cpu.regs k) ≡ false
      → ready (fetch_opcode n cycles m) ≡ true
  fetch_opcode-ready zero k cycles m hi hc h e = absurd (omega arith)
  fetch_opcode-ready (suc n) zero cycles m hi hc h e =
      let here : u16 (m.cpu.regs.ip + 0) ≡ m.cpu.regs.ip = omega arith in
      fetch_opcode-found n cycles m hc
        (ap (λ (x : ℕ). is_prefix (memory.peek m.bus (phys m.cpu.regs.cs x))) (sym here) ∙ e)
  fetch_opcode-ready (suc n) (suc k) cycles m hi hc h e =
      let p = byte_at memory m m.cpu.regs.cs m.cpu.regs.ip in
      elim (Bool-cases (is_prefix p)) [
        | inr found ↦ fetch_opcode-found n cycles m hc found
        | inl prefix ↦
            let r = m.cpu.regs in
            let next = with_cpu (on_prefix p) (advanced m) in
            let regs : next.cpu.regs ≡ (advanced m).cpu.regs = on_prefix-regs p (advanced m).cpu in
            let there : u16 (u16 (r.ip + 1) + k) ≡ u16 (r.ip + suc k) = omega arith in
            ap ready (fetch_opcode-prefix n cycles m prefix)
            ∙ fetch_opcode-ready n k (cycles + 2) next
                (subst (λ (q : Registers). q.ip < 65536) (sym regs) (omega arith))
                (subst (λ (q : Registers). q.cx < 65536) (sym regs) hc) (omega arith)
                (ap (λ (q : Registers). is_prefix (code m.bus q k)) regs
                  ∙ ap (λ (x : ℕ). is_prefix (memory.peek m.bus (phys r.cs x))) there
                  ∙ e)
      ]

  finished-some :
      (trap : Bool) (cycles : ℕ) (r : Option (ℕ × Machine S))
      → is_some r ≡ true
      → is_some (finished trap cycles r) ≡ true
  finished-some trap cycles none h = h
  finished-some trap cycles (some (n, m)) h = refl

  dispatched-some :
      (trap : Bool) (o : Option (ℕ × ℕ × Machine S))
      → ready o ≡ true
      → is_some (dispatched trap o) ≡ true
  dispatched-some trap none h = h
  dispatched-some trap (some (p, cycles, m)) h =
      let (opcode, cx) = and_parts (not (is_prefix p)) (ltb m.cpu.regs.cx 65536) h in
      finished-some trap cycles (dispatch p m) (dispatch-some p m (ltb→lt _ _ cx) ∙ opcode)
    where
      and_parts : (x y : Bool) → (x && y) ≡ true → (x ≡ true) × (y ≡ true)
      and_parts true true h = (refl, refl)
      and_parts true false h = (refl, h)
      and_parts false y h = (h, ground (arith, h))

  -- The first byte of the code that is not a prefix is in the segment.
  abbrev HasOpcode : S → Registers → ℕ → Type 0
  HasOpcode s r k = (k < 65536) × (is_prefix (code s r k) ≡ false)

  running-some :
      (k : ℕ) (m : Machine S)
      → m.cpu.regs.ip < 65536
      → m.cpu.regs.cx < 65536
      → HasOpcode m.bus m.cpu.regs k
      → is_some (running m) ≡ true
  unfolding running instruction
  running-some k m hi hc (hk, e) = by_halt m.cpu.halted
    where
      by_halt : (h : Bool) → is_some (if h then some (idle m) else instruction m) ≡ true
      by_halt true = refl
      by_halt false =
          dispatched-some m.cpu.regs.flags.tf (fetch_opcode 0x10000 0 (with_cpu without_prefix m))
            (fetch_opcode-ready 0x10000 k 0 (with_cpu without_prefix m) hi hc hk e)

  -- Over plain memory, with IP and CX words, `step` returns if some byte of the code segment is not a
  -- prefix: the loops over the prefixes and over the rounds of a repetition end.
  pub step-some :
      (k : ℕ) (m : Machine S)
      → m.cpu.regs.ip < 65536
      → m.cpu.regs.cx < 65536
      → HasOpcode m.bus m.cpu.regs k
      → is_some (step m) ≡ true
  unfolding step
  step-some k m hi hc h =
      let next = with_cpu (λ c. record c { inhibit_interrupts = false }) m in
      let run = running-some k next hi hc h in
      by_lines m.cpu.inhibit_interrupts m.cpu.nmi_pending m.cpu.intr m.cpu.regs.flags.iflag next run
    where
      by_lines :
          (held nmi : Bool) (intr : Option ℕ) (enabled : Bool) (next : Machine S)
          → is_some (running next) ≡ true
          → is_some (
              if held
              then running next
              else if nmi
              then some (service (λ c. record c { nmi_pending = false }) 2 next)
              else on_intr intr enabled next)
            ≡ true
      by_lines true nmi intr enabled next run = run
      by_lines false true intr enabled next run = refl
      by_lines false false none enabled next run = run
      by_lines false false (some v) true next run = refl
      by_lines false false (some v) false next run = run
