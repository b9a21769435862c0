-- ===== src/X86/Execute/Strings/Repeat.antt =====
-- The repeated string instructions end, since no primitive changes CX.
use remu.Prelude.{
  ℕ, zero, suc, ◌+◌, ◌*◌, ◌/◌, ◌%◌, ◌<◌, ◌≡◌, refl, arith, ap, ◌∙◌, Bool, true, false, Option, none,
  some, ◌==◌, if◌then◌else◌, sub16,
}
use remu.Prelude.State.{Method, pure, ◌>>=◌, ◌>>◌}
use remu.X86.Registers.{set_reg8, set_reg16}
use remu.X86.Width.{Width, byte, wide}
use remu.X86.Div.{is_some}
use remu.X86.Bus.{Bus}
use remu.X86.Cpu.{Machine, modify_regs, get_regs, read8, write8, read16, write16}
use remu.X86.Modrm.{read_op8, read_op16, write_op8, write_op16}
use remu.X86.Execute.{compute, get_cpu}
use remu.X86.Execute.Strings.{
  movs, cmps, stos, lods, scas, count_down, ends, rep_loop, repeated, rep_str, string,
}

module _ {S : Type 0} ⦃b : Bus S⦄ where
  abbrev KeepsCx : Method (Machine S) (Unit {0}) → Type 0
  KeepsCx one = (m : Machine S) → (one m).1.cpu.regs.cx ≡ m.cpu.regs.cx

  movs-KeepsCx : (w : Width) → KeepsCx (movs w)
  unfolding movs ◌>>=◌ get_cpu modify_regs read_op8 read_op16 write_op8 write_op16 read8 write8
      read16 write16 pure
  movs-KeepsCx byte m = refl
  movs-KeepsCx wide m = refl

  cmps-KeepsCx : (w : Width) → KeepsCx (cmps w)
  unfolding cmps ◌>>=◌ get_cpu modify_regs compute read_op8 read_op16 read8 read16 pure
  cmps-KeepsCx byte m = refl
  cmps-KeepsCx wide m = refl

  stos-KeepsCx : (w : Width) → KeepsCx (stos w)
  unfolding stos ◌>>=◌ get_regs modify_regs write_op8 write_op16 write8 write16
  stos-KeepsCx byte m = refl
  stos-KeepsCx wide m = refl

  lods-KeepsCx : (w : Width) → KeepsCx (lods w)
  unfolding lods ◌>>=◌ get_cpu modify_regs read_op8 read_op16 read8 read16 pure set_reg8 set_reg16
  lods-KeepsCx byte m = refl
  lods-KeepsCx wide m = refl

  scas-KeepsCx : (w : Width) → KeepsCx (scas w)
  unfolding scas ◌>>=◌ get_regs modify_regs compute read_op8 read_op16 read8 read16 pure
  scas-KeepsCx byte m = refl
  scas-KeepsCx wide m = refl

  -- A round counts CX down.
  round_cx :
      (one : Method (Machine S) (Unit {0})) (m : Machine S)
      → KeepsCx one
      → ((one >> count_down) m).1.cpu.regs.cx ≡ sub16 m.cpu.regs.cx 1
  unfolding ◌>>=◌ modify_regs
  round_cx one m h = ap (λ (x : ℕ). sub16 x 1) (h m)

  either :
      (now : Bool) (cycles : ℕ) (m : Machine S) (rest : Option (ℕ × Machine S))
      → is_some rest ≡ true
      → is_some (if now then some (cycles, m) else rest) ≡ true
  either true cycles m rest h = refl
  either false cycles m rest h = h

  -- CX rounds are fuel enough.
  rep_loop-some :
      (n : ℕ) (one : Method (Machine S) (Unit {0})) (cmp cont : Bool) (per cycles : ℕ)
      (m : Machine S)
      → KeepsCx one
      → m.cpu.regs.cx ≡ n
      → n < 65536
      → is_some (rep_loop n one cmp cont per cycles m) ≡ true
  unfolding rep_loop
  rep_loop-some zero one cmp cont per cycles m h e hn =
      let done : (m.cpu.regs.cx == 0) ≡ true = ground arith in rw done refl
  rep_loop-some (suc n) one cmp cont per cycles m h e hn =
      let next = ((one >> count_down) m).1 in
      let more : (m.cpu.regs.cx == 0) ≡ false = ground arith in
      let cx : next.cpu.regs.cx ≡ n = round_cx one m h ∙ omega arith in
      let rest = rep_loop-some n one cmp cont per (cycles + per) next h cx (omega arith) in
      rw more (either (ends cmp cont next.cpu.regs) (cycles + per) next _ rest)

  rep_str-some :
      (one : Method (Machine S) (Unit {0})) (cmp : Bool) (base per : ℕ) (m : Machine S)
      → KeepsCx one
      → m.cpu.regs.cx < 65536
      → is_some (rep_str one cmp base per m) ≡ true
  unfolding rep_str
  rep_str-some one cmp base per m h hc = by_prefix m.cpu.rep
    where
      by_prefix : (rep : Option Bool) → is_some (repeated rep one cmp base per m) ≡ true
      by_prefix none = refl
      by_prefix (some cont) = rep_loop-some m.cpu.regs.cx one cmp cont per 9 m h refl hc

  -- A string instruction ends, repeated or not, if CX is a word.
  pub string-some : (op : ℕ) (m : Machine S) → m.cpu.regs.cx < 65536 → is_some (string op m) ≡ true
  unfolding string
  string-some op m hc =
      let w = if op % 2 == 0 then byte else wide in
      pick (op / 2 * 2 == 0xA4) _ _ (rep_str-some (movs w) false 18 17 m (movs-KeepsCx w) hc) (
        pick (op / 2 * 2 == 0xA6) _ _ (rep_str-some (cmps w) true 22 22 m (cmps-KeepsCx w) hc) (
          pick (op / 2 * 2 == 0xAA) _ _ (rep_str-some (stos w) false 11 10 m (stos-KeepsCx w) hc) (
            pick (op / 2 * 2 == 0xAC) _ _ (rep_str-some (lods w) false 12 13 m (lods-KeepsCx w) hc)
              (rep_str-some (scas w) true 15 15 m (scas-KeepsCx w) hc))))
    where
      pick :
          (now : Bool) (f g : Machine S → Option (ℕ × Machine S))
          → is_some (f m) ≡ true
          → is_some (g m) ≡ true
          → is_some ((if now then f else g) m) ≡ true
      pick true f g hf hg = hf
      pick false f g hf hg = hg
