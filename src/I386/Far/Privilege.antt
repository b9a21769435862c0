-- ===== src/I386/Far/Privilege.antt =====
-- Far jumps and the privilege level.
use remu.Prelude.{
  if◌then◌else◌, ℕ, ◌+◌, ◌-◌, ◌*◌, ◌/◌, ◌≡◌, ap, ap₂, ◌∙◌, arith, Bool, true, false, ◌||◌, ◌==◌, u8,
  bit_and, bit_or,
}
use remu.Prelude.Bits.{bit_and_mask, bit_and_shift, bit_or-pow, digit, digit_seven}
use remu.Prelude.Outcome.{ok}
use remu.I386.Bus.{Bus}
use remu.I386.Registers.{SegReg, reg_cs, dpl}
use remu.I386.Cpu.{Machine, cpl, protected_mode}
use remu.I386.Protected.{is_conforming, descriptor_dpl}
use remu.I386.Far.{jump_protected, jump_far}
use remu.I386.Far.Checks.{SameMode, IsEntered}
use remu.I386.Far.Jumps.{jump_protected-Enters}

-- The present bit lies beside the level and the type.
level_marked : (a : ℕ) → bit_and (bit_or a 0x80 / 32) 3 ≡ bit_and (a / 32) 3
level_marked a =
    let e : bit_or a 0x80 ≡ a + (1 - digit a 7) * 128 = bit_or-pow 7 a in
    bit_and_mask 2 3 (bit_or a 0x80 / 32) (omega arith)
    ∙ omega (arith, e, digit_seven a, bit_and_mask 2 3 (a / 32) (omega arith))

type_marked : (a : ℕ) → bit_and (bit_or a 0x80) 0x1C ≡ bit_and a 0x1C
type_marked a =
    let e : bit_or a 0x80 ≡ a + (1 - digit a 7) * 128 = bit_or-pow 7 a in
    omega (
      arith,
      bit_and_shift 2 7 (bit_or a 0x80),
      bit_and_shift 2 7 a,
      bit_and_mask 3 7 (bit_or a 0x80 / 4) (omega arith),
      bit_and_mask 3 7 (a / 4) (omega arith),
      e,
      digit_seven a,
    )

-- A segment of conforming code.
abbrev pub conforming : SegReg → Bool
conforming s = bit_and s.attrs 0x1C == 0x1C

module _ {S : Type 0} where
  mode_lem :
      (m n : Machine S)
      → SameMode m n
      → protected_mode m.cpu.regs ≡ true
      → (protected_mode n.cpu.regs ≡ true) × (n.cpu.regs.eflags.vm ≡ false)
  unfolding protected_mode
  mode_lem m n (f, c) p = rw (f, c) (p, ground (arith, p))

  cpl-protected :
      (n : Machine S)
      → protected_mode n.cpu.regs ≡ true
      → n.cpu.regs.eflags.vm ≡ false
      → cpl n.cpu.regs ≡ dpl (n.cpu.regs.seg reg_cs)
  unfolding cpl
  cpl-protected n p v =
      let own = dpl (n.cpu.regs.seg reg_cs) in
      ap₂ (λ (s t : Bool). if s then 3 else (if t then own else 0)) v p

  loaded_level :
      (m n : Machine S) (e : IsEntered m n)
      → (dpl (n.cpu.regs.seg reg_cs) ≡ descriptor_dpl e.segment)
        × (conforming (n.cpu.regs.seg reg_cs) ≡ is_conforming e.segment)
  unfolding dpl descriptor_dpl is_conforming
  loaded_level m n e =
      let a = e.segment.attrs in
      (
        ap (λ (v : ℕ). u8 (bit_and (v / 32) 3)) e.loaded ∙ ap u8 (level_marked a),
        ap (λ (v : ℕ). bit_and v 0x1C == 0x1C) e.loaded ∙ ap (λ (v : ℕ). v == 0x1C) (type_marked a),
      )

  entered_level :
      (m n : Machine S)
      → protected_mode m.cpu.regs ≡ true
      → IsEntered m n
      → (cpl n.cpu.regs ≡ dpl (n.cpu.regs.seg reg_cs))
        × ((conforming (n.cpu.regs.seg reg_cs) || (cpl n.cpu.regs == cpl m.cpu.regs)) ≡ true)
  entered_level m n p e =
      let mode = mode_lem m n e.mode p in
      let own = cpl-protected n mode.0 mode.1 in
      let loaded = loaded_level m n e in
      (
        own,
        ap₂ (λ (c : Bool) (l : ℕ). c || (l == cpl m.cpu.regs)) loaded.1 (own ∙ loaded.0) ∙ e.level,
      )

module _ {S : Type 0} ⦃b : Bus S⦄ where
  -- On any bus, in protected mode: after a far jump that succeeds, to a code segment or through a call
  -- gate, the privilege level is that of the descriptor in `CS`, and it is the level before the jump
  -- unless the segment is conforming.
  pub jump_far-cpl :
      (sel off : ℕ) (m : Machine S)
      → protected_mode m.cpu.regs ≡ true
      → (jump_far sel off m).0 ≡ ok tt
      → let n = (jump_far sel off m).1 in
        (cpl n.cpu.regs ≡ dpl (n.cpu.regs.seg reg_cs))
        × ((conforming (n.cpu.regs.seg reg_cs) || (cpl n.cpu.regs == cpl m.cpu.regs)) ≡ true)
  unfolding jump_far
  jump_far-cpl sel off m p =
      rw p λ e. entered_level m (jump_protected sel off m).1 p (jump_protected-Enters sel off m e)
