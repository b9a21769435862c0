-- ===== src/X86/Execute/Arith.antt =====
-- x86/execute.rs: the arms of the arithmetic instructions.
use remu.Prelude.{ℕ, ◌/◌, ◌%◌, Bool, not, ◌==◌, if◌then◌else◌}
use remu.Prelude.State.{Method, pure, ◌>>=◌, ◌>>◌}
use remu.X86.Registers.{Flags, Registers, reg16, set_reg16}
use remu.X86.Width.{Width, byte, wide}
use remu.X86.Alu.{and}
use remu.X86.Bus.{Bus}
use remu.X86.Mul.{extend8}
use remu.X86.Bcd.{daa, das, aaa, aas, aad}
use remu.X86.Div.{aam}
use remu.X86.Cpu.{Machine, modify_regs, get_regs, fetch_byte, fetch_word, interrupt}
use remu.X86.Modrm.{reg, modrm}
use remu.X86.Execute.{
  alu, reg_of, compute, timed, write_reg, read_op, fetch, write_back, op_rm_r, op_r_rm,
}

-- `self.daa()` and the like.
abbrev adjust : {S : Type 0} → (Registers → Registers) → ℕ → Method (Machine S) ℕ
adjust f n = do modify_regs f; pure n

module _ {S : Type 0} ⦃b : Bus S⦄ where
  -- 04, 0C … 3C and 05, 0D … 3D: AL or AX with an immediate.
  unfoldable pub accumulator : Width → (ℕ → ℕ → Flags → ℕ × Flags) → Bool → Method (Machine S) ℕ
  accumulator w f wb = do
    v ← fetch w
    q ← get_regs
    r ← compute (f (reg_of w 0 q) v)
    write_reg w wb 0 r
    pure 4

  -- 00 … 3D: the low three bits select the form, the next three the operation.
  unfoldable pub alu_form : ℕ → Method (Machine S) ℕ
  alu_form opcode =
      let n = opcode / 8 in
      let form = opcode % 8 in
      let wb = not (n == 7) in
      if form == 0
      then op_rm_r byte (alu byte n) wb
      else if form == 1
      then op_rm_r wide (alu wide n) wb
      else if form == 2
      then op_r_rm byte (alu byte n) wb
      else if form == 3
      then op_r_rm wide (alu wide n) wb
      else if form == 4
      then accumulator byte (alu byte n) wb
      else accumulator wide (alu wide n) wb

  -- 80 … 83
  abbrev immediate : ℕ → Method (Machine S) ℕ
  immediate opcode =
      if opcode == 0x81
      then fetch_word
      else if opcode == 0x83
      then (do d ← fetch_byte; pure (extend8 d))
      else fetch_byte

  unfoldable pub immediate_group : Width → ℕ → Method (Machine S) ℕ
  immediate_group w opcode = do
    (m, op) ← modrm
    a ← read_op w op
    v ← immediate opcode
    r ← compute (alu w (reg m) a v)
    let wb = not (reg m == 7)
    write_back w wb op r
    timed op (if wb then 17 else 10) 4

  -- 40 … 4F
  unfoldable pub step_reg : (ℕ → Flags → ℕ × Flags) → ℕ → Method (Machine S) ℕ
  step_reg f i = do q ← get_regs; r ← compute (f (reg16 i q)); modify_regs (set_reg16 i r); pure 2

  -- A8 and A9
  unfoldable pub test_immediate : Width → Method (Machine S) ℕ
  test_immediate w = do v ← fetch w; q ← get_regs; r ← compute (and w (reg_of w 0 q) v); pure 4

  -- The end of a division: its fault is interrupt 0.
  unfoldable pub divided : (Registers → Bool × Registers) → Method (Machine S) (Unit {0})
  divided f = do
    q ← get_regs
    let (ok, r) = f q
    modify_regs (λ _. r)
    if ok then pure tt else interrupt 0

  -- 27, 2F, 37, 3F, D4 and D5
  unfoldable pub decimal : ℕ → Method (Machine S) ℕ
  decimal opcode =
      if opcode == 0x27
      then adjust daa 4
      else if opcode == 0x2F
      then adjust das 4
      else if opcode == 0x37
      then adjust aaa 8
      else if opcode == 0x3F
      then adjust aas 8
      else if opcode == 0xD4
      then (do base ← fetch_byte; divided (aam base); pure 83)
      else (do base ← fetch_byte; adjust (aad base) 60)
