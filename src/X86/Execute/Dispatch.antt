-- ===== src/X86/Execute/Dispatch.antt =====
-- x86/execute.rs: `dispatch`, by the high digit of the opcode. It is none for the prefixes, which do
-- not reach it, and would be for a repetition that does not end.
pub mod Total
use remu.Prelude.{
  ℕ, ◌+◌, ◌/◌, ◌%◌, Bool, true, false, not, ◌&&◌, ◌||◌, Option, none, some, ltb, leb, ◌==◌,
  if◌then◌else◌, u8, bit_and,
}
use remu.Prelude.State.{Method}
use remu.X86.Registers.{Registers}
use remu.X86.Width.{Width, byte, wide}
use remu.X86.Alu.{and, inc, dec}
use remu.X86.Bus.{Bus}
use remu.X86.Cpu.{Machine}
use remu.X86.Execute.{op_rm_r, shift_grp}
use remu.X86.Execute.Arith.{alu_form, immediate_group, step_reg, test_immediate, decimal}
use remu.X86.Execute.Moves.{
  convert, exchange, push_seg, pop_seg, pop_cs, push_reg, pop_reg, pop_operand, push_flags,
  pop_flags, exchange_operand, mov_rm_r, mov_r_rm, mov_rm_seg, mov_seg_rm, lea, load_direct,
  store_direct, mov_reg_immediate, mov_immediate, load_far, salc, xlat, escape,
}
use remu.X86.Execute.Strings.{string}
use remu.X86.Execute.Control.{
  control, jcc, loop_cx, ret_near, ret_near_release, ret_far, ret_far_release, iret,
  software_interrupt, port, transfer,
}
use remu.X86.Execute.Groups.{unary_group, inc_dec_group, wide_group}

-- The width that the low bit of an opcode selects.
abbrev width_of : ℕ → Width
width_of opcode = if opcode % 2 == 0 then byte else wide

abbrev pub is_string : ℕ → Bool
is_string opcode =
    leb 0xA4 opcode && ltb opcode 0xB0 && not (opcode == 0xA8) && not (opcode == 0xA9)

-- 26, 2E, 36, 3E and F0 … F3
abbrev pub is_prefix : ℕ → Bool
is_prefix opcode =
    opcode == 0x26 || opcode == 0x2E || opcode == 0x36 || opcode == 0x3E || opcode / 4 == 0xF0 / 4

module _ {S : Type 0} ⦃b : Bus S⦄ where
  abbrev row_00 : ℕ → Method (Machine S) ℕ
  row_00 op =
      if ltb (op % 8) 6
      then alu_form op
      else if op % 8 == 6
      then push_seg (op / 8)
      else if op == 0x0F
      then pop_cs
      else if ltb op 0x20
      then pop_seg op
      else decimal op

  abbrev row_40 : ℕ → Method (Machine S) ℕ
  row_40 op =
      if ltb op 0x48
      then step_reg (inc wide) (bit_and op 7)
      else if ltb op 0x50
      then step_reg (dec wide) (bit_and op 7)
      else if ltb op 0x58
      then push_reg (bit_and op 7)
      else if ltb op 0x60
      then pop_reg (bit_and op 7)
      else jcc (bit_and op 0xF)

  abbrev row_80 : ℕ → Method (Machine S) ℕ
  row_80 op =
      if ltb op 0x84
      then immediate_group (width_of op) op
      else if ltb op 0x86
      then op_rm_r (width_of op) (and (width_of op)) false
      else if ltb op 0x88
      then exchange_operand (width_of op)
      else if ltb op 0x8A
      then mov_rm_r (width_of op)
      else if ltb op 0x8C
      then mov_r_rm (width_of op)
      else if op == 0x8C
      then mov_rm_seg
      else if op == 0x8D
      then lea
      else if op == 0x8E
      then mov_seg_rm
      else pop_operand

  abbrev row_90 : ℕ → Method (Machine S) ℕ
  row_90 op =
      if ltb op 0x98
      then exchange (bit_and op 7)
      else if op == 0x9A
      then transfer op
      else if op == 0x9B
      then control op
      else if op == 0x9C
      then push_flags
      else if op == 0x9D
      then pop_flags
      else convert op

  abbrev row_a0 : ℕ → Method (Machine S) ℕ
  row_a0 op =
      if ltb op 0xA2
      then load_direct (width_of op)
      else if ltb op 0xA4
      then store_direct (width_of op)
      else if ltb op 0xB0
      then test_immediate (width_of op)
      else if ltb op 0xB8
      then mov_reg_immediate byte (bit_and op 7)
      else mov_reg_immediate wide (bit_and op 7)

  abbrev row_c0 : ℕ → Method (Machine S) ℕ
  row_c0 op =
      if op == 0xC3 || op == 0xC1
      then ret_near
      else if op == 0xC2 || op == 0xC0
      then ret_near_release
      else if op == 0xCB || op == 0xC9
      then ret_far
      else if op == 0xCA || op == 0xC8
      then ret_far_release
      else if op == 0xC4 || op == 0xC5
      then load_far op
      else if op == 0xC6 || op == 0xC7
      then mov_immediate (width_of op)
      else if op == 0xCF
      then iret
      else software_interrupt op

  abbrev shift_cl : Width → Method (Machine S) ℕ
  shift_cl w m = shift_grp w (some (u8 m.cpu.regs.cx)) m

  abbrev row_d0 : ℕ → Method (Machine S) ℕ
  row_d0 op =
      if ltb op 0xD2
      then shift_grp (width_of op) none
      else if ltb op 0xD4
      then shift_cl (width_of op)
      else if ltb op 0xD6
      then decimal op
      else if op == 0xD6
      then salc
      else if op == 0xD7
      then xlat
      else escape

  abbrev row_e0 : ℕ → Method (Machine S) ℕ
  row_e0 op =
      if ltb op 0xE4
      then loop_cx op
      else if leb 0xE8 op && ltb op 0xEC
      then transfer op
      else port op

  abbrev row_f0 : ℕ → Method (Machine S) ℕ
  row_f0 op =
      if op == 0xF6 || op == 0xF7
      then unary_group (width_of op)
      else if op == 0xFE
      then inc_dec_group
      else if op == 0xFF
      then wide_group
      else control op

  unfoldable pub plain : ℕ → Method (Machine S) ℕ
  plain op =
      if ltb op 0x40
      then row_00 op
      else if ltb op 0x80
      then row_40 op
      else if ltb op 0x90
      then row_80 op
      else if ltb op 0xA0
      then row_90 op
      else if ltb op 0xC0
      then row_a0 op
      else if ltb op 0xD0
      then row_c0 op
      else if ltb op 0xE0
      then row_d0 op
      else if ltb op 0xF0
      then row_e0 op
      else row_f0 op

  unfoldable pub dispatch : ℕ → Machine S → Option (ℕ × Machine S)
  dispatch op m =
      if is_prefix op then none else if is_string op then string op m else some (plain op m)
