-- ===== src/Mos6502/Info.antt =====
-- cpu/opcodes.rs: `Operation` and `OpInfo`.
use remu.Prelude.{ℕ, Bool}
use remu.Mos6502.Addressing.{AddressingMode}
use remu.Mos6502.Addressing

pub data Operation : Type 0 where
  adc and asl bcc bcs beq bit bmi bne bpl brk bvc : Operation
  bvs clc cld cli clv cmp cpx cpy dec dex dey eor : Operation
  inc inx iny jmp jsr lda ldx ldy lsr nop ora pha : Operation
  php pla plp rol ror rti rts sbc sec sed sei sta : Operation
  stx sty tax tay tsx txa txs tya kil : Operation

pub record OpInfo : Type 0 where
  pub operation : Operation
  pub mode : AddressingMode
  pub cycles : ℕ
  pub page_penalty : Bool

-- `OpInfo::length`
unfoldable pub length : OpInfo → ℕ
length info = Addressing.length info.mode

abbrev pub op : Operation → AddressingMode → ℕ → Bool → OpInfo
op operation mode cycles page_penalty = record {
  operation = operation;
  mode = mode;
  cycles = cycles;
  page_penalty = page_penalty;
}

-- An assignment of the table, `t[opcode] = info`.
pub record Entry : Type 0 where
  pub opcode : ℕ
  pub info : OpInfo

abbrev pub entry : ℕ → Operation → AddressingMode → ℕ → Bool → Entry
entry opcode operation mode cycles page_penalty = record {
  opcode = opcode;
  info = op operation mode cycles page_penalty;
}
