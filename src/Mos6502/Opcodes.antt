-- ===== src/Mos6502/Opcodes.antt =====
-- cpu/opcodes.rs: the decode table, `build_table`, whose assignments stand in the source's order.
use remu.Prelude.{ℕ, true, false, List, [], ◌∷◌, ◌++◌, set, get_or, replicate}
use remu.Mos6502.Addressing.{
  implied, accumulator, immediate, zero_page, zero_page_x, zero_page_y, absolute, absolute_x,
  absolute_y, indirect, jsr_absolute, indexed_indirect, indirect_indexed, relative,
}
use remu.Mos6502.Info.{
  Entry, entry, OpInfo, op, adc, and, asl, bcc, bcs, beq, bit, bmi, bne, bpl, brk, bvc, bvs, clc,
  cld, cli, clv, cmp, cpx, cpy, dec, dex, dey, eor, inc, inx, iny, jmp, jsr, lda, ldx, ldy, lsr,
  nop, ora, pha, php, pla, plp, rol, ror, rti, rts, sbc, sec, sed, sei, sta, stx, sty, tax, tay,
  tsx, txa, txs, tya, kil,
}

-- The official opcodes, from `ADC` to `JSR` and from `LDA` on.
abbrev pub adc_to_jsr : List Entry
adc_to_jsr =
    entry 0x69 adc immediate 2 false
    ∷ entry 0x65 adc zero_page 3 false
    ∷ entry 0x75 adc zero_page_x 4 false
    ∷ entry 0x6d adc absolute 4 false
    ∷ entry 0x7d adc absolute_x 4 true
    ∷ entry 0x79 adc absolute_y 4 true
    ∷ entry 0x61 adc indexed_indirect 6 false
    ∷ entry 0x71 adc indirect_indexed 5 true
    ∷ entry 0x29 and immediate 2 false
    ∷ entry 0x25 and zero_page 3 false
    ∷ entry 0x35 and zero_page_x 4 false
    ∷ entry 0x2d and absolute 4 false
    ∷ entry 0x3d and absolute_x 4 true
    ∷ entry 0x39 and absolute_y 4 true
    ∷ entry 0x21 and indexed_indirect 6 false
    ∷ entry 0x31 and indirect_indexed 5 true
    ∷ entry 0x0a asl accumulator 2 false
    ∷ entry 0x06 asl zero_page 5 false
    ∷ entry 0x16 asl zero_page_x 6 false
    ∷ entry 0x0e asl absolute 6 false
    ∷ entry 0x1e asl absolute_x 7 false
    ∷ entry 0x90 bcc relative 2 false
    ∷ entry 0xb0 bcs relative 2 false
    ∷ entry 0xf0 beq relative 2 false
    ∷ entry 0x30 bmi relative 2 false
    ∷ entry 0xd0 bne relative 2 false
    ∷ entry 0x10 bpl relative 2 false
    ∷ entry 0x50 bvc relative 2 false
    ∷ entry 0x70 bvs relative 2 false
    ∷ entry 0x24 bit zero_page 3 false
    ∷ entry 0x2c bit absolute 4 false
    ∷ entry 0x00 brk implied 7 false
    ∷ entry 0x18 clc implied 2 false
    ∷ entry 0xd8 cld implied 2 false
    ∷ entry 0x58 cli implied 2 false
    ∷ entry 0xb8 clv implied 2 false
    ∷ entry 0x38 sec implied 2 false
    ∷ entry 0xf8 sed implied 2 false
    ∷ entry 0x78 sei implied 2 false
    ∷ entry 0xc9 cmp immediate 2 false
    ∷ entry 0xc5 cmp zero_page 3 false
    ∷ entry 0xd5 cmp zero_page_x 4 false
    ∷ entry 0xcd cmp absolute 4 false
    ∷ entry 0xdd cmp absolute_x 4 true
    ∷ entry 0xd9 cmp absolute_y 4 true
    ∷ entry 0xc1 cmp indexed_indirect 6 false
    ∷ entry 0xd1 cmp indirect_indexed 5 true
    ∷ entry 0xe0 cpx immediate 2 false
    ∷ entry 0xe4 cpx zero_page 3 false
    ∷ entry 0xec cpx absolute 4 false
    ∷ entry 0xc0 cpy immediate 2 false
    ∷ entry 0xc4 cpy zero_page 3 false
    ∷ entry 0xcc cpy absolute 4 false
    ∷ entry 0xc6 dec zero_page 5 false
    ∷ entry 0xd6 dec zero_page_x 6 false
    ∷ entry 0xce dec absolute 6 false
    ∷ entry 0xde dec absolute_x 7 false
    ∷ entry 0xca dex implied 2 false
    ∷ entry 0x88 dey implied 2 false
    ∷ entry 0x49 eor immediate 2 false
    ∷ entry 0x45 eor zero_page 3 false
    ∷ entry 0x55 eor zero_page_x 4 false
    ∷ entry 0x4d eor absolute 4 false
    ∷ entry 0x5d eor absolute_x 4 true
    ∷ entry 0x59 eor absolute_y 4 true
    ∷ entry 0x41 eor indexed_indirect 6 false
    ∷ entry 0x51 eor indirect_indexed 5 true
    ∷ entry 0xe6 inc zero_page 5 false
    ∷ entry 0xf6 inc zero_page_x 6 false
    ∷ entry 0xee inc absolute 6 false
    ∷ entry 0xfe inc absolute_x 7 false
    ∷ entry 0xe8 inx implied 2 false
    ∷ entry 0xc8 iny implied 2 false
    ∷ entry 0x4c jmp absolute 3 false
    ∷ entry 0x6c jmp indirect 5 false
    ∷ entry 0x20 jsr jsr_absolute 6 false
    ∷ []

abbrev pub lda_to_tya : List Entry
lda_to_tya =
    entry 0xa9 lda immediate 2 false
    ∷ entry 0xa5 lda zero_page 3 false
    ∷ entry 0xb5 lda zero_page_x 4 false
    ∷ entry 0xad lda absolute 4 false
    ∷ entry 0xbd lda absolute_x 4 true
    ∷ entry 0xb9 lda absolute_y 4 true
    ∷ entry 0xa1 lda indexed_indirect 6 false
    ∷ entry 0xb1 lda indirect_indexed 5 true
    ∷ entry 0xa2 ldx immediate 2 false
    ∷ entry 0xa6 ldx zero_page 3 false
    ∷ entry 0xb6 ldx zero_page_y 4 false
    ∷ entry 0xae ldx absolute 4 false
    ∷ entry 0xbe ldx absolute_y 4 true
    ∷ entry 0xa0 ldy immediate 2 false
    ∷ entry 0xa4 ldy zero_page 3 false
    ∷ entry 0xb4 ldy zero_page_x 4 false
    ∷ entry 0xac ldy absolute 4 false
    ∷ entry 0xbc ldy absolute_x 4 true
    ∷ entry 0x4a lsr accumulator 2 false
    ∷ entry 0x46 lsr zero_page 5 false
    ∷ entry 0x56 lsr zero_page_x 6 false
    ∷ entry 0x4e lsr absolute 6 false
    ∷ entry 0x5e lsr absolute_x 7 false
    ∷ entry 0xea nop implied 2 false
    ∷ entry 0x09 ora immediate 2 false
    ∷ entry 0x05 ora zero_page 3 false
    ∷ entry 0x15 ora zero_page_x 4 false
    ∷ entry 0x0d ora absolute 4 false
    ∷ entry 0x1d ora absolute_x 4 true
    ∷ entry 0x19 ora absolute_y 4 true
    ∷ entry 0x01 ora indexed_indirect 6 false
    ∷ entry 0x11 ora indirect_indexed 5 true
    ∷ entry 0x48 pha implied 3 false
    ∷ entry 0x08 php implied 3 false
    ∷ entry 0x68 pla implied 4 false
    ∷ entry 0x28 plp implied 4 false
    ∷ entry 0x2a rol accumulator 2 false
    ∷ entry 0x26 rol zero_page 5 false
    ∷ entry 0x36 rol zero_page_x 6 false
    ∷ entry 0x2e rol absolute 6 false
    ∷ entry 0x3e rol absolute_x 7 false
    ∷ entry 0x6a ror accumulator 2 false
    ∷ entry 0x66 ror zero_page 5 false
    ∷ entry 0x76 ror zero_page_x 6 false
    ∷ entry 0x6e ror absolute 6 false
    ∷ entry 0x7e ror absolute_x 7 false
    ∷ entry 0x40 rti implied 6 false
    ∷ entry 0x60 rts implied 6 false
    ∷ entry 0xe9 sbc immediate 2 false
    ∷ entry 0xe5 sbc zero_page 3 false
    ∷ entry 0xf5 sbc zero_page_x 4 false
    ∷ entry 0xed sbc absolute 4 false
    ∷ entry 0xfd sbc absolute_x 4 true
    ∷ entry 0xf9 sbc absolute_y 4 true
    ∷ entry 0xe1 sbc indexed_indirect 6 false
    ∷ entry 0xf1 sbc indirect_indexed 5 true
    ∷ entry 0x85 sta zero_page 3 false
    ∷ entry 0x95 sta zero_page_x 4 false
    ∷ entry 0x8d sta absolute 4 false
    ∷ entry 0x9d sta absolute_x 5 false
    ∷ entry 0x99 sta absolute_y 5 false
    ∷ entry 0x81 sta indexed_indirect 6 false
    ∷ entry 0x91 sta indirect_indexed 6 false
    ∷ entry 0x86 stx zero_page 3 false
    ∷ entry 0x96 stx zero_page_y 4 false
    ∷ entry 0x8e stx absolute 4 false
    ∷ entry 0x84 sty zero_page 3 false
    ∷ entry 0x94 sty zero_page_x 4 false
    ∷ entry 0x8c sty absolute 4 false
    ∷ entry 0xaa tax implied 2 false
    ∷ entry 0xa8 tay implied 2 false
    ∷ entry 0xba tsx implied 2 false
    ∷ entry 0x8a txa implied 2 false
    ∷ entry 0x9a txs implied 2 false
    ∷ entry 0x98 tya implied 2 false
    ∷ []

-- Illegal opcodes jam the processor.
abbrev pub jam : OpInfo
jam = op kil implied 2 false

unfoldable pub fill : List Entry → List OpInfo → List OpInfo
fill [] t = t
fill (e ∷ es) t = fill es (set t e.opcode e.info)

unfoldable pub opcodes : List OpInfo
unfolding fill
opcodes = fill (adc_to_jsr ++ lda_to_tya) (replicate 256 jam)

-- `OPCODES[OP as usize]`, where `OP` is a u8.
unfoldable pub decode : ℕ → OpInfo
decode opcode = get_or opcodes opcode jam
