-- ===== src/Mos6502/Execute.antt =====
-- cpu/execute.rs: one handler for each operation. The result counts the extra cycles.
use remu.Prelude.{
  ℕ, ◌+◌, ◌/◌, Bool, true, false, not, if◌then◌else◌, u8, u16, sub8, word, bit_and, bit_or, bit_xor,
}
use remu.Bus.{Bus}
use remu.Mos6502.Registers.{Registers, set_zn}
use remu.Mos6502.Cpu.{
  Method, pure, ◌>>=◌, ◌>>◌, get_regs, modify, modify_regs, set_pc, read, write, fetch_byte, push,
  pull, push_status, pull_status, service_interrupt, irq_vector,
}
use remu.Mos6502.Addressing.{AddressingMode, accumulator, Operand}
use remu.Mos6502.Alu
use remu.Mos6502.Info.{
  Operation, OpInfo, adc, and, asl, bcc, bcs, beq, bit, bmi, bne, bpl, brk, bvc, bvs, clc, cld, cli,
  clv, cmp, cpx, cpy, dec, dex, dey, eor, inc, inx, iny, jmp, jsr, lda, ldx, ldy, lsr, nop, ora,
  pha, php, pla, plp, rol, ror, rti, rts, sbc, sec, sed, sei, sta, stx, sty, tax, tay, tsx, txa,
  txs, tya, kil,
}

-- `self.regs.a = v; self.regs.p.set_zn(v)`, and so for the other registers.
abbrev pub load_a : ℕ → Registers → Registers
load_a v r = record r { a = v; p = set_zn v r.p }

abbrev pub load_x : ℕ → Registers → Registers
load_x v r = record r { x = v; p = set_zn v r.p }

abbrev pub load_y : ℕ → Registers → Registers
load_y v r = record r { y = v; p = set_zn v r.p }

-- The closures of `INC` and `DEC`.
abbrev pub inc_val : ℕ → Registers → ℕ × Registers
inc_val v r = let result = u8 (v + 1) in (result, record r { p = set_zn result r.p })

abbrev pub dec_val : ℕ → Registers → ℕ × Registers
dec_val v r = let result = sub8 v 1 in (result, record r { p = set_zn result r.p })

module _ {S : Type 0} where
  -- An operation on registers alone.
  abbrev pub on_regs : (Registers → Registers) → Method S ℕ
  on_regs f = do modify_regs f; pure 0

  -- `f(self, v)`, for a value that is transformed while flags are set.
  abbrev pub apply_regs : (ℕ → Registers → ℕ × Registers) → ℕ → Method S ℕ
  apply_regs f v = do r ← get_regs; let result = f v r; modify_regs (λ _. result.1); pure result.0

  unfoldable pub branch : Operand → Bool → Method S ℕ
  branch m condition =
      if condition then (do set_pc m.addr; pure (if m.page_crossed then 2 else 1)) else pure 0

module _ {S : Type 0} ⦃b : Bus S⦄ where
  -- An operation that reads its operand and changes registers.
  abbrev pub on_operand : Operand → (ℕ → Registers → Registers) → Method S ℕ
  on_operand m f = do v ← read m.addr; modify_regs (f v); pure 0

  -- A store of a register.
  abbrev pub store : Operand → (Registers → ℕ) → Method S ℕ
  store m f = do r ← get_regs; write m.addr (f r); pure 0

  unfoldable pub rmw : Operand → (ℕ → Registers → ℕ × Registers) → Method S ℕ
  rmw m f = do v ← read m.addr; result ← apply_regs f v; write m.addr result; pure 0

  unfoldable pub shift : AddressingMode → Operand → (ℕ → Registers → ℕ × Registers) → Method S ℕ
  unfolding rmw
  shift accumulator m f = do
    r ← get_regs
    result ← apply_regs f r.a
    modify_regs (λ r. record r { a = result })
    pure 0
  shift _ m f = rmw m f

  unfoldable pub jsr_call : Method S (Unit {0})
  jsr_call = do
    lo ← fetch_byte
    r ← get_regs
    let ret = r.pc
    push (u8 (ret / 256))
    push (u8 ret)
    r ← get_regs
    hi ← read r.pc
    set_pc (word lo hi)

  unfoldable pub rts_return : Method S (Unit {0})
  rts_return = do lo ← pull; hi ← pull; set_pc (u16 (word lo hi + 1))

  unfoldable pub brk_interrupt : Method S (Unit {0})
  brk_interrupt = do
    modify_regs (λ r. record r { pc = u16 (r.pc + 1) })
    service_interrupt irq_vector true

  unfoldable pub rti_return : Method S (Unit {0})
  rti_return = do pull_status; lo ← pull; hi ← pull; set_pc (word lo hi)

  -- `match info.operation`
  unfoldable pub execute_op : Operation → AddressingMode → Operand → Method S ℕ
  execute_op lda mode m = on_operand m load_a
  execute_op ldx mode m = on_operand m load_x
  execute_op ldy mode m = on_operand m load_y
  execute_op sta mode m = store m (λ r. r.a)
  execute_op stx mode m = store m (λ r. r.x)
  execute_op sty mode m = store m (λ r. r.y)
  execute_op tax mode m = on_regs (λ r. load_x r.a r)
  execute_op tay mode m = on_regs (λ r. load_y r.a r)
  execute_op txa mode m = on_regs (λ r. load_a r.x r)
  execute_op tya mode m = on_regs (λ r. load_a r.y r)
  execute_op tsx mode m = on_regs (λ r. load_x r.sp r)
  execute_op txs mode m = on_regs (λ r. record r { sp = r.x })
  execute_op pha mode m = do r ← get_regs; push r.a; pure 0
  execute_op php mode m = do push_status true; pure 0
  execute_op pla mode m = do v ← pull; modify_regs (load_a v); pure 0
  execute_op plp mode m = do pull_status; pure 0
  execute_op and mode m = on_operand m (λ v r. load_a (bit_and r.a v) r)
  execute_op ora mode m = on_operand m (λ v r. load_a (bit_or r.a v) r)
  execute_op eor mode m = on_operand m (λ v r. load_a (bit_xor r.a v) r)
  execute_op bit mode m = on_operand m Alu.bit
  execute_op adc mode m = on_operand m Alu.adc
  execute_op sbc mode m = on_operand m Alu.sbc
  execute_op cmp mode m = on_operand m (λ v r. Alu.compare r.a v r)
  execute_op cpx mode m = on_operand m (λ v r. Alu.compare r.x v r)
  execute_op cpy mode m = on_operand m (λ v r. Alu.compare r.y v r)
  execute_op inc mode m = rmw m inc_val
  execute_op dec mode m = rmw m dec_val
  execute_op inx mode m = on_regs (λ r. load_x (u8 (r.x + 1)) r)
  execute_op iny mode m = on_regs (λ r. load_y (u8 (r.y + 1)) r)
  execute_op dex mode m = on_regs (λ r. load_x (sub8 r.x 1) r)
  execute_op dey mode m = on_regs (λ r. load_y (sub8 r.y 1) r)
  execute_op asl mode m = shift mode m Alu.asl_val
  execute_op lsr mode m = shift mode m Alu.lsr_val
  execute_op rol mode m = shift mode m Alu.rol_val
  execute_op ror mode m = shift mode m Alu.ror_val
  execute_op clc mode m = on_regs (λ r. record r { p = record (r.p) { c = false } })
  execute_op sec mode m = on_regs (λ r. record r { p = record (r.p) { c = true } })
  execute_op cld mode m = on_regs (λ r. record r { p = record (r.p) { d = false } })
  execute_op sed mode m = on_regs (λ r. record r { p = record (r.p) { d = true } })
  execute_op cli mode m = on_regs (λ r. record r { p = record (r.p) { i = false } })
  execute_op sei mode m = on_regs (λ r. record r { p = record (r.p) { i = true } })
  execute_op clv mode m = on_regs (λ r. record r { p = record (r.p) { v = false } })
  execute_op bcc mode m = do r ← get_regs; branch m (not r.p.c)
  execute_op bcs mode m = do r ← get_regs; branch m r.p.c
  execute_op bne mode m = do r ← get_regs; branch m (not r.p.z)
  execute_op beq mode m = do r ← get_regs; branch m r.p.z
  execute_op bpl mode m = do r ← get_regs; branch m (not r.p.n)
  execute_op bmi mode m = do r ← get_regs; branch m r.p.n
  execute_op bvc mode m = do r ← get_regs; branch m (not r.p.v)
  execute_op bvs mode m = do r ← get_regs; branch m r.p.v
  execute_op jmp mode m = do set_pc m.addr; pure 0
  execute_op jsr mode m = do jsr_call; pure 0
  execute_op rts mode m = do rts_return; pure 0
  execute_op brk mode m = do brk_interrupt; pure 0
  execute_op rti mode m = do rti_return; pure 0
  execute_op nop mode m = pure 0
  execute_op kil mode m = do modify (λ c. record c { halted = true }); pure 0

  unfoldable pub execute : OpInfo → Operand → Method S ℕ
  unfolding execute_op
  execute info m = execute_op info.operation info.mode m
