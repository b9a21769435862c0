-- ===== src/Mos6502/Valid/Execute.antt =====
-- Every operation keeps the invariant, and only a branch takes extra cycles.
use remu.Prelude.{ℕ, ◌≤◌, ◌<◌, arith, Bool, true, false, bit_and, bit_or, bit_xor}
use remu.Prelude.Bits.{bit_and-le, bit_or-lt, bit_xor-lt}
use remu.Prelude.Masks.{word-lt}
use remu.Bus.{Bus}
use remu.Mos6502.Registers.{Registers}
use remu.Mos6502.Cpu.{Method, pure, ◌>>◌, irq_vector}
use remu.Mos6502.Addressing.{AddressingMode, accumulator, Operand}
use remu.Mos6502.Info.{
  Operation, OpInfo, lda, ldx, ldy, sta, stx, sty, tax, tay, txa, tya, tsx, txs, pha, php, pla, plp,
  and, ora, eor, bit, adc, sbc, cmp, cpx, cpy, inc, dec, inx, iny, dex, dey, asl, lsr, rol, ror,
  clc, sec, cld, sed, cli, sei, clv, bcc, bcs, bne, beq, bpl, bmi, bvc, bvs, jmp, jsr, rts, brk,
  rti, nop, kil,
}
use remu.Mos6502.Execute.{
  apply_regs, on_regs, on_operand, store, rmw, shift, branch, jsr_call, rts_return, brk_interrupt,
  rti_return, execute_op, execute,
}
use remu.Mos6502.Valid.{
  Context, IsValidRegisters, Keeps, Keeps-pure, Keeps-bind, Keeps-get_regs, Keeps-halt,
  Keeps-modify_regs,
}
use remu.Mos6502.Valid.Access.{
  IsByte, Keeps-read, Keeps-write, Keeps-set_pc, Keeps-fetch_byte, Keeps-push, Keeps-pull,
  Keeps-push_status, Keeps-pull_status, Keeps-service_interrupt,
}
use remu.Mos6502.Valid.Resolve.{IsOperand}
use remu.Mos6502.Valid.Alu.{
  adc-IsValid, sbc-IsValid, compare-IsValid, bit-IsValid, load_a-IsValid, load_x-IsValid,
  load_y-IsValid, IsTransform, inc_val-IsTransform, dec_val-IsTransform, asl_val-IsTransform,
  lsr_val-IsTransform, rol_val-IsTransform, ror_val-IsTransform,
}

-- A branch takes up to two extra cycles, all else none.
abbrev pub extra_limit : Operation → ℕ
extra_limit bcc = 2
extra_limit bcs = 2
extra_limit bne = 2
extra_limit beq = 2
extra_limit bpl = 2
extra_limit bmi = 2
extra_limit bvc = 2
extra_limit bvs = 2
extra_limit _ = 0

abbrev IsNone : ℕ → Type 0
IsNone n = n ≤ 0

and_byte : (v : ℕ) (r : Registers) → IsValidRegisters r → bit_and r.a v < 256
and_byte v r h = omega (arith, bit_and-le r.a v, h.a)

or_byte : (v : ℕ) (r : Registers) → v < 256 → IsValidRegisters r → bit_or r.a v < 256
or_byte v r g h = bit_or-lt 8 r.a v h.a g

xor_byte : (v : ℕ) (r : Registers) → v < 256 → IsValidRegisters r → bit_xor r.a v < 256
xor_byte v r g h = bit_xor-lt 8 r.a v h.a g

module _ {S : Type 0} ⦃b : Bus S⦄ (ctx : Context b) where
  extra_zero :
      {f : Method S (Unit {0})} → Keeps ctx (λ _. Unit {0}) f → Keeps ctx IsNone (f >> pure 0)
  extra_zero h = Keeps-bind ctx h λ _ _. Keeps-pure ctx _ _ (omega arith)

  Keeps-on_regs :
      {f : Registers → Registers}
      → ((r : Registers) → IsValidRegisters r → IsValidRegisters (f r))
      → Keeps ctx IsNone (on_regs f)
  Keeps-on_regs h = extra_zero (Keeps-modify_regs ctx _ h)

  Keeps-on_operand :
      {f : ℕ → Registers → Registers} (m : Operand)
      → IsOperand m
      → ((v : ℕ) (r : Registers) → v < 256 → IsValidRegisters r → IsValidRegisters (f v r))
      → Keeps ctx IsNone (on_operand m f)
  Keeps-on_operand m h g =
      Keeps-bind ctx (Keeps-read ctx m.addr h) λ v hv. Keeps-on_regs (λ r q. g v r hv q)

  Keeps-store :
      {f : Registers → ℕ} (m : Operand)
      → IsOperand m
      → ((r : Registers) → IsValidRegisters r → f r < 256)
      → Keeps ctx IsNone (store m f)
  Keeps-store m h g =
      Keeps-bind ctx (Keeps-get_regs ctx) λ r hr. extra_zero (Keeps-write ctx m.addr _ h (g r hr))

  Keeps-apply_regs :
      {f : ℕ → Registers → ℕ × Registers} (v : ℕ)
      → v < 256
      → IsTransform f
      → Keeps ctx IsByte (apply_regs f v)
  Keeps-apply_regs v h t = Keeps-bind ctx (Keeps-get_regs ctx) λ r hr.
      Keeps-bind ctx (Keeps-modify_regs ctx _ (λ _ _. t.regs v r hr))
        λ _ _. Keeps-pure ctx _ _ (t.byte v r h)

  Keeps-rmw :
      {f : ℕ → Registers → ℕ × Registers} (m : Operand)
      → IsOperand m
      → IsTransform f
      → Keeps ctx IsNone (rmw m f)
  unfolding rmw
  Keeps-rmw m h t = Keeps-bind ctx (Keeps-read ctx m.addr h) λ v hv.
      Keeps-bind ctx (Keeps-apply_regs v hv t) λ w hw. extra_zero (Keeps-write ctx m.addr w h hw)

  Keeps-shift :
      {f : ℕ → Registers → ℕ × Registers} (mode : AddressingMode) (m : Operand)
      → IsOperand m
      → IsTransform f
      → Keeps ctx IsNone (shift mode m f)
  unfolding shift
  Keeps-shift accumulator m h t = Keeps-bind ctx (Keeps-get_regs ctx) λ r hr.
      Keeps-bind ctx (Keeps-apply_regs r.a hr.a t) λ v hv. Keeps-on_regs (λ r q. ground arith)
  Keeps-shift _ m h t = Keeps-rmw m h t

  Keeps-branch :
      (m : Operand) (condition : Bool) → IsOperand m → Keeps ctx (λ n. n ≤ 2) (branch m condition)
  unfolding branch
  Keeps-branch m true h =
      Keeps-bind ctx (Keeps-set_pc ctx m.addr h) λ _ _. Keeps-pure ctx _ _ (ground arith)
  Keeps-branch m false h = Keeps-pure ctx _ _ (omega arith)

  Keeps-jsr_call : Keeps ctx (λ _. Unit {0}) jsr_call
  unfolding jsr_call
  Keeps-jsr_call = Keeps-bind ctx (Keeps-fetch_byte ctx) λ lo hl.
      Keeps-bind ctx (Keeps-get_regs ctx) λ r hr.
        Keeps-bind ctx (Keeps-push ctx _ (omega arith)) λ _ _.
          Keeps-bind ctx (Keeps-push ctx _ (omega arith)) λ _ _.
            Keeps-bind ctx (Keeps-get_regs ctx) λ r hr.
              Keeps-bind ctx (Keeps-read ctx r.pc hr.pc)
                λ hi hh. Keeps-set_pc ctx _ (word-lt lo hi hl hh)

  Keeps-rts_return : Keeps ctx (λ _. Unit {0}) rts_return
  unfolding rts_return
  Keeps-rts_return =
      Keeps-bind ctx (Keeps-pull ctx)
        λ lo hl. Keeps-bind ctx (Keeps-pull ctx) λ hi hh. Keeps-set_pc ctx _ (omega arith)

  Keeps-brk_interrupt : Keeps ctx (λ _. Unit {0}) brk_interrupt
  unfolding brk_interrupt
  Keeps-brk_interrupt =
      Keeps-bind ctx (Keeps-modify_regs ctx _ (λ r h. ground arith))
        λ _ _. Keeps-service_interrupt ctx irq_vector true (omega arith)

  Keeps-rti_return : Keeps ctx (λ _. Unit {0}) rti_return
  unfolding rti_return
  Keeps-rti_return = Keeps-bind ctx (Keeps-pull_status ctx) λ _ _.
      Keeps-bind ctx (Keeps-pull ctx)
        λ lo hl. Keeps-bind ctx (Keeps-pull ctx) λ hi hh. Keeps-set_pc ctx _ (word-lt lo hi hl hh)

  Keeps-execute_op :
      (o : Operation) (mode : AddressingMode) (m : Operand)
      → IsOperand m
      → Keeps ctx (λ n. n ≤ extra_limit o) (execute_op o mode m)
  unfolding execute_op
  Keeps-execute_op lda mode m h = Keeps-on_operand m h (λ v r p q. load_a-IsValid v r p q)
  Keeps-execute_op ldx mode m h = Keeps-on_operand m h (λ v r p q. load_x-IsValid v r p q)
  Keeps-execute_op ldy mode m h = Keeps-on_operand m h (λ v r p q. load_y-IsValid v r p q)
  Keeps-execute_op sta mode m h = Keeps-store m h (λ r q. q.a)
  Keeps-execute_op stx mode m h = Keeps-store m h (λ r q. q.x)
  Keeps-execute_op sty mode m h = Keeps-store m h (λ r q. q.y)
  Keeps-execute_op tax mode m h = Keeps-on_regs (λ r q. load_x-IsValid r.a r q.a q)
  Keeps-execute_op tay mode m h = Keeps-on_regs (λ r q. load_y-IsValid r.a r q.a q)
  Keeps-execute_op txa mode m h = Keeps-on_regs (λ r q. load_a-IsValid r.x r q.x q)
  Keeps-execute_op tya mode m h = Keeps-on_regs (λ r q. load_a-IsValid r.y r q.y q)
  Keeps-execute_op tsx mode m h = Keeps-on_regs (λ r q. load_x-IsValid r.sp r q.sp q)
  Keeps-execute_op txs mode m h = Keeps-on_regs (λ r q. ground arith)
  Keeps-execute_op pha mode m h =
      Keeps-bind ctx (Keeps-get_regs ctx) λ r hr. extra_zero (Keeps-push ctx r.a hr.a)
  Keeps-execute_op php mode m h = extra_zero (Keeps-push_status ctx true)
  Keeps-execute_op pla mode m h =
      Keeps-bind ctx (Keeps-pull ctx) λ v hv. Keeps-on_regs (λ r q. load_a-IsValid v r hv q)
  Keeps-execute_op plp mode m h = extra_zero (Keeps-pull_status ctx)
  Keeps-execute_op and mode m h =
      Keeps-on_operand m h (λ v r p q. load_a-IsValid _ r (and_byte v r q) q)
  Keeps-execute_op ora mode m h =
      Keeps-on_operand m h (λ v r p q. load_a-IsValid _ r (or_byte v r p q) q)
  Keeps-execute_op eor mode m h =
      Keeps-on_operand m h (λ v r p q. load_a-IsValid _ r (xor_byte v r p q) q)
  Keeps-execute_op bit mode m h = Keeps-on_operand m h (λ v r p q. bit-IsValid v r q)
  Keeps-execute_op adc mode m h = Keeps-on_operand m h (λ v r p q. adc-IsValid v r q)
  Keeps-execute_op sbc mode m h = Keeps-on_operand m h (λ v r p q. sbc-IsValid v r q)
  Keeps-execute_op cmp mode m h = Keeps-on_operand m h (λ v r p q. compare-IsValid r.a v r q)
  Keeps-execute_op cpx mode m h = Keeps-on_operand m h (λ v r p q. compare-IsValid r.x v r q)
  Keeps-execute_op cpy mode m h = Keeps-on_operand m h (λ v r p q. compare-IsValid r.y v r q)
  Keeps-execute_op inc mode m h = Keeps-rmw m h inc_val-IsTransform
  Keeps-execute_op dec mode m h = Keeps-rmw m h dec_val-IsTransform
  Keeps-execute_op inx mode m h = Keeps-on_regs (λ r q. load_x-IsValid _ r (omega arith) q)
  Keeps-execute_op iny mode m h = Keeps-on_regs (λ r q. load_y-IsValid _ r (omega arith) q)
  Keeps-execute_op dex mode m h = Keeps-on_regs (λ r q. load_x-IsValid _ r (omega arith) q)
  Keeps-execute_op dey mode m h = Keeps-on_regs (λ r q. load_y-IsValid _ r (omega arith) q)
  Keeps-execute_op asl mode m h = Keeps-shift mode m h asl_val-IsTransform
  Keeps-execute_op lsr mode m h = Keeps-shift mode m h lsr_val-IsTransform
  Keeps-execute_op rol mode m h = Keeps-shift mode m h rol_val-IsTransform
  Keeps-execute_op ror mode m h = Keeps-shift mode m h ror_val-IsTransform
  Keeps-execute_op clc mode m h = Keeps-on_regs (λ r q. ground arith)
  Keeps-execute_op sec mode m h = Keeps-on_regs (λ r q. ground arith)
  Keeps-execute_op cld mode m h = Keeps-on_regs (λ r q. ground arith)
  Keeps-execute_op sed mode m h = Keeps-on_regs (λ r q. ground arith)
  Keeps-execute_op cli mode m h = Keeps-on_regs (λ r q. ground arith)
  Keeps-execute_op sei mode m h = Keeps-on_regs (λ r q. ground arith)
  Keeps-execute_op clv mode m h = Keeps-on_regs (λ r q. ground arith)
  Keeps-execute_op bcc mode m h = Keeps-bind ctx (Keeps-get_regs ctx) λ r hr. Keeps-branch m _ h
  Keeps-execute_op bcs mode m h = Keeps-bind ctx (Keeps-get_regs ctx) λ r hr. Keeps-branch m _ h
  Keeps-execute_op bne mode m h = Keeps-bind ctx (Keeps-get_regs ctx) λ r hr. Keeps-branch m _ h
  Keeps-execute_op beq mode m h = Keeps-bind ctx (Keeps-get_regs ctx) λ r hr. Keeps-branch m _ h
  Keeps-execute_op bpl mode m h = Keeps-bind ctx (Keeps-get_regs ctx) λ r hr. Keeps-branch m _ h
  Keeps-execute_op bmi mode m h = Keeps-bind ctx (Keeps-get_regs ctx) λ r hr. Keeps-branch m _ h
  Keeps-execute_op bvc mode m h = Keeps-bind ctx (Keeps-get_regs ctx) λ r hr. Keeps-branch m _ h
  Keeps-execute_op bvs mode m h = Keeps-bind ctx (Keeps-get_regs ctx) λ r hr. Keeps-branch m _ h
  Keeps-execute_op jmp mode m h = extra_zero (Keeps-set_pc ctx m.addr h)
  Keeps-execute_op jsr mode m h = extra_zero Keeps-jsr_call
  Keeps-execute_op rts mode m h = extra_zero Keeps-rts_return
  Keeps-execute_op brk mode m h = extra_zero Keeps-brk_interrupt
  Keeps-execute_op rti mode m h = extra_zero Keeps-rti_return
  Keeps-execute_op nop mode m h = Keeps-pure ctx _ _ (omega arith)
  Keeps-execute_op kil mode m h = extra_zero (Keeps-halt ctx)

  pub Keeps-execute :
      (info : OpInfo) (m : Operand)
      → IsOperand m
      → Keeps ctx (λ n. n ≤ extra_limit info.operation) (execute info m)
  unfolding execute
  Keeps-execute info m h = Keeps-execute_op info.operation info.mode m h
