-- ===== src/X86/Execute/Moves.antt =====
-- x86/execute.rs: the arms that move data, and the stack.
use remu.Prelude.{
  ℕ, ◌+◌, ◌*◌, ◌/◌, Bool, true, ◌==◌, if◌then◌else◌, u8, u16, sub16, bit_and, bit_or, test,
}
use remu.Prelude.State.{Method, pure, ◌>>=◌, ◌>>◌}
use remu.X86.Registers.{
  Registers, reg_ss, reg_ds, set_reg8, reg16, set_reg16, seg, set_seg, bits, to_word, from_word,
}
use remu.X86.Width.{Width}
use remu.X86.Bus.{Bus}
use remu.X86.Mul.{extend8}
use remu.X86.Cpu.{
  Machine, seg_or, modify_cpu, modify_regs, get_regs, read8, read16, fetch_word, push16, pop16,
}
use remu.X86.Modrm.{Operand, reg_operand, mem_operand, reg, modrm, read_op16, write_op16}
use remu.X86.Execute.{reg_of, set_reg_of, get_cpu, timed, read_op, write_op, fetch}

module _ {S : Type 0} where
  abbrev done : ℕ → (Registers → Registers) → Method (Machine S) ℕ
  done n f = do modify_regs f; pure n

  -- 98, 99, 9E and 9F: conversions and flags transfers.
  unfoldable pub convert : ℕ → Method (Machine S) ℕ
  convert opcode =
      if opcode == 0x98
      then done 2 (λ r. record r { ax = extend8 (u8 r.ax) })
      else if opcode == 0x99
      then done 5 (λ r. record r { dx = if test r.ax 0x8000 then 0xFFFF else 0 })
      else if opcode == 0x9E
      then done 4 (λ r. record r {
        flags = from_word (bit_or (bit_and (bits r.flags) 0xFF00) (r.ax / 256));
      })
      else done 4 (λ r. record r {
        ax = bit_or (bit_and r.ax 0x00FF) (bit_or (bit_and (u8 (bits r.flags)) 0xD5) 0x02 * 256);
      })

  -- 90 … 97
  unfoldable pub exchange : ℕ → Method (Machine S) ℕ
  exchange i = done 3 (λ r. set_reg16 i r.ax (record r { ax = reg16 i r }))

  abbrev inhibit : Bool → Method (Machine S) (Unit {0})
  inhibit now =
      modify_cpu (λ c. record c { inhibit_interrupts = if now then true else c.inhibit_interrupts })

  module _ ⦃b : Bus S⦄ where
    -- 06 … 1F, 0F: segment registers and the stack.
    unfoldable pub push_seg : ℕ → Method (Machine S) ℕ
    push_seg i = do r ← get_regs; push16 (seg i r); pure 10

    unfoldable pub pop_seg : ℕ → Method (Machine S) ℕ
    pop_seg opcode = do
      v ← pop16
      modify_regs (set_seg (opcode / 8) v)
      inhibit (opcode == 0x17)
      pure 8

    unfoldable pub pop_cs : Method (Machine S) ℕ
    pop_cs = do v ← pop16; done 8 (λ r. record r { cs = v })

    -- 50 … 5F
    unfoldable pub push_reg : ℕ → Method (Machine S) ℕ
    push_reg i = do r ← get_regs; push16 (if i == 4 then sub16 r.sp 2 else reg16 i r); pure 11

    unfoldable pub pop_reg : ℕ → Method (Machine S) ℕ
    pop_reg i = do v ← pop16; done 8 (set_reg16 i v)

    -- 8F, 9C and 9D
    unfoldable pub pop_operand : Method (Machine S) ℕ
    pop_operand = do (m, op) ← modrm; v ← pop16; write_op16 op v; timed op 17 8

    unfoldable pub push_flags : Method (Machine S) ℕ
    push_flags = do r ← get_regs; push16 (to_word r.flags); pure 10

    unfoldable pub pop_flags : Method (Machine S) ℕ
    pop_flags = do v ← pop16; done 8 (λ r. record r { flags = from_word v })

    -- 86 and 87
    unfoldable pub exchange_operand : Width → Method (Machine S) ℕ
    exchange_operand w = do
      (m, op) ← modrm
      a ← read_op w op
      r ← get_regs
      write_op w op (reg_of w (reg m) r)
      modify_regs (set_reg_of w (reg m) a)
      timed op 17 4

    -- 88 … 8B
    unfoldable pub mov_rm_r : Width → Method (Machine S) ℕ
    mov_rm_r w = do (m, op) ← modrm; r ← get_regs; write_op w op (reg_of w (reg m) r); timed op 9 2

    unfoldable pub mov_r_rm : Width → Method (Machine S) ℕ
    mov_r_rm w = do
      (m, op) ← modrm
      v ← read_op w op
      modify_regs (set_reg_of w (reg m) v)
      timed op 8 2

    -- 8C and 8E
    unfoldable pub mov_rm_seg : Method (Machine S) ℕ
    mov_rm_seg = do (m, op) ← modrm; r ← get_regs; write_op16 op (seg (reg m) r); timed op 9 2

    unfoldable pub mov_seg_rm : Method (Machine S) ℕ
    mov_seg_rm = do
      (m, op) ← modrm
      v ← read_op16 op
      modify_regs (set_seg (reg m) v)
      inhibit (bit_and (reg m) 3 == reg_ss)
      timed op 8 2

    -- 8D
    abbrev load_address : ℕ → Operand → Method (Machine S) (Unit {0})
    load_address i (reg_operand j) = pure tt
    load_address i (mem_operand s off) = modify_regs (set_reg16 i off)

    unfoldable pub lea : Method (Machine S) ℕ
    lea = do (m, op) ← modrm; load_address (reg m) op; c ← get_cpu; pure (2 + c.ea_cycles)

    -- A0 … A3
    unfoldable pub load_direct : Width → Method (Machine S) ℕ
    load_direct w = do
      off ← fetch_word
      c ← get_cpu
      v ← read_op w (mem_operand (seg_or reg_ds c) off)
      modify_regs (set_reg_of w 0 v)
      pure 10

    unfoldable pub store_direct : Width → Method (Machine S) ℕ
    store_direct w = do
      off ← fetch_word
      c ← get_cpu
      write_op w (mem_operand (seg_or reg_ds c) off) (reg_of w 0 c.regs)
      pure 10

    -- 0xB0 … 0xBF, 0xC6 and 0xC7
    unfoldable pub mov_reg_immediate : Width → ℕ → Method (Machine S) ℕ
    mov_reg_immediate w i = do v ← fetch w; done 4 (set_reg_of w i v)

    unfoldable pub mov_immediate : Width → Method (Machine S) ℕ
    mov_immediate w = do (m, op) ← modrm; v ← fetch w; write_op w op v; timed op 10 4

    -- 0xC4 and 0xC5
    abbrev load_pointer : ℕ → ℕ → Operand → Method (Machine S) (Unit {0})
    load_pointer opcode i (reg_operand j) = pure tt
    load_pointer opcode i (mem_operand s off) = do
      v ← read16 s off
      t ← read16 s (u16 (off + 2))
      modify_regs (set_reg16 i v)
      modify_regs (λ r. if opcode == 0xC4 then record r { es = t } else record r { ds = t })

    unfoldable pub load_far : ℕ → Method (Machine S) ℕ
    load_far opcode = do
      (m, op) ← modrm
      load_pointer opcode (reg m) op
      c ← get_cpu
      pure (16 + c.ea_cycles)

    -- D6, D7 and D8 … DF
    unfoldable pub salc : Method (Machine S) ℕ
    salc = done 3 (λ r. set_reg8 0 (if r.flags.cf then 0xFF else 0) r)

    unfoldable pub xlat : Method (Machine S) ℕ
    xlat = do
      c ← get_cpu
      v ← read8 (seg_or reg_ds c) (u16 (c.regs.bx + bit_and c.regs.ax 0xFF))
      done 11 (set_reg8 0 v)

    abbrev touch : Operand → Method (Machine S) (Unit {0})
    touch (reg_operand j) = pure tt
    touch (mem_operand s off) = do v ← read8 s off; pure tt

    unfoldable pub escape : Method (Machine S) ℕ
    escape = do (m, op) ← modrm; touch op; timed op 8 2
