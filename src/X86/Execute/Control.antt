-- ===== src/X86/Execute/Control.antt =====
-- x86/execute.rs: jumps, calls, returns, interrupts, ports and processor control.
use remu.Prelude.{ℕ, ◌+◌, ◌%◌, Bool, true, false, not, ◌&&◌, ◌==◌, if◌then◌else◌, u16, sub16, test}
use remu.Prelude.State.{Method, pure, ◌>>=◌, ◌>>◌}
use remu.X86.Registers.{Flags, Registers, reg8, set_reg8, from_word}
use remu.X86.Bus.{Bus}
use remu.X86.Mul.{extend8}
use remu.X86.Cpu.{
  Machine, modify_cpu, modify_regs, get_regs, fetch_byte, fetch_word, push16, pop16, interrupt,
}
use remu.X86.Execute.{cond, io_read, io_write, io_read16, io_write16}

module _ {S : Type 0} where
  abbrev jump : ℕ → Method (Machine S) (Unit {0})
  jump rel = modify_regs (λ r. record r { ip = u16 (r.ip + rel) })

  abbrev done : ℕ → (Registers → Registers) → Method (Machine S) ℕ
  done n f = do modify_regs f; pure n

  abbrev on_flags : (Flags → Flags) → Method (Machine S) ℕ
  on_flags f = done 2 (λ r. record r { flags = f r.flags })

  -- A jump if the test of the registers holds, with the cycles of both cases.
  abbrev branch : ℕ → Bool → ℕ → ℕ → Method (Machine S) ℕ
  branch rel true taken other = do jump rel; pure taken
  branch rel false taken other = pure other

  -- 9B, F4 … FD
  unfoldable pub control : ℕ → Method (Machine S) ℕ
  control opcode =
      if opcode == 0x9B
      then pure 3
      else if opcode == 0xF4
      then (do modify_cpu (λ c. record c { halted = true }); pure 2)
      else if opcode == 0xF5
      then on_flags (λ f. record f { cf = not f.cf })
      else if opcode == 0xF8
      then on_flags (λ f. record f { cf = false })
      else if opcode == 0xF9
      then on_flags (λ f. record f { cf = true })
      else if opcode == 0xFA
      then on_flags (λ f. record f { iflag = false })
      else if opcode == 0xFB
      then (do
        modify_cpu (λ c. record c { inhibit_interrupts = true })
        on_flags (λ f. record f { iflag = true }))
      else if opcode == 0xFC
      then on_flags (λ f. record f { df = false })
      else on_flags (λ f. record f { df = true })

  module _ ⦃b : Bus S⦄ where
    abbrev fetch_relative : Method (Machine S) ℕ
    fetch_relative = do d ← fetch_byte; pure (extend8 d)

    -- 60 … 7F
    unfoldable pub jcc : ℕ → Method (Machine S) ℕ
    jcc n = do rel ← fetch_relative; r ← get_regs; branch rel (cond n r.flags) 16 4

    -- E0 … E3
    abbrev loop_branch : ℕ → ℕ → Registers → Method (Machine S) ℕ
    loop_branch opcode rel r =
        let more = not (r.cx == 0) in
        if opcode == 0xE0
        then branch rel (more && not r.flags.zf) 19 5
        else if opcode == 0xE1
        then branch rel (more && r.flags.zf) 18 6
        else if opcode == 0xE2
        then branch rel more 17 5
        else branch rel (not more) 18 6

    unfoldable pub loop_cx : ℕ → Method (Machine S) ℕ
    loop_cx opcode = do
      rel ← fetch_relative
      modify_regs (λ q. if opcode == 0xE3 then q else record q { cx = sub16 q.cx 1 })
      r ← get_regs
      loop_branch opcode rel r

    abbrev pop_ip : Method (Machine S) (Unit {0})
    pop_ip = do v ← pop16; modify_regs (λ r. record r { ip = v })

    abbrev pop_cs : Method (Machine S) (Unit {0})
    pop_cs = do v ← pop16; modify_regs (λ r. record r { cs = v })

    abbrev release : ℕ → Method (Machine S) (Unit {0})
    release n = modify_regs (λ r. record r { sp = u16 (r.sp + n) })

    -- 0xC0 … 0xCB
    unfoldable pub ret_near : Method (Machine S) ℕ
    ret_near = do pop_ip; pure 16

    unfoldable pub ret_near_release : Method (Machine S) ℕ
    ret_near_release = do n ← fetch_word; pop_ip; release n; pure 20

    unfoldable pub ret_far : Method (Machine S) ℕ
    ret_far = do pop_ip; pop_cs; pure 26

    unfoldable pub ret_far_release : Method (Machine S) ℕ
    ret_far_release = do n ← fetch_word; pop_ip; pop_cs; release n; pure 25

    unfoldable pub iret : Method (Machine S) ℕ
    iret = do
      pop_ip
      pop_cs
      f ← pop16
      modify_regs (λ r. record r { flags = from_word f })
      pure 24

    -- CC … CE
    unfoldable pub software_interrupt : ℕ → Method (Machine S) ℕ
    software_interrupt opcode =
        if opcode == 0xCC
        then (do interrupt 3; pure 52)
        else if opcode == 0xCD
        then (do v ← fetch_byte; interrupt v; pure 51)
        else (do r ← get_regs; if r.flags.oflag then (do interrupt 4; pure 53) else pure 4)

    -- E4 … EF: the port is a byte of the code, or DX.
    abbrev port_of : ℕ → Method (Machine S) ℕ
    port_of opcode = if test opcode 8 then (do r ← get_regs; pure r.dx) else fetch_byte

    abbrev transfer_port : ℕ → ℕ → ℕ → Registers → Method (Machine S) ℕ
    transfer_port n p cycles r =
        if n == 0
        then (do v ← io_read p; done cycles (set_reg8 0 v))
        else if n == 1
        then (do v ← io_read16 p; done cycles (λ q. record q { ax = v }))
        else if n == 2
        then (do io_write p (reg8 0 r); pure cycles)
        else (do io_write16 p r.ax; pure cycles)

    unfoldable pub port : ℕ → Method (Machine S) ℕ
    port opcode = do
      p ← port_of opcode
      r ← get_regs
      transfer_port (opcode % 4) p (if test opcode 8 then 8 else 10) r

    -- 9A, E8 … EB
    unfoldable pub call_far : ℕ → ℕ → Method (Machine S) (Unit {0})
    call_far off s = do
      r ← get_regs
      push16 r.cs
      push16 r.ip
      modify_regs (λ q. record q { cs = s; ip = off })

    unfoldable pub call_near : ℕ → Method (Machine S) (Unit {0})
    call_near target = do r ← get_regs; push16 r.ip; modify_regs (λ q. record q { ip = target })

    unfoldable pub transfer : ℕ → Method (Machine S) ℕ
    transfer opcode =
        if opcode == 0x9A
        then (do off ← fetch_word; s ← fetch_word; call_far off s; pure 28)
        else if opcode == 0xE8
        then (do rel ← fetch_word; r ← get_regs; call_near (u16 (r.ip + rel)); pure 19)
        else if opcode == 0xE9
        then (do rel ← fetch_word; jump rel; pure 15)
        else if opcode == 0xEA
        then (do off ← fetch_word; s ← fetch_word; done 15 (λ r. record r { ip = off; cs = s }))
        else (do rel ← fetch_relative; jump rel; pure 15)
