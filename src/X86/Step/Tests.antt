-- ===== src/X86/Step/Tests.antt =====
-- The theorems about the processor at concrete machines.
use remu.Prelude.{◌≡◌, ap, ◌∷◌, [], arith, true}
use remu.X86.Bus.{LinearMemory, linear_bus, linear_memory, linear_peek, load, new_memory, poke}
use remu.X86.Cpu.{Machine, new_cpu, interrupt, phys}
use remu.X86.Memory.Return.{iret-interrupt}
use remu.X86.Execute.Control.{iret}
use remu.X86.Execute.Dispatch.{is_prefix}
use remu.X86.Div.{is_some}
use remu.X86.Step.{step}
use remu.X86.Step.Prefixes.{step-some}

-- A machine that runs `REP STOSB` at 0000:0100, with its stack at the end of the segment.
abbrev memory : LinearMemory
memory = load 0x100 (0xF3 ∷ 0xAA ∷ []) new_memory

abbrev machine : Machine LinearMemory
machine = record {
  cpu = record new_cpu { regs = record (new_cpu.regs) { cs = 0; ip = 0x100; cx = 2; sp = 1 } };
  bus = memory;
}

iret-interrupt_example : (iret (interrupt 0x21 machine).1).1.cpu ≡ machine.cpu
iret-interrupt_example =
    iret-interrupt linear_memory 0x21 machine (omega arith) (omega arith) (omega arith)

step-some_example : is_some (step machine) ≡ true
unfolding load poke phys
step-some_example =
    step-some linear_memory 1 machine (omega arith) (omega arith)
      (omega arith, ap is_prefix (linear_peek memory _))
