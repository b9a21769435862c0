-- ===== src/Mos6502/Tests.antt =====
-- The theorems about the 6502 at concrete machines.
use remu.Prelude.{ℕ, ◌+◌, ◌-◌, ◌*◌, ◌≡◌, refl, arith, true, false, not, ◌==◌, leb, of_bool, u16}
use remu.Bus.Flat.{FlatMemory, flat_bus, new_memory}
use remu.Bus.Flat.Laws.{flat_laws, flat_memory}
use remu.Mos6502.Registers.{Registers, power_on}
use remu.Mos6502.Cpu.{Machine, new_cpu, service_interrupt, nmi_vector}
use remu.Mos6502.Alu.{adc, sbc}
use remu.Mos6502.Alu.Binary.{sum_fits, adc_sum, sbc-adc}
use remu.Mos6502.Alu.Decimal.{IsDecimal, decimal, adc-decimal_sum, sbc-decimal_difference}
use remu.Mos6502.Execute.{jsr_call, rts_return, rti_return}
use remu.Mos6502.Step.{step}
use remu.Mos6502.Stack.Return.{rti-service_interrupt, rts-jsr}
use remu.Mos6502.Lines.{Interrupted, interrupted, step-Interrupted}
use remu.Mos6502.Valid.{IsValid}
use remu.Mos6502.Valid.Step.{IsStep, step-IsStep}

-- A machine as `new` makes it, with zeroed memory.
abbrev machine : Machine FlatMemory
machine = record { cpu = new_cpu; bus = new_memory }

-- The same with a pending NMI.
abbrev pending : Machine FlatMemory
pending = record { cpu = record (new_cpu) { nmi_pending = true }; bus = new_memory }

machine-IsValid : IsValid flat_laws machine
machine-IsValid = record {
  regs = record {
    a = omega arith;
    x = omega arith;
    y = omega arith;
    sp = omega arith;
    pc = omega arith;
    unused = refl;
    no_break = refl;
  };
  cycles = omega arith;
  bus = λ a. omega arith;
}

-- Decimal mode with `a` in the accumulator.
abbrev in_decimal : ℕ → Registers
in_decimal a = record (power_on) { a = a; p = record (power_on.p) { d = true } }

step-IsStep_example : IsStep flat_laws machine (step machine)
step-IsStep_example = step-IsStep flat_laws machine refl machine-IsValid

step-Interrupted_example : step pending ≡ (7, interrupted flat_memory nmi_vector pending)
step-Interrupted_example =
    step-Interrupted flat_memory pending (Interrupted.nmi refl refl) (omega arith)

adc-decimal_sum_example :
    let s = adc 0x27 (in_decimal 0x95) in
    IsDecimal s.a × (decimal s.a + 100 * of_bool s.p.c ≡ decimal 0x95 + decimal 0x27 + 0)
adc-decimal_sum_example =
    adc-decimal_sum 0x27 (in_decimal 0x95) (omega arith, omega arith) (omega arith, omega arith)
      refl

sbc-decimal_difference_example :
    let s = sbc 0x27 (in_decimal 0x15) in
    IsDecimal s.a × (decimal s.a + decimal 0x27 + 1 ≡ decimal 0x15 + 0 + 100 * (1 - of_bool s.p.c))
sbc-decimal_difference_example =
    sbc-decimal_difference 0x27 (in_decimal 0x15) (omega arith, omega arith)
      (omega arith, omega arith) refl

abbrev with_a : ℕ → Registers
with_a a = record (power_on) { a = a }

adc_sum_example :
    let s = adc 0x70 (with_a 0x50) in
    (s.a + 256 * of_bool s.p.c ≡ 0x50 + 0x70 + 0)
    × (s.p.z ≡ (s.a == 0))
    × (s.p.n ≡ leb 128 s.a)
    × (s.p.v ≡ not (sum_fits 0x50 0x70 0))
adc_sum_example = adc_sum 0x70 (with_a 0x50) (omega arith) (omega arith) refl

sbc-adc_example : sbc 0x70 (with_a 0x50) ≡ adc (255 - 0x70) (with_a 0x50)
sbc-adc_example = sbc-adc 0x70 (with_a 0x50) (omega arith) (omega arith) refl

rti-service_interrupt_example :
    (rti_return (service_interrupt nmi_vector false machine).1).1.cpu ≡ machine.cpu
rti-service_interrupt_example =
    rti-service_interrupt flat_memory nmi_vector false machine machine-IsValid.regs

rts-jsr_example : (rts_return (jsr_call machine).1).1.cpu ≡ record (machine.cpu) {
  regs = record (machine.cpu.regs) { pc = u16 (machine.cpu.regs.pc + 2) };
}
rts-jsr_example = rts-jsr flat_memory machine (omega arith)
