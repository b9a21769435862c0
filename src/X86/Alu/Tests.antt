-- ===== src/X86/Alu/Tests.antt =====
-- The theorems about the arithmetic unit at concrete operands.
use remu.Prelude.{◌+◌, ◌*◌, ◌≡◌, refl, arith, true, of_bool, u8}
use remu.X86.Registers.{Flags, Registers, empty, power_on}
use remu.X86.Width.{byte, wide}
use remu.X86.Alu.{adc, sbb, rol, ror, rcl, rcr}
use remu.X86.Alu.Carries.{IsDifference, sbb-IsDifference}
use remu.X86.Alu.Rotates.{rotate_through_inverse}
use remu.X86.Bcd.{daa}
use remu.X86.Bcd.Sums.{IsPacked, decimal, daa-adc}

abbrev carried : Flags
carried = record empty { cf = true }

sbb-IsDifference_example : IsDifference wide 0x8000 0x0001 1 (sbb wide 0x8000 0x0001 carried)
sbb-IsDifference_example = sbb-IsDifference wide 0x8000 0x0001 carried (omega arith) (omega arith)

rotate_through_inverse_example :
    ((ror byte (rol byte 0x96 3 carried).0 3 (rol byte 0x96 3 carried).1).0 ≡ 0x96)
    × ((rcr byte (rcl byte 0x96 3 carried).0 3 (rcl byte 0x96 3 carried).1).0 ≡ 0x96)
    × ((rcr byte (rcl byte 0x96 3 carried).0 3 (rcl byte 0x96 3 carried).1).1.cf ≡ true)
rotate_through_inverse_example = rotate_through_inverse byte 3 0x96 carried (omega arith)

-- The registers after `ADC AL, 47` with 58 in AL, and after `SBB AL, 47`.
abbrev summed : Registers
summed = record power_on {
  ax = (adc byte 0x58 0x47 carried).0;
  flags = (adc byte 0x58 0x47 carried).1;
}

daa-adc_example :
    IsPacked (u8 (daa summed).ax)
    × decimal (u8 (daa summed).ax) + 100 * of_bool (daa summed).flags.cf ≡ 106
unfolding adc
daa-adc_example =
    daa-adc 0x58 0x47 carried summed (omega arith, omega arith) (omega arith, omega arith) refl
