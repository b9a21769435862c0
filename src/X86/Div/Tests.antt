-- ===== src/X86/Div/Tests.antt =====
-- The theorems about division at concrete operands.
use remu.Prelude.{◌+◌, ◌*◌, ◌≡◌, arith, true, false, none, some}
use remu.X86.Registers.{Registers, power_on, empty}
use remu.X86.Width.{byte}
use remu.X86.Div.{div8, aam, divide}
use remu.X86.Div.Unsigned.{div8_unsigned, aam_split}
use remu.X86.Div.Signed.{divide_signed}

abbrev loaded : Registers
loaded = record power_on { ax = 1000; dx = 1 }

-- 1000 by 7, and by zero.
div8_unsigned_example :
    ((div8 none 7 false loaded).0 ≡ true) × ((div8 none 7 false loaded).1.ax ≡ 6 * 256 + 142)
div8_unsigned_example = div8_unsigned none 7 loaded (omega arith) (omega arith)

aam_split_example : ((aam 10 loaded).0 ≡ true) × ((aam 10 loaded).1.ax ≡ 23 * 256 + 2)
aam_split_example = aam_split 10 loaded (omega arith)

-- -1000 by 9: the quotient is -111 and the remainder -1.
divide_signed_example : (divide byte none 0xFC 0x18 9 true empty).0 ≡ some (255, 145)
divide_signed_example =
    divide_signed byte 0xFC 0x18 9 empty (omega arith) (omega arith) (omega arith)
