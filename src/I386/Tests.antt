-- ===== src/I386/Tests.antt =====
-- Runs of the paging unit on `LinearMemory`.
use remu.Prelude.{of_bool, test, ◌+◌, ◌*◌, ◌≡◌, refl, arith, true, false, List, [], ◌∷◌}
use remu.Prelude.Outcome.{◌>>=◌, pure, always, ok, err}
use remu.I386.Bus.{
  linear_read16, linear_write16, LinearMemory, new_memory, put_word32, put_byte, linear_bus,
  linear_read32, linear_write32, linear_read, linear_write,
}
use remu.I386.Memory.{linear_memory}
use remu.I386.Registers.{Registers, reg8, dpl, power_on}
use remu.I386.Cpu.{
  cpl, protected_mode, stamp_write, stamp_write_span, Machine, page_fault, new_cpu, flush, new_tlb,
}
use remu.I386.Paging.{
  second_level, user_access, complete, refill, mark_pde, mark_pte, write_back, allows, both, fault,
  fault_code, put_entry, translate, walk,
}
use remu.I386.Paging.Coherent.{IsCoherent, flush-Coherent}
use remu.I386.Paging.Walk.{IsAccess}
use remu.I386.Paging.Refine.{run, uncached, forget, run-uncached, translate-IsAccess, Access}
use remu.I386.Linear.{
  paging, split_write32, translate_bytes, store, store_at, lin_write32, sys_read32,
}
use remu.I386.Linear.Faults.{lin_write32-FaultsClean}
use remu.I386.Linear.System.{Absent, sys_read32-Absent}
use remu.I386.Alu.{adc, sbb}
use remu.I386.Alu.Carries.{IsSum, IsDifference, adc_exact, sbb_exact}
use remu.I386.Width.{byte, double}
use remu.I386.EFlags.{empty}
use remu.X86.Bcd.Sums.{IsPacked, decimal}
use remu.I386.Bcd.{daa}
use remu.I386.Bcd.Sums.{daa-decimal_sum}
use remu.I386.Div.{signed_divide}
use remu.I386.Div.Signed.{IsDivided, signed_divide_exact}

-- A directory at 0x1000, whose first table at 0x2000 maps page 5 to 0x9000, and not page 6.
abbrev tables : LinearMemory
tables = linear_write32 0x2014 0x9007 (linear_write32 0x1000 0x2007 new_memory)

abbrev machine : Machine LinearMemory
machine = record {
  cpu = record new_cpu {
    regs = record power_on { cr0 = 0x80000001; cr3 = 0x1000 };
    tlb = flush new_tlb;
  };
  bus = tables;
}

machine-IsCoherent : IsCoherent linear_memory machine
machine-IsCoherent = flush-Coherent linear_memory new_tlb 0x1000 tables

test_translate : (translate 0x5123 true machine).0 ≡ ok 0x9123
unfolding test translate flush walk linear_read32 linear_write32 put_word32 put_byte second_level
    user_access cpl protected_mode dpl complete refill mark_pde mark_pte write_back linear_read
    linear_read16 linear_write linear_write16 stamp_write stamp_write_span allows both fault
    fault_code put_entry lin_write32 paging split_write32 translate_bytes ◌>>=◌ pure always store
    store_at
test_translate = refl

test_dirty : (linear_read32 0x2014 (translate 0x5123 true machine).1.bus).0 ≡ 0x9067
unfolding test translate flush walk linear_read32 linear_write32 put_word32 put_byte second_level
    user_access cpl protected_mode dpl complete refill mark_pde mark_pte write_back linear_read
    linear_read16 linear_write linear_write16 stamp_write stamp_write_span allows both fault
    fault_code put_entry lin_write32 paging split_write32 translate_bytes ◌>>=◌ pure always store
    store_at
test_dirty = refl

test_split : (lin_write32 0x5FFE 0x12345678 machine).0 ≡ err (page_fault 2)
unfolding test translate flush walk linear_read32 linear_write32 put_word32 put_byte second_level
    user_access cpl protected_mode dpl complete refill mark_pde mark_pte write_back linear_read
    linear_read16 linear_write linear_write16 stamp_write stamp_write_span allows both fault
    fault_code put_entry lin_write32 paging split_write32 translate_bytes ◌>>=◌ pure always store
    store_at
test_split = refl

abbrev accesses : List Access
accesses = (0x5123, false) ∷ (0x5456, true) ∷ (0x6000, false) ∷ []

run-uncached_example :
    ((run translate accesses machine).0 ≡ (run uncached accesses (forget machine)).0)
    × (forget (run translate accesses machine).1 ≡ (run uncached accesses (forget machine)).1)
run-uncached_example =
    run-uncached linear_memory accesses machine (omega arith, (omega arith, (omega arith, tt)))
      machine-IsCoherent

translate-IsAccess_example : IsAccess linear_memory machine (translate 0x5123 true machine).1
translate-IsAccess_example = translate-IsAccess linear_memory 0x5123 (omega arith) true machine

lin_write32-FaultsClean_example :
    IsAccess linear_memory machine (lin_write32 0x5FFE 0x12345678 machine).1
lin_write32-FaultsClean_example =
    lin_write32-FaultsClean linear_memory 0x5FFE 0x12345678 machine (page_fault 2) (omega arith)
      test_split

sys_read32-Absent_example :
    Absent false (sys_read32 0x6000 machine).0
    × ((sys_read32 0x6000 machine).1.cpu.supervisor_override ≡ false)
sys_read32-Absent_example = sys_read32-Absent 0x6000 machine

adc_exact_example : IsSum double 0xFFFFFFFF 0x80000000 0 (adc double 0xFFFFFFFF 0x80000000 empty)
adc_exact_example = adc_exact double 0xFFFFFFFF 0x80000000 empty (omega arith) (omega arith)

sbb_exact_example : IsDifference double 5 0x80000000 0 (sbb double 5 0x80000000 empty)
sbb_exact_example = sbb_exact double 5 0x80000000 empty (omega arith) (omega arith)

-- AL and the flags after `ADC` of 58 and 67.
abbrev after_adc : Registers
after_adc = record power_on { gpr = λ _. 0xBF; eflags = (adc byte 0x58 0x67 empty).1 }

summed : (reg8 0 after_adc, after_adc.eflags) ≡ adc byte 0x58 0x67 empty
unfolding adc reg8 test
summed = refl

daa-decimal_sum_example :
    IsPacked (reg8 0 (daa after_adc))
    × decimal (reg8 0 (daa after_adc)) + 100 * of_bool (daa after_adc).eflags.cf
      ≡ decimal 0x58 + decimal 0x67 + 0
daa-decimal_sum_example =
    daa-decimal_sum 0x58 0x67 empty after_adc (omega arith, omega arith) (omega arith, omega arith)
      summed

-- AX is 100.
abbrev hundred : Registers
hundred = record power_on { gpr = λ _. 100 }

signed_divide_exact_example : IsDivided byte 0xF9 hundred (signed_divide byte 0xF9 hundred)
signed_divide_exact_example =
    signed_divide_exact byte 0xF9 hundred (omega arith) (omega arith, omega arith) (ground arith)
