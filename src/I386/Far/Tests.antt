-- ===== src/I386/Far/Tests.antt =====
-- A program of level 3: a far jump to a conforming segment of level 0, and the flags it may load.
use remu.Prelude.{◌<◌, ltb, arith, ◌≡◌, refl, true, ◌||◌, ◌==◌, if◌then◌else◌, test}
use remu.Prelude.Outcome.{ok, ◌>>=◌, pure, always}
use remu.I386.Bus.{
  LinearMemory, new_memory, linear_bus, linear_read, linear_read16, linear_read32, linear_write,
  linear_write16, linear_write32, put_word32, put_byte,
}
use remu.I386.Registers.{SegReg, power_on, reg_cs, dpl, real}
use remu.I386.Cpu.{Machine, new_cpu, cpl, protected_mode, stamp_write, stamp_write_span}
use remu.I386.Linear.{paging, lin_read32, lin_write8, as_supervisor, store_at, store}
use remu.I386.Segments.{asks, update_cpu, update_regs, refuse}
use remu.I386.Protected.{
  sys_type, is_code_data, is_code, is_conforming, present, descriptor_dpl, table, parse_descriptor,
  prepare_cold_write, read_descriptor_err, mark_accessed, commit_seg, load_cs,
}
use remu.I386.Far.{jump_far, jump_protected, jump_code, check_code_reachable}
use remu.I386.Far.Privilege.{conforming, jump_far-cpl}
use remu.I386.EFlags.{load}
use remu.I386.Iret.{popf_mask, iret_flag_mask}
use remu.I386.Iret.Flags.{IsKept, popf_mask-IsKept}
use remu.Prelude.State.{modify}

-- The descriptor table at 0x3000, whose first descriptor is one of conforming code of level 0.
abbrev tables : LinearMemory
tables = linear_write32 0x300C 0x00CF9E00 (linear_write32 0x3008 0x0000FFFF new_memory)

-- `CS` is a code segment of level 3.
abbrev user_cs : SegReg
user_cs = record { sel = 0x1B; base = 0; limit = 0xFFFFFFFF; attrs = 0x0CFB }

abbrev user : Machine LinearMemory
user = record {
  cpu = record new_cpu {
    regs = record power_on {
      cr0 = 0x1;
      seg = λ i. if i == reg_cs then user_cs else real 0;
      gdtr = record { base = 0x3000; limit = 0xFFFF };
    };
  };
  bus = tables;
}

user_level : cpl user.cpu.regs ≡ 3
unfolding cpl protected_mode dpl test
user_level = refl

user_protected : protected_mode user.cpu.regs ≡ true
unfolding protected_mode test
user_protected = refl

jumps : (jump_far 0x0B 0x10 user).0 ≡ ok tt
unfolding jump_far jump_protected jump_code check_code_reachable refuse asks update_cpu update_regs
    cpl protected_mode dpl test ◌>>=◌ pure always read_descriptor_err table parse_descriptor
    lin_read32 lin_write8 paging as_supervisor store store_at stamp_write stamp_write_span
    linear_read linear_read16 linear_read32 linear_write linear_write16 linear_write32 put_word32
    put_byte is_code_data is_code is_conforming present descriptor_dpl sys_type mark_accessed
    commit_seg load_cs prepare_cold_write
jumps = refl

-- The level is 0 after the jump.
raised : cpl (jump_far 0x0B 0x10 user).1.cpu.regs ≡ 0
unfolding jump_far jump_protected jump_code check_code_reachable refuse asks update_cpu update_regs
    cpl protected_mode dpl test ◌>>=◌ pure always read_descriptor_err table parse_descriptor
    lin_read32 lin_write8 paging as_supervisor store store_at stamp_write stamp_write_span
    linear_read linear_read16 linear_read32 linear_write linear_write16 linear_write32 put_word32
    put_byte is_code_data is_code is_conforming present descriptor_dpl sys_type mark_accessed
    commit_seg load_cs prepare_cold_write modify
raised = refl

jump_far-cpl_example :
    (cpl (jump_far 0x0B 0x10 user).1.cpu.regs
      ≡ dpl ((jump_far 0x0B 0x10 user).1.cpu.regs.seg reg_cs))
    × ((conforming ((jump_far 0x0B 0x10 user).1.cpu.regs.seg reg_cs)
          || (cpl (jump_far 0x0B 0x10 user).1.cpu.regs == cpl user.cpu.regs))
        ≡ true)
jump_far-cpl_example = jump_far-cpl 0x0B 0x10 user user_protected jumps

user_outer : 0 < cpl user.cpu.regs
user_outer = omega (arith, user_level)

popf_mask-IsKept_example :
    (popf_mask user.cpu ≡ iret_flag_mask (cpl user.cpu.regs) user.cpu)
    × IsKept 0x3200
        (ltb user.cpu.regs.eflags.iopl (cpl user.cpu.regs))
        user.cpu.regs.eflags
        (load 0x3200 (popf_mask user.cpu) user.cpu.regs.eflags)
popf_mask-IsKept_example = popf_mask-IsKept user.cpu 0x3200 (omega arith) user_protected user_outer
