-- ===== src/I386/Registers.antt =====
-- x86_32/registers.rs: the register file of the 386, without the flags.
use remu.Prelude.{
  ℕ, ◌*◌, ◌/◌, ◌%◌, Bool, ◌&&◌, ◌==◌, if◌then◌else◌, u8, u16, u32, test, bit_and, bit_or,
}
use remu.I386.EFlags.{EFlags, empty, not32}
use remu.I386.Cr0

-- `reg::CS`, `SS` and `ESP`
abbrev pub reg_cs : ℕ
reg_cs = 1

abbrev pub reg_ss : ℕ
reg_ss = 2

abbrev pub reg_esp : ℕ
reg_esp = 4

pub record SegReg : Type 0 where
  pub sel : ℕ
  pub base : ℕ
  pub limit : ℕ
  pub attrs : ℕ

abbrev pub real_mode_attrs : ℕ
real_mode_attrs = 0x0093

abbrev pub real : ℕ → SegReg
real sel = record { sel = sel; base = u32 (sel * 16); limit = 0xFFFF; attrs = real_mode_attrs }

unfoldable pub db : SegReg → Bool
db s = test s.attrs 0x0400

unfoldable pub dpl : SegReg → ℕ
dpl s = u8 (bit_and (s.attrs / 32) 3)

unfoldable pub expand_down : SegReg → Bool
expand_down s = (bit_and s.attrs 0x0018 == 0x0010) && test s.attrs 0x0004

pub record DescTable : Type 0 where
  pub base : ℕ
  pub limit : ℕ

-- The arrays of the registers are functions of the index.
pub record Registers : Type 0 where
  pub gpr : ℕ → ℕ
  pub seg : ℕ → SegReg
  pub eip : ℕ
  pub eflags : EFlags
  pub cr0 : ℕ
  pub cr2 : ℕ
  pub cr3 : ℕ
  pub dr : ℕ → ℕ
  pub tr6 : ℕ
  pub tr7 : ℕ
  pub gdtr : DescTable
  pub idtr : DescTable
  pub ldtr : SegReg
  pub tr : SegReg

abbrev pub system_segment : ℕ → SegReg
system_segment attrs = record { sel = 0; base = 0; limit = 0xFFFF; attrs = attrs }

-- `Registers::new`
abbrev pub power_on : Registers
power_on = record {
  gpr = λ _. 0;
  seg = λ i.
      if i == reg_cs
      then record { sel = 0xF000; base = 0xFFFF0000; limit = 0xFFFF; attrs = real_mode_attrs }
      else real 0;
  eip = 0xFFF0;
  eflags = empty;
  cr0 = Cr0.et;
  cr2 = 0;
  cr3 = 0;
  dr = λ _. 0;
  tr6 = 0;
  tr7 = 0;
  gdtr = record { base = 0; limit = 0xFFFF };
  idtr = record { base = 0; limit = 0x03FF };
  ldtr = system_segment 0x0082;
  tr = system_segment 0x0083;
}

-- The array with another value at one index.
abbrev pub with_gpr : ℕ → ℕ → Registers → Registers
with_gpr i v r = record r { gpr = λ j. if j == i then v else r.gpr j }

unfoldable pub reg32 : ℕ → Registers → ℕ
reg32 i r = r.gpr (bit_and i 7)

unfoldable pub set_reg32 : ℕ → ℕ → Registers → Registers
set_reg32 i v r = with_gpr (bit_and i 7) v r

unfoldable pub reg16 : ℕ → Registers → ℕ
reg16 i r = u16 (r.gpr (bit_and i 7))

unfoldable pub set_reg16 : ℕ → ℕ → Registers → Registers
set_reg16 i v r = let k = bit_and i 7 in with_gpr k (bit_or (bit_and (r.gpr k) 0xFFFF0000) v) r

unfoldable pub reg8 : ℕ → Registers → ℕ
reg8 i r =
    let k = bit_and i 7 in let w = r.gpr (bit_and k 3) in if test k 4 then u8 (w / 256) else u8 w

unfoldable pub set_reg8 : ℕ → ℕ → Registers → Registers
set_reg8 i v r =
    let k = bit_and i 7 in
    let n = bit_and k 3 in
    let w = r.gpr n in
    with_gpr n
      (if test k 4
        then bit_or (bit_and w (not32 0xFF00)) (u32 (v * 256))
        else bit_or (bit_and w (not32 0xFF)) v)
      r

unfoldable pub seg_sel : ℕ → Registers → ℕ
seg_sel i r = (r.seg (i % 6)).sel
