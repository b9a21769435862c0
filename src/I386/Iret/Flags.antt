-- ===== src/I386/Iret/Flags.antt =====
-- The flags that a return from an interrupt may write.
use remu.Prelude.{
  ℕ, ◌/◌, ◌%◌, ◌<◌, ◌≡◌, refl, arith, ◌∙◌, sym, ap, subst, Bool, if◌then◌else◌, false, true, ltb,
  ◌==◌, of_bool, test, bit_and, bit_or,
}
use remu.Prelude.Bits.{bit_and-pow, bit_and_mask, digit, digit-lt, digit-bit_and, digit-bit_or}
use remu.I386.EFlags.{EFlags, bits, from_bits, not32, load, iopl_of}
use remu.I386.Cpu.{Cpu, cpl, protected_mode}
use remu.I386.Iret.{popf_mask, iret_flag_mask, without_iopl, without_if, defined_flags}

-- A digit that the mask leaves out is kept.
kept_digit :
    (k mask value v : ℕ)
    → digit mask k ≡ 0
    → digit (not32 mask) k ≡ 1
    → digit (bit_or (bit_and v (not32 mask)) (bit_and value mask)) k ≡ digit v k
kept_digit k mask value v h n = omega (
  arith,
  digit-bit_or k (bit_and v (not32 mask)) (bit_and value mask),
  digit-bit_and k v (not32 mask),
  digit-bit_and k value mask,
  digit-lt v k,
  digit-lt value k,
  h,
  n,
)

digit_nine : (v : ℕ) → digit v 9 ≡ v / 512 % 2
unfolding digit
digit_nine v = omega arith

digit_twelve : (v : ℕ) → digit v 12 ≡ v / 4096 % 2
unfolding digit
digit_twelve v = omega arith

digit_thirteen : (v : ℕ) → digit v 13 ≡ v / 8192 % 2
unfolding digit
digit_thirteen v = omega arith

digit_seventeen : (v : ℕ) → digit v 17 ≡ v / 131072 % 2
unfolding digit
digit_seventeen v = omega arith

test-0x200 : (v : ℕ) → test v 0x200 ≡ (digit v 9 == 1)
unfolding test
test-0x200 v = ground (arith, bit_and-pow 9 v, digit-lt v 9)

test-0x20000 : (v : ℕ) → test v 0x20000 ≡ (digit v 17 == 1)
unfolding test
test-0x20000 v = ground (arith, bit_and-pow 17 v, digit-lt v 17)

-- The flags as digits of their number.
bits_iopl : (f : EFlags) → f.iopl < 4 → bits f / 4096 % 4 ≡ f.iopl
unfolding bits
bits_iopl f h = ground (arith, h)

bits_iflag : (f : EFlags) → f.iopl < 4 → bits f / 512 % 2 ≡ of_bool f.iflag
unfolding bits
bits_iflag f h = ground (arith, h)

bits_vm : (f : EFlags) → f.iopl < 4 → bits f / 131072 % 2 ≡ of_bool f.vm
unfolding bits
bits_vm f h = ground (arith, h)

iopl_lem : (f : EFlags) → f.iopl < 4 → iopl_of f ≡ f.iopl
unfolding iopl_of
iopl_lem f h = omega (arith, bit_and_mask 2 3 (bits f / 4096) (omega arith), bits_iopl f h, h)

-- The mask above level 0, by the operand size and by whether the level is above `IOPL`.
abbrev outer_mask : Bool → Bool → ℕ
outer_mask wide above =
    let mask = without_iopl (if wide then bit_or defined_flags 0x10000 else defined_flags) in
    if above then without_if mask else mask

-- The digits of the mask that say what is kept.
abbrev IsOuter : ℕ → Bool → Type 0
IsOuter mask above =
    (digit mask 12 ≡ 0)
    × (digit (not32 mask) 12 ≡ 1)
    × (digit mask 13 ≡ 0)
    × (digit (not32 mask) 13 ≡ 1)
    × (digit mask 17 ≡ 0)
    × (digit (not32 mask) 17 ≡ 1)
    × (digit mask 9 ≡ (if above then 0 else 1))
    × (digit (not32 mask) 9 ≡ (if above then 1 else 0))

outer_mask-IsOuter : (wide above : Bool) → IsOuter (outer_mask wide above) above
unfolding digit
outer_mask-IsOuter true true = (refl, refl, refl, refl, refl, refl, refl, refl)
outer_mask-IsOuter true false = (refl, refl, refl, refl, refl, refl, refl, refl)
outer_mask-IsOuter false true = (refl, refl, refl, refl, refl, refl, refl, refl)
outer_mask-IsOuter false false = (refl, refl, refl, refl, refl, refl, refl, refl)

iret_flag_mask_lem :
    (level : ℕ) (c : Cpu)
    → c.regs.eflags.iopl < 4
    → 0 < level
    → iret_flag_mask level c ≡ outer_mask c.osize32 (ltb c.regs.eflags.iopl level)
unfolding iret_flag_mask
iret_flag_mask_lem level c h k =
    let above : ltb 0 level ≡ true = ground (arith, k) in rw (iopl_lem c.regs.eflags h, above) refl

popf_mask-iret_flag_mask :
    (c : Cpu) → protected_mode c.regs ≡ true → popf_mask c ≡ iret_flag_mask (cpl c.regs) c
unfolding popf_mask iret_flag_mask
popf_mask-iret_flag_mask c p = rw p refl

abbrev loaded_bits : ℕ → ℕ → ℕ → ℕ
loaded_bits value mask v = bit_or (bit_and v (not32 mask)) (bit_and value mask)

-- A digit that the mask has is the value's.
taken_digit :
    (k mask value v : ℕ)
    → digit mask k ≡ 1
    → digit (not32 mask) k ≡ 0
    → digit (loaded_bits value mask v) k ≡ digit value k
taken_digit k mask value v h n = omega (
  arith,
  digit-bit_or k (bit_and v (not32 mask)) (bit_and value mask),
  digit-bit_and k v (not32 mask),
  digit-bit_and k value mask,
  digit-lt v k,
  digit-lt value k,
  h,
  n,
)

-- What a load with such a mask keeps.
abbrev pub IsKept : ℕ → Bool → EFlags → EFlags → Type 0
IsKept value above f g =
    (g.iopl ≡ f.iopl) × (g.vm ≡ f.vm) × (g.iflag ≡ (if above then f.iflag else test value 0x200))

loaded_iflag :
    (value mask : ℕ) (above : Bool) (f : EFlags)
    → f.iopl < 4
    → digit mask 9 ≡ (if above then 0 else 1)
    → digit (not32 mask) 9 ≡ (if above then 1 else 0)
    → test (loaded_bits value mask (bits f)) 0x200 ≡ (if above then f.iflag else test value 0x200)
loaded_iflag value mask true f h d n =
    test-0x200 _
    ∙ ground (arith, kept_digit 9 mask value (bits f) d n, digit_nine (bits f), bits_iflag f h)
loaded_iflag value mask false f h d n =
    test-0x200 _
    ∙ ap (λ (t : ℕ). t == 1) (taken_digit 9 mask value (bits f) d n)
    ∙ sym (test-0x200 value)

load-IsKept :
    (value mask : ℕ) (above : Bool) (f : EFlags)
    → f.iopl < 4
    → IsOuter mask above
    → IsKept value above f (load value mask f)
unfolding load from_bits
load-IsKept value mask above f h (a, na, b, nb, v, nv, d, nd) =
    let loaded = loaded_bits value mask (bits f) in
    (
      omega (
        arith,
        digit_twelve loaded,
        digit_thirteen loaded,
        digit_twelve (bits f),
        digit_thirteen (bits f),
        kept_digit 12 mask value (bits f) a na,
        kept_digit 13 mask value (bits f) b nb,
        bits_iopl f h,
      ),
      test-0x20000 _
          ∙ ground (
            arith,
            kept_digit 17 mask value (bits f) v nv,
            digit_seventeen (bits f),
            bits_vm f h,
          ),
      loaded_iflag value mask above f h d nd,
    )

-- For flags whose `IOPL` is below 4, the flags that `POPF` and `IRET` load in protected mode above
-- level 0, from any value: both use the same mask, `IOPL` and `VM` are as they were, and `IF` is as it
-- was if the level is above `IOPL`, and that of the value if it is not.
pub popf_mask-IsKept :
    (c : Cpu) (value : ℕ)
    → c.regs.eflags.iopl < 4
    → protected_mode c.regs ≡ true
    → 0 < cpl c.regs
    → (popf_mask c ≡ iret_flag_mask (cpl c.regs) c)
      × IsKept value
          (ltb c.regs.eflags.iopl (cpl c.regs))
          c.regs.eflags
          (load value (popf_mask c) c.regs.eflags)
popf_mask-IsKept c value h p k =
    let above = ltb c.regs.eflags.iopl (cpl c.regs) in
    let same = popf_mask-iret_flag_mask c p in
    let e : popf_mask c ≡ outer_mask c.osize32 above =
      same ∙ iret_flag_mask_lem (cpl c.regs) c h k in
    (
      same,
      subst (λ (m : ℕ). IsKept value above c.regs.eflags (load value m c.regs.eflags)) (sym e)
          (load-IsKept value (outer_mask c.osize32 above) above c.regs.eflags h
            (outer_mask-IsOuter c.osize32 above)),
    )
