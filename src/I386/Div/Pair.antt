-- ===== src/I386/Div/Pair.antt =====
-- The pair of registers of a division: what `dividend_of` reads and `put_quotient` writes, by the names
-- of the registers.
use remu.Prelude.{
  ℕ, ◌+◌, ◌*◌, ◌/◌, ◌%◌, ◌^◌, ◌<◌, ◌≡◌, refl, arith, ap, ◌∙◌, false, ◌==◌, u32, bit_and, bit_or,
  test,
}
use remu.Prelude.Bits.{bit_and_mask, bit_and_shift, bit_or_sum}
use remu.Prelude.Fields.{bit_and_ones, bit_or_shift}
use remu.I386.EFlags.{not32}
use remu.I386.Registers.{Registers, reg16, set_reg8, set_reg16}
use remu.I386.Width.{Width, byte, word, double, modulus}
use remu.I386.Div.{dividend_of, put_quotient}

-- `AH`, `DX` and `EDX`, and `AL`, `AX` and `EAX`, which hold the remainder and the quotient.
abbrev pub high : Width → Registers → ℕ
high byte r = r.gpr 0 / 256 % 256
high word r = r.gpr 2 % 65536
high double r = r.gpr 2

abbrev pub low : Width → Registers → ℕ
low byte r = r.gpr 0 % 256
low word r = r.gpr 0 % 65536
low double r = r.gpr 0

-- `EAX` and `EDX` are words of 32 bits.
abbrev pub IsWide : Registers → Type 0
IsWide r = (r.gpr 0 < 2 ^ 32) × (r.gpr 2 < 2 ^ 32)

-- All is kept but the pair.
abbrev SameUpper : Width → Registers → Registers → Type 0
SameUpper byte r s = (s.gpr 0 / 65536 ≡ r.gpr 0 / 65536) × (s.gpr 2 ≡ r.gpr 2)
SameUpper word r s = (s.gpr 0 / 65536 ≡ r.gpr 0 / 65536) × (s.gpr 2 / 65536 ≡ r.gpr 2 / 65536)
SameUpper double r s = Unit

pub record SameRest (w : Width) (r s : Registers) : Type 0 where
  pub others : s ≡ record r { gpr = s.gpr }
  pub first : s.gpr 1 ≡ r.gpr 1
  pub above : (i : ℕ) → s.gpr (i + 3) ≡ r.gpr (i + 3)
  pub upper : SameUpper w r s

low_value : (g v : ℕ) → v < 256 → bit_or (bit_and g (not32 0xFF)) v ≡ g / 256 % 16777216 * 256 + v
low_value g v h =
    ap (λ (t : ℕ). bit_or t v)
      (bit_and_shift 8 0xFFFFFF g
        ∙ ap (λ (t : ℕ). t * 256) (bit_and_mask 24 0xFFFFFF (g / 256) (omega arith)))
    ∙ bit_or_sum 8 (g / 256 % 16777216) v h

high_value :
    (g v : ℕ)
    → v < 256
    → bit_or (bit_and g (not32 0xFF00)) (u32 (v * 256))
      ≡ g / 65536 % 65536 * 65536 + v * 256 + g % 256
high_value g v h =
    let twice : g / 256 / 256 ≡ g / 65536 = omega arith in
    let upper : bit_and (g / 256) 0xFFFF00 ≡ g / 65536 % 65536 * 256 = omega (
      arith,
      bit_and_shift 8 0xFFFF (g / 256),
      bit_and_mask 16 0xFFFF (g / 256 / 256) (omega arith),
      twice,
    ) in
    let kept : bit_and g (not32 0xFF00) ≡ g / 65536 % 65536 * 65536 + g % 256 =
      omega (arith, bit_and_ones 8 0xFFFF00 255 g (omega arith), upper) in
    let hi = g / 65536 % 65536 in
    let part : (hi * 65536 + g % 256) / 256 ≡ hi * 256 = omega arith in
    let whole : u32 (v * 256) ≡ v * 2 ^ 8 = omega arith in
    rw (kept, whole)
      (omega (
        arith,
        bit_or_shift 8 v (hi * 65536 + g % 256),
        ap (λ (t : ℕ). bit_or t v) part ∙ bit_or_sum 8 hi v h,
      ))

word_value : (g v : ℕ) → v < 65536 → bit_or (bit_and g 0xFFFF0000) v ≡ g / 65536 % 65536 * 65536 + v
word_value g v h =
    ap (λ (t : ℕ). bit_or t v)
      (bit_and_shift 16 0xFFFF g
        ∙ ap (λ (t : ℕ). t * 65536) (bit_and_mask 16 0xFFFF (g / 65536) (omega arith)))
    ∙ bit_or_sum 16 (g / 65536 % 65536) v h

pub dividend_of_lem :
    (w : Width) (r : Registers) → IsWide r → dividend_of w r ≡ high w r * modulus w + low w r
unfolding dividend_of reg16
dividend_of_lem byte r h = omega arith
dividend_of_lem word r h = bit_or_sum 16 (r.gpr 2 % 65536) (r.gpr 0 % 65536) (omega arith)
dividend_of_lem double r h = bit_or_sum 32 (r.gpr 2) (r.gpr 0) h.0

not_first : (i : ℕ) → (i + 3 == 0) ≡ false
not_first i = ground arith

not_second : (i : ℕ) → (i + 3 == 2) ≡ false
not_second i = ground arith

pub put_quotient_lem :
    (w : Width) (q rem : ℕ) (r : Registers)
    → IsWide r
    → q < modulus w
    → rem < modulus w
    → (low w (put_quotient w q rem r) ≡ q)
      × (high w (put_quotient w q rem r) ≡ rem)
      × SameRest w r (put_quotient w q rem r)
unfolding put_quotient set_reg8 set_reg16 test
put_quotient_lem byte q rem r h hq hr =
    let a = bit_or (bit_and (r.gpr 0) (not32 0xFF)) q in
    let e = low_value (r.gpr 0) q hq in
    let f = high_value a rem hr in
    (
      omega (arith, e, f),
      omega (arith, e, f),
      record {
        others = refl;
        first = refl;
        above = λ i. rw (not_first i) refl;
        upper = (omega (arith, e, f, h.0), refl);
      },
    )
put_quotient_lem word q rem r h hq hr =
    let e = word_value (r.gpr 0) q hq in
    let f = word_value (r.gpr 2) rem hr in
    (
      omega (arith, e),
      omega (arith, f),
      record {
        others = refl;
        first = refl;
        above = λ i. rw (not_first i, not_second i) refl;
        upper = (omega (arith, e, h.0), omega (arith, f, h.1));
      },
    )
put_quotient_lem double q rem r h hq hr = (
  refl,
  refl,
  record {
    others = refl;
    first = refl;
    above = λ i. rw (not_first i, not_second i) refl;
    upper = tt;
  },
)
