-- ===== src/X86/Alu/Carries.antt =====
-- The additions and subtractions of the arithmetic unit: the exact result, and each flag by what it
-- says of the operands.
use remu.Prelude.{
  ℕ, ◌+◌, ◌-◌, ◌*◌, ◌%◌, ◌<◌, ◌≡◌, refl, arith, subst, ◌∙◌, false, not, ltb, leb, ◌==◌, of_bool,
  of_bool-lt, test,
}
use remu.Prelude.Masks.{test-0x80, test-0x8000}
use remu.X86.Registers.{Flags}
use remu.X86.Width.{Width, byte, wide, modulus, sign, wrap, set_szp}
use remu.X86.Alu.{aux_carry, add_overflow, sub_overflow, add, adc, sub, sbb}
use remu.X86.Alu.Sums.{
  sum_fits, difference_fits, sum_aux_byte, sum_aux_wide, sum_overflow8, sum_overflow16,
  difference_aux_byte, difference_aux_wide, difference_overflow8, difference_overflow16,
}

-- What the sum `r` of `a`, `b` and the carry `c` says, with the flags `g`: the exact sum with the
-- carry above it, the zero and sign flags of the result, the carry out of the low four digits, and
-- whether the signed sum fits the width.
abbrev pub IsSum : Width → ℕ → ℕ → ℕ → ℕ × Flags → Type 0
IsSum w a b c (r, g) =
    (r < modulus w)
    × (r + modulus w * of_bool g.cf ≡ a + b + c)
    × (g.zf ≡ (r == 0))
    × (g.sf ≡ leb (sign w) r)
    × (g.af ≡ leb 16 (a % 16 + b % 16 + c))
    × (g.oflag ≡ not (sum_fits w a b c))

abbrev pub IsDifference : Width → ℕ → ℕ → ℕ → ℕ × Flags → Type 0
IsDifference w a b c (r, g) =
    (r < modulus w)
    × (r + b + c ≡ a + modulus w * of_bool g.cf)
    × (g.zf ≡ (r == 0))
    × (g.sf ≡ leb (sign w) r)
    × (g.af ≡ ltb (a % 16) (b % 16 + c))
    × (g.oflag ≡ not (difference_fits w a b c))

test_sign_byte : (v : ℕ) → v < 256 → test v 0x80 ≡ leb 128 v
test_sign_byte v h = test-0x80 v ∙ ground arith

test_sign_wide : (v : ℕ) → v < 65536 → test v 0x8000 ≡ leb 32768 v
test_sign_wide v h = test-0x8000 v ∙ ground arith

-- The result `r` of an addition with the flags it sets, as `add` and `adc` leave them.
unfoldable summed : Width → ℕ → ℕ → ℕ → ℕ → Flags → ℕ × Flags
summed w a b c r f = (
  r,
  set_szp w r (record f {
    cf = ltb (modulus w - 1) (a + b + c);
    af = aux_carry a b r;
    oflag = add_overflow w a b r;
  }),
)

IsSum-byte :
    (a b c : ℕ) (f : Flags)
    → a < 256
    → b < 256
    → c < 2
    → IsSum byte a b c (summed byte a b c ((a + b + c) % 256) f)
unfolding summed set_szp
IsSum-byte a b c f ha hb hc = (
  omega arith,
  ground arith,
  refl,
  test_sign_byte _ (omega arith),
  sum_aux_byte a b c hc,
  sum_overflow8 a b c ha hb hc,
)

IsSum-wide :
    (a b c : ℕ) (f : Flags)
    → a < 65536
    → b < 65536
    → c < 2
    → IsSum wide a b c (summed wide a b c ((a + b + c) % 65536) f)
unfolding summed set_szp
IsSum-wide a b c f ha hb hc = (
  omega arith,
  ground arith,
  refl,
  test_sign_wide _ (omega arith),
  sum_aux_wide a b c hc,
  sum_overflow16 a b c ha hb hc,
)

unfoldable subtracted : Width → ℕ → ℕ → ℕ → ℕ → Flags → ℕ × Flags
subtracted w a b c r f = (
  r,
  set_szp w r (record f { cf = ltb a (b + c); af = aux_carry a b r; oflag = sub_overflow w a b r }),
)

IsDifference-byte :
    (a b c : ℕ) (f : Flags)
    → a < 256
    → b < 256
    → c < 2
    → IsDifference byte a b c (subtracted byte a b c ((a + 256 - b + 256 - c) % 256) f)
unfolding subtracted set_szp
IsDifference-byte a b c f ha hb hc = (
  omega arith,
  ground arith,
  refl,
  test_sign_byte _ (omega arith),
  difference_aux_byte a b c hc hb,
  difference_overflow8 a b c ha hb hc,
)

IsDifference-wide :
    (a b c : ℕ) (f : Flags)
    → a < 65536
    → b < 65536
    → c < 2
    → IsDifference wide a b c (subtracted wide a b c ((a + 65536 - b + 65536 - c) % 65536) f)
unfolding subtracted set_szp
IsDifference-wide a b c f ha hb hc = (
  omega arith,
  ground arith,
  refl,
  test_sign_wide _ (omega arith),
  difference_aux_wide a b c hc hb,
  difference_overflow16 a b c ha hb hc,
)

-- `ADC` and the carry flag, for operands of the width: the result and the new carry are the exact sum
-- of the operands and the old carry, the zero and sign flags are those of the result, the auxiliary
-- carry is that out of the low four digits, and overflow says that the signed sum does not fit the
-- width.
pub adc-IsSum :
    (w : Width) (a b : ℕ) (f : Flags)
    → a < modulus w
    → b < modulus w
    → IsSum w a b (of_bool f.cf) (adc w a b f)
unfolding adc summed
adc-IsSum byte a b f ha hb =
    subst (λ r. IsSum byte a b (of_bool f.cf) (summed byte a b (of_bool f.cf) r f)) (omega arith)
      (IsSum-byte a b (of_bool f.cf) f ha hb (of_bool-lt f.cf))
adc-IsSum wide a b f ha hb =
    subst (λ r. IsSum wide a b (of_bool f.cf) (summed wide a b (of_bool f.cf) r f)) (omega arith)
      (IsSum-wide a b (of_bool f.cf) f ha hb (of_bool-lt f.cf))

-- `SBB` and the carry flag, for operands of the width: the result and the new carry, as a borrow from
-- above the result, are the exact difference of the operands less the old carry. The zero and sign
-- flags are those of the result, the auxiliary carry is the borrow into the low four digits, and
-- overflow says that the signed difference does not fit the width.
pub sbb-IsDifference :
    (w : Width) (a b : ℕ) (f : Flags)
    → a < modulus w
    → b < modulus w
    → IsDifference w a b (of_bool f.cf) (sbb w a b f)
unfolding sbb subtracted
sbb-IsDifference byte a b f ha hb =
    subst (λ r. IsDifference byte a b (of_bool f.cf) (subtracted byte a b (of_bool f.cf) r f))
      (omega (arith, of_bool-lt f.cf))
      (IsDifference-byte a b (of_bool f.cf) f ha hb (of_bool-lt f.cf))
sbb-IsDifference wide a b f ha hb =
    subst (λ r. IsDifference wide a b (of_bool f.cf) (subtracted wide a b (of_bool f.cf) r f))
      (omega (arith, of_bool-lt f.cf))
      (IsDifference-wide a b (of_bool f.cf) f ha hb (of_bool-lt f.cf))

-- `ADD` is `ADC` with the carry flag clear.
pub add-adc : (w : Width) (a b : ℕ) (f : Flags) → add w a b f ≡ adc w a b (record f { cf = false })
unfolding adc add
add-adc w a b f =
    let e = added w (a + b) in
    let s : a + b ≡ a + b + 0 = omega arith in
    λ i. (
      e i,
      set_szp w (e i) (record f {
        cf = ltb (modulus w - 1) (s i);
        af = aux_carry a b (e i);
        oflag = add_overflow w a b (e i);
      }),
    )
  where
    added : (w : Width) (v : ℕ) → wrap w v ≡ wrap w (wrap w v + 0)
    added byte v = omega arith
    added wide v = omega arith

-- `SUB` is `SBB` with the carry flag clear.
pub sub-sbb : (w : Width) (a b : ℕ) (f : Flags) → sub w a b f ≡ sbb w a b (record f { cf = false })
unfolding sbb sub
sub-sbb w a b f =
    let e = borrowed w (a + modulus w - b) in
    let s : b ≡ b + 0 = omega arith in
    λ i. (
      e i,
      set_szp w (e i) (record f {
        cf = ltb a (s i);
        af = aux_carry a b (e i);
        oflag = sub_overflow w a b (e i);
      }),
    )
  where
    borrowed : (w : Width) (v : ℕ) → wrap w v ≡ wrap w (wrap w v + modulus w - 0)
    borrowed byte v = omega arith
    borrowed wide v = omega arith
