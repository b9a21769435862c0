-- ===== src/I386/Alu/Carries.antt =====
-- The additions and subtractions of the 386 at its three widths: the exact result, and each flag by
-- what it says of the operands.
use remu.Prelude.{
  ℕ, ◌+◌, ◌-◌, ◌*◌, ◌%◌, ◌<◌, ◌≡◌, refl, arith, subst, false, not, ltb, leb, ◌==◌, of_bool,
  of_bool-lt,
}
use remu.I386.EFlags.{EFlags, set_szp}
use remu.I386.Width.{Width, byte, word, double, modulus, sign, wrap}
use remu.I386.Alu.{aux_carry, add_overflow, sub_overflow, add, adc, sbb}
use remu.I386.Alu.Sums.{
  sum_fits, difference_fits, test-sign, sum_of, difference_of, sum_aux, difference_aux,
  sum_overflow, difference_overflow, wrap-lt,
}

abbrev pub IsSum : Width → ℕ → ℕ → ℕ → ℕ × EFlags → Type 0
IsSum w a b c (r, g) =
    (r < modulus w)
    × (r + modulus w * of_bool g.cf ≡ a + b + c)
    × (g.zf ≡ (r == 0))
    × (g.sf ≡ leb (sign w) r)
    × (g.af ≡ leb 16 (a % 16 + b % 16 + c))
    × (g.oflag ≡ not (sum_fits w a b c))

abbrev pub IsDifference : Width → ℕ → ℕ → ℕ → ℕ × EFlags → Type 0
IsDifference w a b c (r, g) =
    (r < modulus w)
    × (r + b + c ≡ a + modulus w * of_bool g.cf)
    × (g.zf ≡ (r == 0))
    × (g.sf ≡ leb (sign w) r)
    × (g.af ≡ ltb (a % 16) (b % 16 + c))
    × (g.oflag ≡ not (difference_fits w a b c))

-- The result `r` of an addition with the flags it sets, as `adc` leaves them.
unfoldable summed : Width → ℕ → ℕ → ℕ → ℕ → EFlags → ℕ × EFlags
summed w a b c r f = (
  r,
  set_szp (sign w) r (record f {
    cf = ltb (modulus w - 1) (a + b + c);
    af = aux_carry a b r;
    oflag = add_overflow w a b r;
  }),
)

unfoldable subtracted : Width → ℕ → ℕ → ℕ → ℕ → EFlags → ℕ × EFlags
subtracted w a b c r f = (
  r,
  set_szp (sign w) r
      (record f { cf = ltb a (b + c); af = aux_carry a b r; oflag = sub_overflow w a b r }),
)

-- The carry, and the borrow, as exact arithmetic.
sum_carry :
    (w : Width) (a b c : ℕ)
    → a < modulus w
    → b < modulus w
    → c < 2
    → sum_of w a b c + modulus w * of_bool (ltb (modulus w - 1) (a + b + c)) ≡ a + b + c
sum_carry byte a b c ha hb hc = ground arith
sum_carry word a b c ha hb hc = ground arith
sum_carry double a b c ha hb hc = ground arith

difference_borrow :
    (w : Width) (a b c : ℕ)
    → a < modulus w
    → b < modulus w
    → c < 2
    → difference_of w a b c + b + c ≡ a + modulus w * of_bool (ltb a (b + c))
difference_borrow byte a b c ha hb hc = ground arith
difference_borrow word a b c ha hb hc = ground arith
difference_borrow double a b c ha hb hc = ground arith

summed-IsSum :
    (w : Width) (a b c : ℕ) (f : EFlags)
    → a < modulus w
    → b < modulus w
    → c < 2
    → IsSum w a b c (summed w a b c (sum_of w a b c) f)
unfolding summed set_szp
summed-IsSum w a b c f ha hb hc = (
  wrap-lt w (a + b + c),
  sum_carry w a b c ha hb hc,
  refl,
  test-sign w (sum_of w a b c) (wrap-lt w (a + b + c)),
  sum_aux w a b c hc,
  sum_overflow w a b c ha hb hc,
)

subtracted-IsDifference :
    (w : Width) (a b c : ℕ) (f : EFlags)
    → a < modulus w
    → b < modulus w
    → c < 2
    → IsDifference w a b c (subtracted w a b c (difference_of w a b c) f)
unfolding subtracted set_szp
subtracted-IsDifference w a b c f ha hb hc = (
  wrap-lt w (a + modulus w - b + modulus w - c),
  difference_borrow w a b c ha hb hc,
  refl,
  test-sign w (difference_of w a b c) (wrap-lt w (a + modulus w - b + modulus w - c)),
  difference_aux w a b c hc hb,
  difference_overflow w a b c ha hb hc,
)

wrap_sum : (w : Width) (a b c : ℕ) → sum_of w a b c ≡ wrap w (wrap w (a + b) + c)
wrap_sum byte a b c = omega arith
wrap_sum word a b c = omega arith
wrap_sum double a b c = omega arith

wrap_difference :
    (w : Width) (a b c : ℕ)
    → b < modulus w
    → c < 2
    → difference_of w a b c ≡ wrap w (wrap w (a + modulus w - b) + modulus w - c)
wrap_difference byte a b c h k = omega arith
wrap_difference word a b c h k = omega arith
wrap_difference double a b c h k = omega arith

-- `ADC` of the 386 and its carry flag, at the widths of 8, 16 and 32 bits, for operands of the width:
-- the result and the new carry are the exact sum of the operands and the old carry, the zero and sign
-- flags are those of the result, the auxiliary carry is that out of the low four digits, and overflow
-- says that the signed sum does not fit the width.
pub adc_exact :
    (w : Width) (a b : ℕ) (f : EFlags)
    → a < modulus w
    → b < modulus w
    → IsSum w a b (of_bool f.cf) (adc w a b f)
unfolding adc summed
adc_exact w a b f ha hb =
    let c = of_bool f.cf in
    subst (λ (r : ℕ). IsSum w a b c (summed w a b c r f)) (wrap_sum w a b c)
      (summed-IsSum w a b c f ha hb (of_bool-lt f.cf))

-- `SBB` of the 386 and its carry flag, at the widths of 8, 16 and 32 bits, for operands of the width:
-- the result and the new carry, as a borrow from above the result, are the exact difference of the
-- operands less the old carry. The zero and sign flags are those of the result, the auxiliary carry is
-- the borrow into the low four digits, and overflow says that the signed difference does not fit.
pub sbb_exact :
    (w : Width) (a b : ℕ) (f : EFlags)
    → a < modulus w
    → b < modulus w
    → IsDifference w a b (of_bool f.cf) (sbb w a b f)
unfolding sbb subtracted
sbb_exact w a b f ha hb =
    let c = of_bool f.cf in
    subst (λ (r : ℕ). IsDifference w a b c (subtracted w a b c r f))
      (wrap_difference w a b c hb (of_bool-lt f.cf))
      (subtracted-IsDifference w a b c f ha hb (of_bool-lt f.cf))

-- `ADD` is `ADC` with the carry flag clear, for operands of the width.
pub add-adc :
    (w : Width) (a b : ℕ) (f : EFlags)
    → a < modulus w
    → b < modulus w
    → add w a b f ≡ adc w a b (record f { cf = false })
unfolding add adc
add-adc w a b f ha hb =
    let e = wrap_once w (a + b) in
    let k = carry w a b ha hb in
    λ i. (
      e i,
      set_szp (sign w) (e i)
          (record f { cf = k i; af = aux_carry a b (e i); oflag = add_overflow w a b (e i) }),
    )
  where
    wrap_once : (w : Width) (v : ℕ) → wrap w v ≡ wrap w (wrap w v + 0)
    wrap_once byte v = omega arith
    wrap_once word v = omega arith
    wrap_once double v = omega arith

    carry :
        (w : Width) (a b : ℕ)
        → a < modulus w
        → b < modulus w
        → ltb (wrap w (a + b)) a ≡ ltb (modulus w - 1) (a + b + 0)
    carry byte a b h k = ground arith
    carry word a b h k = ground arith
    carry double a b h k = ground arith
