-- ===== src/I386/Div/Exact.antt =====
-- The loop of the signed divisions, where the quotient of the magnitudes fits the width.
use remu.Prelude.{
  ℕ, ◌+◌, ◌*◌, ◌/◌, ◌%◌, ◌^◌, ◌≤◌, ◌<◌, ◌≡◌, refl, arith, ap, ap₂, sym, ◌∙◌, false, none, xor, ◌==◌,
  if◌then◌else◌,
}
use native.Mathlib.Nat.{mul-add-div_right, div-eq_of_lt, mul-add-mod_self_right, mod-eq_of_lt}
use remu.I386.Registers.{Registers}
use remu.I386.Width.{Width, byte, word, double, modulus, sign, bit_count, wrap}
use remu.I386.Div.{
  Lossy, idiv_lossy, dividend_of, wide_sign, wide_negative, wide_magnitude, is_negative, magnitude,
  signed_result, signed_divide,
}
use remu.I386.Div.Lossy.{rounds_lem}

-- A quotient and a remainder are those of the division.
division_unique : (q r d n : ℕ) → r < d → q * d + r ≡ n → (n / d ≡ q) × (n % d ≡ r)
division_unique q r d n h e = (
  ap (λ (t : ℕ). t / d) (sym e)
      ∙ mul-add-div_right (omega arith) q r
      ∙ omega (arith, div-eq_of_lt h),
  ap (λ (t : ℕ). t % d) (sym e) ∙ mul-add-mod_self_right q d r ∙ mod-eq_of_lt h,
)

-- The halves of a dividend.
halves :
    (w : Width) (n d : ℕ)
    → n / modulus w < d
    → d ≤ sign w
    → (wrap w (n / modulus w) < d)
      × (wrap w (n / modulus w) * 2 ^ bit_count w + wrap w n % 2 ^ bit_count w ≡ n)
halves byte n d h k = (omega arith, omega arith)
halves word n d h k = (omega arith, omega arith)
halves double n d h k = (omega arith, omega arith)

-- For a divisor up to half the range, and a quotient that fits the width: the loop of `idiv_lossy`
-- gives the quotient and the remainder.
pub idiv_lossy_exact :
    (w : Width) (dividend divisor : ℕ)
    → divisor ≤ sign w
    → dividend / modulus w < divisor
    → idiv_lossy w dividend divisor ≡ (dividend / divisor, dividend % divisor)
unfolding idiv_lossy
idiv_lossy_exact w dividend divisor bound fits =
    let start : Lossy = (wrap w (dividend / modulus w), 0) in
    let half = halves w dividend divisor fits bound in
    let (less, sum) =
      rounds_lem w (wrap w dividend) divisor bound (bit_count w) start
        (record { remainder = half.0; high = 0; quotient = omega arith }) in
    let (q, r) = division_unique _ _ divisor dividend less (sum ∙ omega (arith, half.1)) in
    ap₂ (λ (x y : ℕ). (x, y)) (sym q) (sym r)

pub magnitude-le : (w : Width) (v : ℕ) → v < modulus w → magnitude w v ≤ sign w
magnitude-le byte v h = ground arith
magnitude-le word v h = ground arith
magnitude-le double v h = ground arith

-- A divisor of a magnitude is not zero.
nonzero : (w : Width) (v n : ℕ) → n < magnitude w v → (v == 0) ≡ false
nonzero byte v n h = ground arith
nonzero word v n h = ground arith
nonzero double v n h = ground arith

-- The loop in the signed division, where the quotient of the magnitudes fits the width.
pub signed_divide_lem :
    (w : Width) (v : ℕ) (r : Registers)
    → v < modulus w
    → wide_magnitude w (dividend_of w r) / modulus w < magnitude w v
    → signed_divide w v r ≡ (
        if dividend_of w r == wide_sign w
        then none
        else signed_result w
            (xor (wide_negative w (dividend_of w r)) (is_negative w v))
            (wide_negative w (dividend_of w r))
            (
              wide_magnitude w (dividend_of w r) / magnitude w v,
              wide_magnitude w (dividend_of w r) % magnitude w v,
            )
            r)
unfolding signed_divide
signed_divide_lem w v r h fits =
    let core =
      idiv_lossy_exact w (wide_magnitude w (dividend_of w r)) (magnitude w v) (magnitude-le w v h)
        fits in
    rw (nonzero w v _ fits, core) refl
