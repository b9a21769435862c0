-- ===== src/X86/Bcd/Sums.antt =====
-- The decimal adjustments after an addition or a subtraction of packed decimals.
use remu.Prelude.{
  ℕ, ◌+◌, ◌-◌, ◌*◌, ◌/◌, ◌%◌, ◌<◌, ◌≡◌, refl, arith, ap, subst, sym, ◌∙◌, Bool, ◌||◌, ltb, leb,
  if◌then◌else◌, of_bool, of_bool-lt, u8, sub8, bit_and, bit_or,
}
use remu.Prelude.Masks.{bit_and-0x0f, bit_and-0xff00}
use remu.Prelude.Bits.{bit_or_sum}
use remu.X86.Registers.{Flags, Registers}
use remu.X86.Width.{byte, set_szp}
use remu.X86.Alu.{adc, sbb}
use remu.X86.Alu.Carries.{IsSum, IsDifference, adc-IsSum, sbb-IsDifference}
use remu.X86.Bcd.{with_al, high_adjust, daa, das}

-- Two decimal digits in one byte, and the number they write.
abbrev pub IsPacked : ℕ → Type 0
IsPacked v = (v / 16 < 10) × (v % 16 < 10)

abbrev pub decimal : ℕ → ℕ
decimal v = v / 16 * 10 + v % 16

packed-lt : (v : ℕ) → IsPacked v → v < 256
packed-lt v (h, l) = omega arith

with_al_low : (ax al : ℕ) → al < 256 → u8 (with_al ax al) ≡ al
with_al_low ax al h =
    omega
      (arith, ap (λ (x : ℕ). bit_or x al) (bit_and-0xff00 ax), bit_or_sum 8 (ax / 256 % 256) al h)

-- The adjusted low half of AX, as numbers.
unfoldable daa_low : ℕ → Bool → Bool → ℕ
daa_low v af cf =
    let first = if ltb 9 (v % 16) || af then (v + 6) % 256 else v in
    if ltb (if af then 0x9F else 0x99) v || cf then (first + 0x60) % 256 else first

unfoldable daa_carry : ℕ → Bool → Bool → Bool
daa_carry v af cf = ltb (if af then 0x9F else 0x99) v || cf

daa_digits :
    (a b c v : ℕ) (cf : Bool)
    → IsPacked a
    → IsPacked b
    → c < 2
    → v < 256
    → v + 256 * of_bool cf ≡ a + b + c
    → IsPacked (daa_low v (leb 16 (a % 16 + b % 16 + c)) cf)
      × decimal (daa_low v (leb 16 (a % 16 + b % 16 + c)) cf)
          + 100 * of_bool (daa_carry v (leb 16 (a % 16 + b % 16 + c)) cf)
        ≡ decimal a + decimal b + c
unfolding daa_low daa_carry
daa_digits a b c v cf (ah, al) (bh, bl) hc hv e = (ground arith, ground arith)

unfoldable das_low : ℕ → Bool → Bool → ℕ
das_low v af cf =
    let first = if ltb 9 (v % 16) || af then (v + 256 - 6) % 256 else v in
    if ltb (if af then 0x9F else 0x99) v || cf then (first + 256 - 0x60) % 256 else first

das_digits :
    (a b c v : ℕ) (cf : Bool)
    → IsPacked a
    → IsPacked b
    → c < 2
    → v < 256
    → v + b + c ≡ a + 256 * of_bool cf
    → IsPacked (das_low v (ltb (a % 16) (b % 16 + c)) cf)
      × decimal (das_low v (ltb (a % 16) (b % 16 + c)) cf) + decimal b + c
        ≡ decimal a + 100 * of_bool (daa_carry v (ltb (a % 16) (b % 16 + c)) cf)
unfolding das_low daa_carry
das_digits a b c v cf (ah, al) (bh, bl) hc hv e = (ground arith, ground arith)

daa_low-lt : (v : ℕ) (af cf : Bool) → v < 256 → daa_low v af cf < 256
unfolding daa_low
daa_low-lt v af cf h = ground arith

das_low-lt : (v : ℕ) (af cf : Bool) → v < 256 → das_low v af cf < 256
unfolding das_low
das_low-lt v af cf h = ground arith

-- The low half of AX after an adjustment that computes `x`, known to be `y`.
adjusted_low : (ax x y : ℕ) → x ≡ y → y < 256 → u8 (with_al ax x) ≡ y
adjusted_low ax x y e h = with_al_low ax x (subst (λ v. v < 256) (sym e) h) ∙ e

daa_lem :
    (r : Registers)
    → (u8 (daa r).ax ≡ daa_low (u8 r.ax) r.flags.af r.flags.cf)
      × ((daa r).flags.cf ≡ daa_carry (u8 r.ax) r.flags.af r.flags.cf)
unfolding daa daa_low daa_carry set_szp
daa_lem r =
    let v = u8 r.ax in
    let corrected : ℕ → ℕ = λ n.
      let first = if ltb 9 n || r.flags.af then u8 (v + 6) else v in
      if high_adjust v r.flags then u8 (first + 0x60) else first in
    (
      adjusted_low r.ax (corrected (bit_and v 0xF)) (corrected (v % 16))
          (ap corrected (bit_and-0x0f v)) (daa_low-lt v r.flags.af r.flags.cf (omega arith)),
      refl,
    )

das_lem :
    (r : Registers)
    → (u8 (das r).ax ≡ das_low (u8 r.ax) r.flags.af r.flags.cf)
      × ((das r).flags.cf ≡ daa_carry (u8 r.ax) r.flags.af r.flags.cf)
unfolding das das_low daa_carry set_szp
das_lem r =
    let v = u8 r.ax in
    let corrected : ℕ → ℕ = λ n.
      let first = if ltb 9 n || r.flags.af then sub8 v 6 else v in
      if high_adjust v r.flags then sub8 first 0x60 else first in
    (
      adjusted_low r.ax (corrected (bit_and v 0xF)) (corrected (v % 16))
          (ap corrected (bit_and-0x0f v)) (das_low-lt v r.flags.af r.flags.cf (omega arith)),
      refl,
    )

-- `DAA` after `ADC` of packed decimals `a` and `b`: AL holds the packed
-- decimal sum with the carry, and the carry flag is its hundred.
pub daa-adc :
    (a b : ℕ) (f : Flags) (r : Registers)
    → IsPacked a
    → IsPacked b
    → (u8 r.ax, r.flags) ≡ adc byte a b f
    → IsPacked (u8 (daa r).ax)
      × decimal (u8 (daa r).ax) + 100 * of_bool (daa r).flags.cf
        ≡ decimal a + decimal b + of_bool f.cf
daa-adc a b f r pa pb e =
    let sum =
      subst (IsSum byte a b (of_bool f.cf)) (sym e)
        (adc-IsSum byte a b f (packed-lt a pa) (packed-lt b pb)) in
    let (low, carry) = daa_lem r in
    let Sums : ℕ → Bool → Type 0 =
      λ v k. IsPacked v × decimal v + 100 * of_bool k ≡ decimal a + decimal b + of_bool f.cf in
    let digits =
      daa_digits a b (of_bool f.cf) (u8 r.ax) r.flags.cf pa pb (of_bool-lt f.cf) sum.0 sum.1 in
    let flagged =
      subst (λ k. Sums (daa_low (u8 r.ax) k r.flags.cf) (daa_carry (u8 r.ax) k r.flags.cf))
        (sym sum.4) digits in
    subst (λ v. Sums v (daa r).flags.cf) (sym low)
      (subst (Sums (daa_low (u8 r.ax) r.flags.af r.flags.cf)) (sym carry) flagged)

-- `DAS` after `SBB` of packed decimals: AL holds the packed decimal
-- difference, and the carry flag is the hundred that was borrowed.
pub das-sbb :
    (a b : ℕ) (f : Flags) (r : Registers)
    → IsPacked a
    → IsPacked b
    → (u8 r.ax, r.flags) ≡ sbb byte a b f
    → IsPacked (u8 (das r).ax)
      × decimal (u8 (das r).ax) + decimal b + of_bool f.cf
        ≡ decimal a + 100 * of_bool (das r).flags.cf
das-sbb a b f r pa pb e =
    let difference =
      subst (IsDifference byte a b (of_bool f.cf)) (sym e)
        (sbb-IsDifference byte a b f (packed-lt a pa) (packed-lt b pb)) in
    let (low, carry) = das_lem r in
    let Differences : ℕ → Bool → Type 0 =
      λ v k. IsPacked v × decimal v + decimal b + of_bool f.cf ≡ decimal a + 100 * of_bool k in
    let digits =
      das_digits a b (of_bool f.cf) (u8 r.ax) r.flags.cf pa pb (of_bool-lt f.cf) difference.0
        difference.1 in
    let flagged =
      subst (λ k. Differences (das_low (u8 r.ax) k r.flags.cf) (daa_carry (u8 r.ax) k r.flags.cf))
        (sym difference.4) digits in
    subst (λ v. Differences v (das r).flags.cf) (sym low)
      (subst (Differences (das_low (u8 r.ax) r.flags.af r.flags.cf)) (sym carry) flagged)
