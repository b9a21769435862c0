-- ===== src/I386/Bcd/Sums.antt =====
-- The decimal adjustments of the 386 after an addition or a subtraction of packed decimals.
use remu.Prelude.{
  test, ℕ, ◌+◌, ◌-◌, ◌*◌, ◌/◌, ◌%◌, ◌<◌, ◌≡◌, refl, arith, ap, subst, sym, ◌∙◌, Bool, true, false,
  ◌||◌, ltb, leb, if◌then◌else◌, of_bool, of_bool-lt, u8, sub8, bit_and, bit_or,
}
use remu.Prelude.Masks.{bit_and-0x0f}
use remu.Prelude.Bits.{bit_or_sum, bit_and_mask, bit_and_shift}
use remu.X86.Bcd.Sums.{IsPacked, decimal}
use remu.I386.EFlags.{EFlags, set_szp}
use remu.I386.Registers.{Registers, reg8, set_reg8}
use remu.I386.Width.{byte}
use remu.I386.Alu.{adc, sbb}
use remu.I386.Alu.Carries.{IsSum, IsDifference, adc_exact, sbb_exact}
use remu.I386.Bcd.{low_adjust, high_adjust, finish, daa, das}

packed-lt : (v : ℕ) → IsPacked v → v < 256
packed-lt v (h, l) = omega arith

-- A byte put in `AL` is there.
reg8-finish : (al : ℕ) (f : EFlags) (r : Registers) → al < 256 → reg8 0 (finish al f r) ≡ al
unfolding finish reg8 set_reg8 test
reg8-finish al f r h =
    let high : bit_and (r.gpr 0) 0xFFFFFF00 ≡ r.gpr 0 / 256 % 16777216 * 256 =
      bit_and_shift 8 0xFFFFFF (r.gpr 0)
      ∙ ap (λ (t : ℕ). t * 256) (bit_and_mask 24 0xFFFFFF (r.gpr 0 / 256) (omega arith)) in
    ap (λ (t : ℕ). u8 (bit_or t al)) high
    ∙ ap u8 (bit_or_sum 8 (r.gpr 0 / 256 % 16777216) al h)
    ∙ omega arith

-- The adjusted byte, as numbers.
unfoldable daa_low : ℕ → Bool → Bool → ℕ
daa_low v af cf =
    let first = if ltb 9 (v % 16) || af then (v + 6) % 256 else v in
    if ltb 0x99 v || cf then (first + 0x60) % 256 else first

daa_digits :
    (a b c v : ℕ) (cf : Bool)
    → IsPacked a
    → IsPacked b
    → c < 2
    → v < 256
    → v + 256 * of_bool cf ≡ a + b + c
    → IsPacked (daa_low v (leb 16 (a % 16 + b % 16 + c)) cf)
      × decimal (daa_low v (leb 16 (a % 16 + b % 16 + c)) cf) + 100 * of_bool (ltb 0x99 v || cf)
        ≡ decimal a + decimal b + c
unfolding daa_low
daa_digits a b c v cf (ah, al) (bh, bl) hc hv e = (ground arith, ground arith)

unfoldable das_low : ℕ → Bool → Bool → ℕ
das_low v af cf =
    let first = if ltb 9 (v % 16) || af then (v + 256 - 6) % 256 else v in
    if ltb 0x99 v || cf then (first + 256 - 0x60) % 256 else first

unfoldable das_borrow : ℕ → Bool → Bool → Bool
das_borrow v af cf =
    if ltb 0x99 v || cf then true else (if ltb 9 (v % 16) || af then cf || ltb v 6 else false)

das_digits :
    (a b c v : ℕ) (cf : Bool)
    → IsPacked a
    → IsPacked b
    → c < 2
    → v < 256
    → v + b + c ≡ a + 256 * of_bool cf
    → IsPacked (das_low v (ltb (a % 16) (b % 16 + c)) cf)
      × decimal (das_low v (ltb (a % 16) (b % 16 + c)) cf) + decimal b + c
        ≡ decimal a + 100 * of_bool (das_borrow v (ltb (a % 16) (b % 16 + c)) cf)
unfolding das_low das_borrow
das_digits a b c v cf (ah, al) (bh, bl) hc hv e = (ground arith, ground arith)

daa_low-lt : (v : ℕ) (af cf : Bool) → v < 256 → daa_low v af cf < 256
unfolding daa_low
daa_low-lt v af cf h = ground arith

das_low-lt : (v : ℕ) (af cf : Bool) → v < 256 → das_low v af cf < 256
unfolding das_low
das_low-lt v af cf h = ground arith

finished : (x y : ℕ) (f : EFlags) (r : Registers) → x ≡ y → y < 256 → reg8 0 (finish x f r) ≡ y
finished x y f r e h = reg8-finish x f r (subst (λ v. v < 256) (sym e) h) ∙ e

reg8-lt : (i : ℕ) (r : Registers) → reg8 i r < 256
unfolding reg8
reg8-lt i r = ground arith

daa_lem :
    (r : Registers)
    → (reg8 0 (daa r) ≡ daa_low (reg8 0 r) r.eflags.af r.eflags.cf)
      × ((daa r).eflags.cf ≡ (ltb 0x99 (reg8 0 r) || r.eflags.cf))
unfolding daa daa_low finish set_szp set_reg8
daa_lem r =
    let v = reg8 0 r in
    let corrected : ℕ → ℕ = λ n.
      let first = if ltb 9 n || r.eflags.af then u8 (v + 6) else v in
      if high_adjust v r.eflags then u8 (first + 0x60) else first in
    let adjusted : EFlags = record (r.eflags) {
      af = low_adjust v r.eflags;
      cf = high_adjust v r.eflags;
    } in
    (
      finished (corrected (bit_and v 0xF)) (corrected (v % 16)) adjusted r
          (ap corrected (bit_and-0x0f v)) (daa_low-lt v r.eflags.af r.eflags.cf (reg8-lt 0 r)),
      refl,
    )

das_lem :
    (r : Registers)
    → (reg8 0 (das r) ≡ das_low (reg8 0 r) r.eflags.af r.eflags.cf)
      × ((das r).eflags.cf ≡ das_borrow (reg8 0 r) r.eflags.af r.eflags.cf)
unfolding das das_low das_borrow finish set_szp set_reg8
das_lem r =
    let v = reg8 0 r in
    let corrected : ℕ → ℕ = λ n.
      let first = if ltb 9 n || r.eflags.af then sub8 v 6 else v in
      if high_adjust v r.eflags then sub8 first 0x60 else first in
    let borrow : ℕ → Bool = λ n.
      if high_adjust v r.eflags
      then true
      else (if ltb 9 n || r.eflags.af then r.eflags.cf || ltb v 6 else false) in
    let adjusted : EFlags = record (r.eflags) {
      af = low_adjust v r.eflags;
      cf = borrow (bit_and v 0xF);
    } in
    (
      finished (corrected (bit_and v 0xF)) (corrected (v % 16)) adjusted r
          (ap corrected (bit_and-0x0f v)) (das_low-lt v r.eflags.af r.eflags.cf (reg8-lt 0 r)),
      ap borrow (bit_and-0x0f v),
    )

-- `DAA` of the 386 after `ADC` of packed decimals `a` and `b`: AL holds the packed decimal sum with
-- the carry, and the carry flag is its hundred.
pub daa-decimal_sum :
    (a b : ℕ) (f : EFlags) (r : Registers)
    → IsPacked a
    → IsPacked b
    → (reg8 0 r, r.eflags) ≡ adc byte a b f
    → IsPacked (reg8 0 (daa r))
      × decimal (reg8 0 (daa r)) + 100 * of_bool (daa r).eflags.cf
        ≡ decimal a + decimal b + of_bool f.cf
daa-decimal_sum a b f r pa pb e =
    let sum =
      subst (IsSum byte a b (of_bool f.cf)) (sym e)
        (adc_exact byte a b f (packed-lt a pa) (packed-lt b pb)) in
    let (low, carry) = daa_lem r in
    let v = reg8 0 r in
    let Sums : ℕ → Bool → Type 0 =
      λ v k. IsPacked v × decimal v + 100 * of_bool k ≡ decimal a + decimal b + of_bool f.cf in
    let digits = daa_digits a b (of_bool f.cf) v r.eflags.cf pa pb (of_bool-lt f.cf) sum.0 sum.1 in
    let flagged =
      subst (λ k. Sums (daa_low v k r.eflags.cf) (ltb 0x99 v || r.eflags.cf)) (sym sum.4) digits in
    subst (λ v. Sums v (daa r).eflags.cf) (sym low)
      (subst (Sums (daa_low v r.eflags.af r.eflags.cf)) (sym carry) flagged)

-- `DAS` of the 386 after `SBB` of packed decimals: AL holds the packed decimal difference, and the
-- carry flag is the hundred that was borrowed.
pub das-decimal_difference :
    (a b : ℕ) (f : EFlags) (r : Registers)
    → IsPacked a
    → IsPacked b
    → (reg8 0 r, r.eflags) ≡ sbb byte a b f
    → IsPacked (reg8 0 (das r))
      × decimal (reg8 0 (das r)) + decimal b + of_bool f.cf
        ≡ decimal a + 100 * of_bool (das r).eflags.cf
das-decimal_difference a b f r pa pb e =
    let difference =
      subst (IsDifference byte a b (of_bool f.cf)) (sym e)
        (sbb_exact byte a b f (packed-lt a pa) (packed-lt b pb)) in
    let (low, carry) = das_lem r in
    let v = reg8 0 r in
    let Differences : ℕ → Bool → Type 0 =
      λ v k. IsPacked v × decimal v + decimal b + of_bool f.cf ≡ decimal a + 100 * of_bool k in
    let digits =
      das_digits a b (of_bool f.cf) v r.eflags.cf pa pb (of_bool-lt f.cf) difference.0
        difference.1 in
    let flagged =
      subst (λ k. Differences (das_low v k r.eflags.cf) (das_borrow v k r.eflags.cf))
        (sym difference.4) digits in
    subst (λ v. Differences v (das r).eflags.cf) (sym low)
      (subst (Differences (das_low v r.eflags.af r.eflags.cf)) (sym carry) flagged)
