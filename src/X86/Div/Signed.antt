-- ===== src/X86/Div/Signed.antt =====
-- The signed division, `IDIV`.
use remu.Prelude.{
  ℕ, ◌+◌, ◌-◌, ◌*◌, ◌/◌, ◌%◌, ◌<◌, ◌≡◌, refl, arith, ap, ◌∙◌, Bool, true, false, not, ◌&&◌, xor,
  Option, none, some, ltb, leb, ltb→lt, if◌then◌else◌, test, Bool-cases, inl, inr,
}
use remu.Prelude.Masks.{test-0x80, test-0x8000}
use remu.X86.Registers.{Flags}
use remu.X86.Width.{Width, byte, wide, modulus, sign, wrap}
use remu.X86.Div.{
  Operands, negate_dividend, negate_divisor, cord, negate, prediv, postdiv, after_cord, divide,
  complement,
}
use remu.X86.Div.Quotient.{cord_lem}
use remu.X86.Div.Unsigned.{quotient_lt, positive_lem, twice_complement}

-- Whether a word is negative, its magnitude, and that of a dividend of two words.
abbrev pub is_negative : Width → ℕ → Bool
is_negative w v = leb (sign w) v

abbrev pub magnitude : Width → ℕ → ℕ
magnitude w v = if is_negative w v then modulus w - v else v

abbrev pub magnitude_wide : Width → ℕ → ℕ → ℕ
magnitude_wide w hi lo =
    if is_negative w hi then modulus w * modulus w - (hi * modulus w + lo) else hi * modulus w + lo

-- The word of a number with that magnitude and sign.
abbrev pub with_sign : Width → Bool → ℕ → ℕ
with_sign w negative v = if negative then wrap w (modulus w - v) else v

test-sign : (w : Width) (v : ℕ) → v < modulus w → test v (sign w) ≡ is_negative w v
test-sign byte v h = test-0x80 v ∙ ground arith
test-sign wide v h = test-0x8000 v ∙ ground arith

dividend_positive : Width → Operands → Operands
dividend_positive w o = if not (is_negative w o.tmpa) then o else negate_dividend w o

negated : Width → Operands → Operands
negated w o =
    let p = dividend_positive w o in if is_negative w o.tmpb then negate_divisor w p else p

dividend_positive-tmpb : (w : Width) (o : Operands) → (dividend_positive w o).tmpb ≡ o.tmpb
unfolding dividend_positive
dividend_positive-tmpb w o = elim (Bool-cases (is_negative w o.tmpa)) [
  | inl e ↦ rw e refl
  | inr e ↦ rw e refl
]

neg_lem :
    (w : Width) (o : Operands) (x y : Bool)
    → (let p = if not x then o else negate_dividend w o in
        (if y then negate_divisor w p else p).neg)
      ≡ xor o.neg (xor x y)
neg_lem w o true true = ground arith
neg_lem w o true false = ground arith
neg_lem w o false true = ground arith
neg_lem w o false false = ground arith

negated_lem :
    (w : Width) (o : Operands)
    → o.tmpa < modulus w
    → o.tmpb < modulus w
    → o.tmpc < modulus w
    → let p = negated w o in
      (p.tmpa * modulus w + p.tmpc ≡ magnitude_wide w o.tmpa o.tmpc)
      × (p.tmpb ≡ magnitude w o.tmpb)
      × (p.tmpb < modulus w)
      × (p.tmpc < modulus w)
unfolding negated dividend_positive
negated_lem byte o ha hb hc = (ground arith, ground arith, ground arith, ground arith)
negated_lem wide o ha hb hc = (ground arith, ground arith, ground arith, ground arith)

negated-neg :
    (w : Width) (o : Operands)
    → (negated w o).neg ≡ xor o.neg (xor (is_negative w o.tmpa) (is_negative w o.tmpb))
unfolding negated dividend_positive
negated-neg w o = neg_lem w o (is_negative w o.tmpa) (is_negative w o.tmpb)

prediv-negated :
    (w : Width) (o : Operands) (f : Flags)
    → o.tmpa < modulus w
    → o.tmpb < modulus w
    → (prediv w o f).0 ≡ negated w o
unfolding prediv negate negated dividend_positive
prediv-negated w o f ha hb =
    let same = dividend_positive-tmpb w o in
    let p = dividend_positive w o in
    let first = test-sign w o.tmpa ha in
    let second : test p.tmpb (sign w) ≡ is_negative w o.tmpb =
      ap (λ (x : ℕ). test x (sign w)) same ∙ test-sign w o.tmpb hb in
    ap
      (λ (x : Bool).
        let q = if not x then o else negate_dividend w o in
        if test q.tmpb (sign w) then negate_divisor w q else q)
      first
    ∙ ap (λ (x : Bool). if x then negate_divisor w p else p) second

with_sign_sub : (w : Width) (v : ℕ) → wrap w (0 + modulus w - v) ≡ wrap w (modulus w - v)
with_sign_sub byte v = ap (wrap byte) (omega arith)
with_sign_sub wide v = ap (wrap wide) (omega arith)

postdiv_lem :
    (w : Width) (q r hi : ℕ) (neg carry : Bool) (f : Flags)
    → hi < modulus w
    → q < modulus w
    → (postdiv w r hi (modulus w - 1 - q) carry neg f).0
      ≡ (if carry then some (with_sign w (is_negative w hi) r, with_sign w neg q) else none)
unfolding postdiv
postdiv_lem w q r hi neg true f hh hq =
    let hi_sign = test-sign w hi hh in
    let sub = with_sign_sub w r in λ i. some (if hi_sign i then sub i else r, back neg i)
  where
    back :
        (n : Bool)
        → (if n then wrap w (modulus w - 1 - q + 1) else complement w (modulus w - 1 - q))
          ≡ with_sign w n q
    back true = ap (wrap w) (omega arith)
    back false = twice_complement (modulus w) q hq
postdiv_lem w q r hi neg false f hh hq = refl

after_cord_signed :
    (w : Width) (q r hi : ℕ) (neg c k : Bool) (f : Flags) (result : Option (ℕ × ℕ × Bool))
    → hi < modulus w
    → (c ≡ true → q < modulus w)
    → result ≡ (if c then some (modulus w - 1 - q, r, k) else none)
    → (after_cord w hi true neg result f).0
      ≡ (if c && k then some (with_sign w (is_negative w hi) r, with_sign w neg q) else none)
after_cord_signed w q r hi neg true k f result hh hq e =
    rw e (postdiv_lem w q r hi neg k f hh (hq refl))
after_cord_signed w q r hi neg false k f result hh hq e = rw e refl

-- `IDIV` without a repeat prefix, on the words `hi` and `lo` of the dividend: it succeeds exactly if
-- the magnitude of the quotient is below the sign bit. The quotient is rounded towards zero and
-- negative if just one operand is, and the remainder has the sign of the dividend.
pub divide_signed :
    (w : Width) (hi lo b : ℕ) (f : Flags)
    → hi < modulus w
    → lo < modulus w
    → b < modulus w
    → let n = magnitude_wide w hi lo in
      let m = magnitude w b in
      (divide w none hi lo b true f).0 ≡ (
        if ltb n (m * modulus w) && ltb (n / m) (sign w)
        then some (
          with_sign w (is_negative w hi) (n % m),
          with_sign w (xor (is_negative w hi) (is_negative w b)) (n / m),
        )
        else none)
unfolding divide
divide_signed w hi lo b f hh hl hb =
    let start : Operands = record { tmpa = hi; tmpb = b; tmpc = lo; neg = false } in
    let n = magnitude_wide w hi lo in
    let m = magnitude w b in
    let g = (prediv w start f).1 in
    let o = negated w start in
    let p = negated_lem w start hh hb hl in
    let value = cord_lem w o.tmpa o.tmpb o.tmpc g p.2 p.3 ∙ λ i.
    if ltb (p.0 i) (p.1 i * modulus w)
    then some (modulus w - 1 - p.0 i / p.1 i, p.0 i % p.1 i, ltb (p.0 i / p.1 i) (sign w))
    else none in
    let small = λ (e : ltb n (m * modulus w) ≡ true).
      let lt = ltb→lt n (m * modulus w) e in
      quotient_lt n m (modulus w) lt (positive_lem n m (modulus w) lt) in
    ap
      (λ (x : Operands).
        (after_cord w hi true x.neg (cord w x.tmpa x.tmpb x.tmpc g).0
          (cord w x.tmpa x.tmpb x.tmpc g).1).0)
      (prediv-negated w start f hh hb)
    ∙ after_cord_signed w (n / m) (n % m) hi o.neg (ltb n (m * modulus w)) (ltb (n / m) (sign w)) _
        _ hh small value
    ∙ ap
        (λ (x : Bool).
          if ltb n (m * modulus w) && ltb (n / m) (sign w)
          then some (with_sign w (is_negative w hi) (n % m), with_sign w x (n / m))
          else none)
        (negated-neg w start)
