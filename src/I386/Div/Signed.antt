-- ===== src/I386/Div/Signed.antt =====
-- `IDIV` of the 386 and signed division: the operands are the named registers, and the sign and size of
-- a word are those of two's complement.
use remu.Prelude.{
  ℕ, ◌+◌, ◌-◌, ◌*◌, ◌/◌, ◌%◌, ◌≤◌, ◌<◌, ◌≡◌, refl, arith, ap, ap₂, sym, subst, ◌∙◌, Bool, true,
  false, not, ◌&&◌, ◌||◌, xor, Option, none, some, leb, ltb, ◌==◌, if◌then◌else◌, Bool-cases, inl,
  inr,
}
use native.Mathlib.Nat.{mod-lt, le-div_iff_mul-le, mul-le-mul_left}
use remu.I386.Registers.{Registers}
use remu.I386.Width.{Width, byte, word, double, modulus, sign}
use remu.I386.Div.{
  dividend_of, wide_sign, wide_negative, wide_magnitude, magnitude, negate_if, signed_result,
  signed_divide,
}
use remu.I386.Div.Exact.{signed_divide_lem, magnitude-le}
use remu.I386.Div.Pair.{high, low, IsWide, SameRest, dividend_of_lem, put_quotient_lem}

-- Two's complement: whether a word is below 0, its size, that of a pair of words, and the word of a
-- sign and a size.
abbrev pub is_minus : Width → ℕ → Bool
is_minus w v = leb (sign w) v

abbrev pub size : Width → ℕ → ℕ
size w v = if is_minus w v then modulus w - v else v

abbrev pub pair_size : Width → ℕ → ℕ → ℕ
pair_size w hi lo =
    if is_minus w hi then modulus w * modulus w - (hi * modulus w + lo) else hi * modulus w + lo

abbrev pub signed_word : Width → Bool → ℕ → ℕ
signed_word w minus v = if minus then (modulus w - v) % modulus w else v

-- Whether a quotient of that size is a signed word.
abbrev pub word_fits : Width → Bool → ℕ → Bool
word_fits w minus q = if minus then leb q (sign w) else ltb q (sign w)

-- The registers after a division that `fits`: `q` in the low register, and `rem` in the high one.
abbrev pub IsDone : Width → Registers → Bool → ℕ → ℕ → Option Registers → Type 0
IsDone w r fits q rem none = fits ≡ false
IsDone w r fits q rem (some s) = (fits ≡ true) × (low w s ≡ q) × (high w s ≡ rem) × SameRest w r s

-- The signed division of the pair in `r` by `v`, which rounds to 0.
abbrev pub IsDivided : Width → ℕ → Registers → Option Registers → Type 0
IsDivided w v r o =
    let hi = high w r in
    let n = pair_size w hi (low w r) in
    let m = size w v in
    let opposite = xor (is_minus w hi) (is_minus w v) in
    IsDone w r (not (v == 0) && word_fits w opposite (n / m)) (signed_word w opposite (n / m))
      (signed_word w (is_minus w hi) (n % m)) o

low-lt : (w : Width) (r : Registers) → IsWide r → low w r < modulus w
low-lt byte r h = omega arith
low-lt word r h = omega arith
low-lt double r h = h.0

high-lt : (w : Width) (r : Registers) → IsWide r → high w r < modulus w
high-lt byte r h = omega arith
high-lt word r h = omega arith
high-lt double r h = h.1

minus_lem :
    (w : Width) (hi lo : ℕ) → lo < modulus w → wide_negative w (hi * modulus w + lo) ≡ is_minus w hi
minus_lem byte hi lo h = ground arith
minus_lem word hi lo h = ground arith
minus_lem double hi lo h = ground arith

least_lem :
    (w : Width) (hi lo : ℕ)
    → hi < modulus w
    → lo < modulus w
    → (hi * modulus w + lo == wide_sign w) ≡ (pair_size w hi lo == sign w * modulus w)
least_lem byte hi lo h k = ground arith
least_lem word hi lo h k = ground arith
least_lem double hi lo h k = ground arith

signed_word-lt :
    (w : Width) (minus : Bool) (v : ℕ) → v < modulus w → signed_word w minus v < modulus w
signed_word-lt byte minus v h = ground arith
signed_word-lt word minus v h = ground arith
signed_word-lt double minus v h = ground arith

negate_if_lem : (w : Width) (minus : Bool) (v : ℕ) → negate_if w minus v ≡ signed_word w minus v
negate_if_lem byte minus v = ground arith
negate_if_lem word minus v = ground arith
negate_if_lem double minus v = ground arith

-- A size that the check lets through is one that fits.
checked_lem :
    (w : Width) (minus : Bool) (q : ℕ)
    → (if minus then ltb (sign w) q else leb (sign w) q) ≡ not (word_fits w minus q)
checked_lem w true q = ground arith
checked_lem w false q = ground arith

word_fits-lt : (w : Width) (minus : Bool) (q : ℕ) → word_fits w minus q ≡ true → q < modulus w
word_fits-lt byte minus q h = ground arith
word_fits-lt word minus q h = ground arith
word_fits-lt double minus q h = ground arith

signed_result-IsDone :
    (w : Width) (minus negative : Bool) (q rem : ℕ) (r : Registers)
    → IsWide r
    → rem < modulus w
    → IsDone w r
        (word_fits w minus q)
        (signed_word w minus q)
        (signed_word w negative rem)
        (signed_result w minus negative (q, rem) r)
signed_result-IsDone w minus negative q rem r h k = elim (Bool-cases (word_fits w minus q)) [
  | inr e ↦ rw (checked_lem w minus q, e) refl
  | inl e ↦
      let x = signed_word w minus q in
      let y = signed_word w negative rem in
      let put =
        put_quotient_lem w x y r h (signed_word-lt w minus q (word_fits-lt w minus q e))
          (signed_word-lt w negative rem k) in
      rw (checked_lem w minus q, e, negate_if_lem w minus q, negate_if_lem w negative rem)
        (refl, put.0, put.1, put.2)
]

-- The quotient of the least dividend never fits.
least_lem-word_fits :
    (w : Width) (minus : Bool) (m : ℕ)
    → 0 < m
    → m ≤ sign w
    → word_fits w minus (sign w * modulus w / m) ≡ false
least_lem-word_fits w minus m h k =
    let bound : modulus w * m ≤ sign w * modulus w = commuted (mul-le-mul_left (modulus w) k) in
    large w minus (sign w * modulus w / m) ((le-div_iff_mul-le h).1 bound)
  where
    commuted : modulus w * m ≤ modulus w * sign w → modulus w * m ≤ sign w * modulus w
    commuted = λ e. omega (arith, e)

    large : (w : Width) (minus : Bool) (q : ℕ) → modulus w ≤ q → word_fits w minus q ≡ false
    large byte minus q h = ground arith
    large word minus q h = ground arith
    large double minus q h = ground arith

size-pos : (w : Width) (v : ℕ) → v < modulus w → (v == 0) ≡ false → 0 < size w v
size-pos byte v h k = ground arith
size-pos word v h k = ground arith
size-pos double v h k = ground arith

-- A remainder by a size is a word.
rest-lt : (w : Width) (n m k : ℕ) → k < m → m ≤ sign w → n % m < modulus w
rest-lt byte n m k h b = let pos : 0 < m = omega arith in omega (arith, mod-lt n pos)
rest-lt word n m k h b = let pos : 0 < m = omega arith in omega (arith, mod-lt n pos)
rest-lt double n m k h b = let pos : 0 < m = omega arith in omega (arith, mod-lt n pos)

divide_zero : (w : Width) (v : ℕ) (r : Registers) → (v == 0) ≡ true → signed_divide w v r ≡ none
unfolding signed_divide
divide_zero w v r e = rw e refl

divide_least :
    (w : Width) (v : ℕ) (r : Registers)
    → (v == 0) ≡ false
    → (dividend_of w r == wide_sign w) ≡ true
    → signed_divide w v r ≡ none
unfolding signed_divide
divide_least w v r e f = rw (e, f) refl

module _ (w : Width) (v : ℕ) (r : Registers) (bound : v < modulus w) (wide : IsWide r) where
  abbrev hi : ℕ
  hi = high w r

  abbrev n : ℕ
  n = pair_size w (high w r) (low w r)

  abbrev m : ℕ
  m = size w v

  negative_lem : wide_negative w (dividend_of w r) ≡ is_minus w hi
  negative_lem =
      ap (wide_negative w) (dividend_of_lem w r wide)
      ∙ minus_lem w (high w r) (low w r) (low-lt w r wide)

  magnitude_lem : wide_magnitude w (dividend_of w r) ≡ n
  magnitude_lem =
      ap₂ (λ (b : Bool) (d : ℕ). if b then modulus w * modulus w - d else d) negative_lem
        (dividend_of_lem w r wide)

  least : (dividend_of w r == wide_sign w) ≡ (n == sign w * modulus w)
  least =
      ap (λ (d : ℕ). d == wide_sign w) (dividend_of_lem w r wide)
      ∙ least_lem w (high w r) (low w r) (high-lt w r wide) (low-lt w r wide)

  IsDivided-least :
      (v == 0) ≡ false → (n == sign w * modulus w) ≡ true → IsDivided w v r (signed_divide w v r)
  IsDivided-least z e =
      let value : n ≡ sign w * modulus w = ground (arith, e) in
      rw (divide_least w v r z (least ∙ e), z, value)
        (least_lem-word_fits w _ m (size-pos w v bound z) (magnitude-le w v bound))

  IsDivided-fit :
      (v == 0) ≡ false
      → (n == sign w * modulus w) ≡ false
      → n / modulus w < m
      → IsDivided w v r (signed_divide w v r)
  IsDivided-fit z e f =
      let fits : wide_magnitude w (dividend_of w r) / modulus w < magnitude w v =
        subst (λ (t : ℕ). t / modulus w < m) (sym magnitude_lem) f in
      let core = signed_divide_lem w v r bound fits in
      rw (core, least, e, z, negative_lem, dividend_of_lem w r wide)
        (signed_result-IsDone w (xor (is_minus w hi) (is_minus w v)) (is_minus w hi) (n / m) (n % m)
          r wide (rest-lt w n m _ f (magnitude-le w v bound)))

-- `IDIV` of the 386 at its three widths, for a divisor of the width and registers of 32 bits, where the
-- divisor is 0, the dividend is the least one, or the quotient of the operands' sizes is below 2 to the
-- width: it fails exactly if the divisor is 0 or the signed quotient, rounded to 0, is no signed word
-- of the width. If it does not fail, `AL`, `AX` or `EAX` gets that quotient, `AH`, `DX` or `EDX` the
-- remainder, which has the sign of the dividend, and all else in the registers is as it was.
pub signed_divide_exact :
    (w : Width) (v : ℕ) (r : Registers)
    → v < modulus w
    → IsWide r
    → ((v == 0)
        || (pair_size w (high w r) (low w r) == sign w * modulus w)
        || ltb (pair_size w (high w r) (low w r) / modulus w) (size w v))
      ≡ true
    → IsDivided w v r (signed_divide w v r)
signed_divide_exact w v r h wide cases = elim (Bool-cases (v == 0)) [
  | inl z ↦ rw (divide_zero w v r z, z) refl
  | inr z ↦ elim (Bool-cases (pair_size w (high w r) (low w r) == sign w * modulus w)) [
    | inl e ↦ IsDivided-least w v r h wide z e
    | inr e ↦ IsDivided-fit w v r h wide z e (ground (arith, cases, z, e))
  ]
]
