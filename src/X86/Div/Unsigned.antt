-- ===== src/X86/Div/Unsigned.antt =====
-- The unsigned divisions, `DIV` and `AAM`, as the registers see them.
use remu.Prelude.{
  ℕ, zero, suc, ◌+◌, ◌-◌, ◌*◌, ◌/◌, ◌%◌, ◌<◌, ◌≡◌, refl, arith, ap, ◌∙◌, Bool, true, false, not,
  Option, none, some, ltb, ltb→lt, ◌==◌, if◌then◌else◌, bit_or, u8, Bool-cases, inl, inr,
}
use native.Mathlib.Nat.{div-lt_iff_lt-mul, mod-lt}
use remu.Prelude.Bits.{bit_or_sum}
use remu.X86.Registers.{Flags, Registers}
use remu.X86.Width.{Width, byte, wide, modulus}
use remu.X86.Div.{divide, store8, div8, store16, div16, aam, store_aam, complement}
use remu.X86.Div.Quotient.{cord_lem}

pub quotient_lt : (d b m : ℕ) → d < b * m → 0 < b → d / b < m
quotient_lt d b m h positive = (div-lt_iff_lt-mul positive).1 (omega arith)

-- A divisor that is not zero, where the dividend fits.
pub positive_lem : (d b m : ℕ) → d < b * m → 0 < b
positive_lem d zero m h = absurd (omega arith)
positive_lem d (suc b) m h = omega arith

pub twice_complement : (m q : ℕ) → q < m → m - 1 - (m - 1 - q) ≡ q
twice_complement m q h = omega arith

-- Unsigned division of two words.
divide_unsigned :
    (w : Width) (rep : Option Bool) (hi lo b : ℕ) (f : Flags)
    → b < modulus w
    → lo < modulus w
    → let d = hi * modulus w + lo in
      (divide w rep hi lo b false f).0
      ≡ (if ltb d (b * modulus w) then some (d % b, d / b) else none)
unfolding divide
divide_unsigned w rep hi lo b f hb hl =
    let d = hi * modulus w + lo in
    rw (cord_lem w hi b lo f hb hl) (elim (Bool-cases (ltb d (b * modulus w))) [
      | inl e ↦
          let lt = ltb→lt d (b * modulus w) e in
          let q_lt = quotient_lt d b (modulus w) lt (positive_lem d b (modulus w) lt) in
          rw e (ap (λ (q : ℕ). some (d % b, q)) (twice_complement (modulus w) (d / b) q_lt))
      | inr e ↦ rw e refl
    ])

-- The word of a quotient and a remainder that are bytes.
joined : (hi lo : ℕ) → lo < 256 → bit_or (hi * 256) lo ≡ hi * 256 + lo
joined hi lo h = bit_or_sum 8 hi lo h

halves : (ax : ℕ) → ax < 65536 → u8 (ax / 256) * 256 + u8 ax ≡ ax
halves ax h = omega arith

store8_lem :
    (r : Registers) (c : Bool) (rem quot : ℕ) (f : Flags) (o : Option (ℕ × ℕ))
    → (c ≡ true → quot < 256)
    → o ≡ (if c then some (rem, quot) else none)
    → let (ok, s) = store8 r o f in (ok ≡ c) × (s.ax ≡ (if c then rem * 256 + quot else r.ax))
store8_lem r true rem quot f o h e = rw e (refl, joined rem quot (h refl))
store8_lem r false rem quot f o h e = rw e (refl, refl)

-- `DIV r/m8`, with any prefix, a byte for the divisor and a word in `AX`: it succeeds exactly if the quotient fits a byte, so never by zero. Then
-- `AL` is the quotient of `AX` by the divisor and `AH` the remainder, and otherwise `AX` is as it was.
pub div8_unsigned :
    (rep : Option Bool) (b : ℕ) (r : Registers)
    → b < 256
    → r.ax < 65536
    → let (ok, s) = div8 rep b false r in
      (ok ≡ ltb r.ax (b * 256))
      × (s.ax ≡ (if ltb r.ax (b * 256) then r.ax % b * 256 + r.ax / b else r.ax))
unfolding div8
div8_unsigned rep b r hb ha =
    let value =
      divide_unsigned byte rep (u8 (r.ax / 256)) (u8 r.ax) b r.flags hb (omega arith)
      ∙ ap (λ (d : ℕ). if ltb d (b * 256) then some (d % b, d / b) else none) (halves r.ax ha) in
    store8_lem r (ltb r.ax (b * 256)) (r.ax % b) (r.ax / b) _ _
      (λ e.
        let lt = ltb→lt r.ax (b * 256) e in quotient_lt r.ax b 256 lt (positive_lem r.ax b 256 lt))
      value

store16_lem :
    (r : Registers) (c : Bool) (rem quot : ℕ) (f : Flags) (o : Option (ℕ × ℕ))
    → o ≡ (if c then some (rem, quot) else none)
    → let (ok, s) = store16 r o f in
      (ok ≡ c) × (s.ax ≡ (if c then quot else r.ax)) × (s.dx ≡ (if c then rem else r.dx))
store16_lem r true rem quot f o e = rw e (refl, refl, refl)
store16_lem r false rem quot f o e = rw e (refl, refl, refl)

-- `DIV r/m16`, with any prefix, words for the divisor and in `AX`: it succeeds exactly if the quotient of `DX:AX` by the divisor fits a
-- word. Then `AX` is the quotient and `DX` the remainder, and otherwise both are as they were.
pub div16_unsigned :
    (rep : Option Bool) (b : ℕ) (r : Registers)
    → b < 65536
    → r.ax < 65536
    → let (ok, s) = div16 rep b false r in
      let d = r.dx * 65536 + r.ax in
      (ok ≡ ltb d (b * 65536))
      × (s.ax ≡ (if ltb d (b * 65536) then d / b else r.ax))
      × (s.dx ≡ (if ltb d (b * 65536) then d % b else r.dx))
unfolding div16
div16_unsigned rep b r hb ha =
    let d = r.dx * 65536 + r.ax in
    store16_lem r (ltb d (b * 65536)) (d % b) (d / b) _ _
      (divide_unsigned wide rep r.dx r.ax b r.flags hb ha)

small_rest : (n m : ℕ) → 0 < m → n % m < m
small_rest n m h = mod-lt n h

store_aam_lem :
    (r : Registers) (c : Bool) (q a : ℕ) (k : Bool) (f : Flags) (o : Option (ℕ × ℕ × Bool))
    → (c ≡ true → a < 256)
    → o ≡ (if c then some (q, a, k) else none)
    → let (ok, s) = store_aam r o f in
      (ok ≡ c) × (s.ax ≡ (if c then complement byte q * 256 + a else r.ax))
store_aam_lem r true q a k f o h e = rw e (refl, joined (complement byte q) a (h refl))
store_aam_lem r false q a k f o h e = rw e (refl, refl)

-- `AAM` splits `AL` by a base of one byte: `AH` is the quotient and `AL` the remainder. It fails exactly for the
-- base zero, and then leaves `AX` as it was.
pub aam_split :
    (base : ℕ) (r : Registers)
    → base < 256
    → let (ok, s) = aam base r in
      let al = u8 r.ax in
      (ok ≡ not (base == 0)) × (s.ax ≡ (if base == 0 then r.ax else al / base * 256 + al % base))
unfolding aam
aam_split base r hb =
    let al = u8 r.ax in
    let fits : ltb (0 * 256 + al) (base * 256) ≡ not (base == 0) = ground arith in
    let value =
      cord_lem byte 0 base al r.flags hb (omega arith)
      ∙ ap
          (λ (c : Bool).
            if c
            then some (
              255 - (0 * 256 + al) / base,
              (0 * 256 + al) % base,
              ltb ((0 * 256 + al) / base) 128,
            )
            else none)
          fits in
    let done =
      store_aam_lem r (not (base == 0)) (255 - (0 * 256 + al) / base) ((0 * 256 + al) % base)
        (ltb ((0 * 256 + al) / base) 128) _ _
        (λ e. omega (arith, small_rest (0 * 256 + al) base (ground arith))) value in
    let zero_plus : 0 * 256 + al ≡ al = omega arith in
    (
      done.0,
      done.1 ∙ elim (Bool-cases (base == 0)) [
        | inl e ↦ rw e refl
        | inr e ↦
            let lt : al / base < 256 = quotient_lt al base 256 (ground arith) (ground arith) in
            rw (e, zero_plus) (omega arith)
      ],
    )
