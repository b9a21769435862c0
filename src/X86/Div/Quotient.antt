-- ===== src/X86/Div/Quotient.antt =====
-- The result of CORD: the quotient, complemented, and the remainder.
use remu.Prelude.{
  ℕ, ◌+◌, ◌-◌, ◌*◌, ◌/◌, ◌%◌, ◌^◌, ◌≤◌, ◌<◌, ◌≡◌, refl, arith, ap, sym, ◌∙◌, Bool, true, none, some,
  ltb, if◌then◌else◌, of_bool, of_bool-lt, test, Bool-cases, inl, inr, ltb→lt, lt→ltb, le→ltb,
}
use native.Mathlib.Nat.{mul-add-div_right, div-eq_of_lt, mul-add-mod_self_right, mod-eq_of_lt}
use remu.Prelude.Masks.{test-0x80, test-0x8000}
use remu.X86.Registers.{Flags}
use remu.X86.Width.{Width, byte, wide, modulus, sign, bit_count}
use remu.X86.Div.{rcl_v, sub_flags, Cord, cord_end, cord}
use remu.X86.Div.Rounds.{rcl_v_parts, mul_le, Invariant, loop_Invariant}

modulus_pow : (w : Width) → modulus w ≡ 2 ^ bit_count w
modulus_pow byte = refl
modulus_pow wide = refl

-- The final rotation takes the first carry out and leaves the complement of the quotient.
cord_end_lem :
    (w : Width) (s : Cord) (q : ℕ)
    → s.tmpc < modulus w
    → 2 * s.tmpc + of_bool s.carry + q + 1 ≡ 2 * modulus w
    → q < modulus w
    → cord_end w s ≡ (modulus w - 1 - q, s.tmpa, ltb q (sign w))
cord_end_lem byte s q hc e hq =
    let bit = of_bool-lt s.carry in
    let first : rcl_v byte s.tmpc s.carry ≡ (255 - q, true) =
      ap (λ (x : ℕ). rcl_v byte x s.carry) (omega arith)
      ∙ rcl_v_parts byte 1 (s.tmpc - 128) s.carry (omega arith) (omega arith)
      ∙ ap (λ (x : ℕ). (x, true)) (omega arith) in
    let top : test (255 - q) 0x80 ≡ ltb q 128 = test-0x80 (255 - q) ∙ ground arith in
    ap (λ (x : ℕ × Bool). (x.0, s.tmpa, (rcl_v byte x.0 x.1).1)) first ∙ λ i.
    (255 - q, s.tmpa, top i)
cord_end_lem wide s q hc e hq =
    let bit = of_bool-lt s.carry in
    let first : rcl_v wide s.tmpc s.carry ≡ (65535 - q, true) =
      ap (λ (x : ℕ). rcl_v wide x s.carry) (omega arith)
      ∙ rcl_v_parts wide 1 (s.tmpc - 32768) s.carry (omega arith) (omega arith)
      ∙ ap (λ (x : ℕ). (x, true)) (omega arith) in
    let top : test (65535 - q) 0x8000 ≡ ltb q 32768 = test-0x8000 (65535 - q) ∙ ground arith in
    ap (λ (x : ℕ × Bool). (x.0, s.tmpa, (rcl_v wide x.0 x.1).1)) first ∙ λ i.
    (65535 - q, s.tmpa, top i)

-- A quotient and a remainder are the quotient and the remainder.
quotient_unique : (q r b d : ℕ) → q * b + r ≡ d → r < b → (d / b ≡ q) × (d % b ≡ r)
quotient_unique q r b d e h =
    let positive : 0 < b = omega arith in
    rw (← e) (
      mul-add-div_right positive q r ∙ omega (arith, div-eq_of_lt h),
      mul-add-mod_self_right q b r ∙ mod-eq_of_lt h,
    )

-- The state in which the loop starts.
start_Invariant :
    (w : Width) (a b c : ℕ) (s : Cord)
    → a < b
    → c < modulus w
    → s.tmpa ≡ a
    → s.tmpc ≡ c
    → s.carry ≡ true
    → Invariant w (a * modulus w + c) b (2 ^ bit_count w) s
start_Invariant w a b c s h hc ea ec ek = record {
  low = 1;
  left = c;
  shifted = 0;
  quotient = 0;
  powers = omega (arith, modulus_pow w);
  word = omega (arith, ec);
  complement = rw ek (omega arith);
  quotient_lt = omega arith;
  left_lt = omega (arith, modulus_pow w);
  remainder_lt = omega (arith, ea);
  division =
      ap (λ (x : ℕ). (0 * b + s.tmpa) * x + c) (sym (modulus_pow w))
      ∙ ap (λ (x : ℕ). x * modulus w + c) (omega (arith, ea));
}

-- What the end of the loop gives.
end_lem :
    (w : Width) (dividend b : ℕ) (s : Cord)
    → Invariant w dividend b 1 s
    → cord_end w s ≡ (modulus w - 1 - dividend / b, dividend % b, ltb (dividend / b) (sign w))
end_lem w dividend b s i =
    let q = i.quotient in
    let powers = i.powers in
    let q_lt = i.quotient_lt in
    let old = i.complement in
    let last : i.left ≡ 0 = omega (arith, i.left_lt) in
    let word : s.tmpc ≡ i.shifted = i.word ∙ omega (arith, ap (λ (x : ℕ). x * i.low) last) in
    let divided = quotient_unique q s.tmpa b dividend (omega (arith, i.division)) i.remainder_lt in
    cord_end_lem w s q (omega arith) (omega arith) (omega arith) ∙ λ j.
    (modulus w - 1 - sym divided.0 j, sym divided.1 j, ltb (sym divided.0 j) (sign w))

lt_suc : {a b : ℕ} → a < b → a + 1 ≤ b
lt_suc h = omega arith

fits_word : (a b c m : ℕ) → c < m → ltb (a * m + c) (b * m) ≡ ltb a b
fits_word a b c m h = elim (Bool-cases (ltb a b)) [
  | inl e ↦ lt→ltb _ _ (omega (arith, mul_le m (a + 1) b (lt_suc (ltb→lt a b e)))) ∙ sym e
  | inr e ↦ le→ltb _ _ (omega (arith, mul_le m b a (ground arith))) ∙ sym e
]

-- CORD, on a dividend of two words and a divisor, returns none exactly if the quotient does not fit
-- the word, the divisor zero included. Otherwise it returns the complement of the quotient, the
-- remainder, and whether the quotient would fit a signed word.
pub cord_lem :
    (w : Width) (a b c : ℕ) (f : Flags)
    → b < modulus w
    → c < modulus w
    → let dividend = a * modulus w + c in
      (cord w a b c f).0 ≡ (
        if ltb dividend (b * modulus w)
        then some (modulus w - 1 - dividend / b, dividend % b, ltb (dividend / b) (sign w))
        else none)
unfolding cord
cord_lem w a b c f hb hc = elim (Bool-cases (ltb a b)) [
  | inl e ↦
      let start : Cord = record { tmpa = a; tmpc = c; carry = true; flags = sub_flags w a b f } in
      let dividend = a * modulus w + c in
      let i = start_Invariant w a b c start (ltb→lt a b e) hc refl refl refl in
      let done = end_lem w dividend b _ (loop_Invariant w b dividend hb (bit_count w) start i) in
      rw (fits_word a b c (modulus w) hc) (rw e (ap some done))
  | inr e ↦ rw (fits_word a b c (modulus w) hc) (rw e refl)
]
