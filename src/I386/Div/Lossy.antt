-- ===== src/I386/Div/Lossy.antt =====
-- The restoring division is exact where the quotient fits the width.
use remu.Prelude.{
  ℕ, zero, suc, ◌+◌, ◌-◌, ◌*◌, ◌/◌, ◌%◌, ◌^◌, ◌≤◌, ◌<◌, ◌≡◌, refl, arith, ap, ◌∙◌, leb,
  if◌then◌else◌, bit_and, bit_or, Bool-cases, inl, inr,
}
use native.Mathlib.Nat.{
  pow-suc, div-add-mod, mul-add-mod_self_right, mod-eq_of_lt, mod-lt, mul-le-mul_right,
}
use remu.Prelude.Bits.{bit_or_sum, bit_and_mask}
use remu.I386.Width.{Width, byte, word, double, sign, wrap}
use remu.I386.Div.{Lossy, lossy_round, lossy_rounds}

pow_pos : (k : ℕ) → 0 < 2 ^ k
pow_pos zero = omega arith
pow_pos (suc k) = omega (arith, pow-suc 2 k, pow_pos k)

-- One more bit of a number.
mod_pow_suc : (i lo : ℕ) → lo % 2 ^ suc i ≡ lo / 2 ^ i % 2 * 2 ^ i + lo % 2 ^ i
mod_pow_suc i lo =
    let p = 2 ^ i in
    let t = lo / p in
    let two : 2 ^ suc i ≡ 2 * p = omega (arith, pow-suc 2 i) in
    let whole : lo ≡ t / 2 * (2 * p) + (t % 2 * p + lo % p) =
      let halves : t ≡ 2 * (t / 2) + t % 2 = omega arith in
      omega (arith, div-add-mod lo p, ap (λ (x : ℕ). p * x) halves) in
    let bit : t % 2 ≤ 1 = omega arith in
    let small : t % 2 * p + lo % p < 2 * p =
      omega (arith, mul-le-mul_right p bit, mod-lt lo (pow_pos i)) in
    ap (λ (x : ℕ). lo % x) two
    ∙ ap (λ (x : ℕ). x % (2 * p)) whole
    ∙ mul-add-mod_self_right (t / 2) (2 * p) (t % 2 * p + lo % p)
    ∙ mod-eq_of_lt small

wrap_double : (w : Width) (v : ℕ) → v < sign w → wrap w (v * 2) ≡ v * 2 ^ 1
wrap_double byte v h = omega arith
wrap_double word v h = omega arith
wrap_double double v h = omega arith

wrap_small : (w : Width) (v : ℕ) → v ≤ sign w → wrap w v ≡ v
wrap_small byte v h = omega arith
wrap_small word v h = omega arith
wrap_small double v h = omega arith

-- A state with `n` bits to go: the remainder is below the divisor, and the quotient has no bit below
-- 2 ^ n yet.
pub record IsPartial (divisor n : ℕ) (s : Lossy) : Type 0 where
  pub remainder : s.0 < divisor
  pub high : ℕ
  pub quotient : s.1 ≡ high * 2 ^ n

-- The dividend that is left, with the quotient so far.
abbrev pub total : ℕ → ℕ → ℕ → Lossy → ℕ
total lo divisor n s = s.1 * divisor + (s.0 * 2 ^ n + lo % 2 ^ n)

module _ (w : Width) (lo divisor : ℕ) (bound : divisor ≤ sign w) where
  -- The remainder doubled, with the next bit, fits the register.
  shifted_lem :
      (i r : ℕ)
      → r < divisor
      → bit_or (wrap w (r * 2)) (bit_and (lo / 2 ^ i) 1) ≡ 2 * r + lo / 2 ^ i % 2
  shifted_lem i r h =
      let bit : bit_and (lo / 2 ^ i) 1 ≡ lo / 2 ^ i % 2 = bit_and_mask 1 1 (lo / 2 ^ i) refl in
      rw (wrap_double w r (omega (arith, bound)), bit)
        (bit_or_sum 1 r (lo / 2 ^ i % 2) (omega arith) ∙ omega arith)

  -- A round with the shifted remainder `x`, where the divisor fits in it and where it does not.
  abbrev next : ℕ → ℕ → ℕ → Lossy
  next i x q = if leb divisor x then (x - divisor, bit_or q (2 ^ i)) else (x, q)

  next_lem :
      (i r q x : ℕ)
      → IsPartial divisor (suc i) (r, q)
      → x ≡ 2 * r + lo / 2 ^ i % 2
      → IsPartial divisor i (next i x q)
        × (total lo divisor i (next i x q) ≡ total lo divisor (suc i) (r, q))
  next_lem i r q x p e =
      let power = 2 ^ i in
      let two : 2 ^ suc i ≡ 2 * power = omega (arith, pow-suc 2 i) in
      let doubled = ap (λ (t : ℕ). p.high * t) two in
      let less = p.remainder in
      let left : r * 2 ^ suc i + lo % 2 ^ suc i ≡ x * power + lo % power =
        omega (arith, mod_pow_suc i lo, ap (λ (t : ℕ). r * t) two, ap (λ (t : ℕ). t * power) e) in
      elim (Bool-cases (leb divisor x)) [
        | inr k ↦
            let small : x < divisor = ground (arith, k) in
            rw k (
              record {
                remainder = small;
                high = 2 * p.high;
                quotient = omega (arith, p.quotient, doubled);
              },
              omega (arith, left),
            )
        | inl k ↦
            let large : divisor ≤ x = ground (arith, k) in
            let joined : bit_or q power ≡ q + power =
              ap (λ (t : ℕ). bit_or t power) p.quotient
              ∙ bit_or_sum (suc i) p.high power (omega (arith, two, pow_pos i))
              ∙ omega (arith, p.quotient) in
            let rest : x - divisor + divisor ≡ x = omega arith in
            rw (k, joined)
              (
                record {
                  remainder = omega (arith, e);
                  high = 2 * p.high + 1;
                  quotient = omega (arith, p.quotient, doubled);
                },
                omega (arith, left, ap (λ (t : ℕ). t * power) rest),
              )
      ]

  round_lem :
      (i : ℕ) (s : Lossy)
      → IsPartial divisor (suc i) s
      → IsPartial divisor i (lossy_round w lo divisor i s)
        × (total lo divisor i (lossy_round w lo divisor i s) ≡ total lo divisor (suc i) s)
  unfolding lossy_round
  round_lem i (r, q) p =
      rw (shifted_lem i r p.remainder, wrap_small w divisor bound) (next_lem i r q _ p refl)

  pub rounds_lem :
      (n : ℕ) (s : Lossy)
      → IsPartial divisor n s
      → ((lossy_rounds w lo divisor n s).0 < divisor)
        × ((lossy_rounds w lo divisor n s).1 * divisor + (lossy_rounds w lo divisor n s).0
            ≡ total lo divisor n s)
  unfolding lossy_rounds
  rounds_lem zero s p = (p.remainder, omega arith)
  rounds_lem (suc i) s p =
      let (q, e) = round_lem i s p in
      let (less, f) = rounds_lem i (lossy_round w lo divisor i s) q in (less, f ∙ e)
