-- ===== src/X86/Div/Rounds.antt =====
-- The loop of CORD is long division: its invariant, and that a round keeps it.
use remu.Prelude.{
  ℕ, zero, suc, ◌+◌, ◌-◌, ◌*◌, ◌%◌, ◌^◌, ◌≤◌, ◌<◌, ◌≡◌, refl, arith, ap, sym, subst, ◌∙◌, Bool, not,
  ltb, ◌==◌, if◌then◌else◌, of_bool, of_bool-lt, test, bit_or, Bool-cases, inl, inr, ltb→lt,
}
use native.Mathlib.Nat.{mul-le-mul_right, pow-suc}
use remu.Prelude.Bits.{bit_or_sum}
use remu.Prelude.Masks.{test-0x80, test-0x8000}
use remu.X86.Registers.{Flags}
use remu.X86.Width.{Width, byte, wide, modulus, sign}
use remu.X86.Div.{rcl_v, Cord, cord_subtract, cord_round, cord_loop}

-- A rotation through the carry, by the top bit `t` of the word and the rest `u`.
pub rcl_v_parts :
    (w : Width) (t u : ℕ) (carry : Bool)
    → t < 2
    → u < sign w
    → rcl_v w (t * sign w + u) carry ≡ (2 * u + of_bool carry, t == 1)
rcl_v_parts byte t u carry ht hu =
    let c = of_bool carry in
    let doubled : (t * 0x80 + u) * 2 % 256 ≡ u * 2 ^ 1 = omega arith in
    let joined : bit_or (u * 2 ^ 1) c ≡ 2 * u + c =
      bit_or_sum 1 u c (of_bool-lt carry) ∙ omega arith in
    let top : test (t * 0x80 + u) 0x80 ≡ (t == 1) = test-0x80 (t * 0x80 + u) ∙ ground arith in
    rw (doubled, joined) λ i. (2 * u + c, top i)
rcl_v_parts wide t u carry ht hu =
    let c = of_bool carry in
    let doubled : (t * 0x8000 + u) * 2 % 65536 ≡ u * 2 ^ 1 = omega arith in
    let joined : bit_or (u * 2 ^ 1) c ≡ 2 * u + c =
      bit_or_sum 1 u c (of_bool-lt carry) ∙ omega arith in
    let top : test (t * 0x8000 + u) 0x8000 ≡ (t == 1) =
      test-0x8000 (t * 0x8000 + u) ∙ ground arith in
    rw (doubled, joined) λ i. (2 * u + c, top i)

-- The doubled remainder, whether it fits the word or not: the divisor is taken off if it can be.
subtract_lem :
    (w : Width) (b c t d : ℕ) (f : Flags)
    → t < 2
    → d < modulus w
    → b < modulus w
    → t * modulus w + d < 2 * b
    → let s = cord_subtract w b c d (t == 1) f in
      (s.carry ≡ ltb (t * modulus w + d) b)
      × (s.tmpa ≡ (if ltb (t * modulus w + d) b then t * modulus w + d else t * modulus w + d - b))
      × (s.tmpc ≡ c)
subtract_lem byte b c zero d f ht hd hb h = (ground arith, ground arith, refl)
subtract_lem wide b c zero d f ht hd hb h = (ground arith, ground arith, refl)
subtract_lem byte b c (suc zero) d f ht hd hb h = (ground arith, ground arith, refl)
subtract_lem wide b c (suc zero) d f ht hd hb h = (ground arith, ground arith, refl)
subtract_lem w b c (suc (suc t)) d f ht hd hb h = absurd (omega arith)

-- After some rounds: `high` is 2 ^ the rounds that are left, `low` 2 ^ those done. The word in `tmpc`
-- holds the bits of the dividend that are left above the complemented bits of the quotient.
pub record Invariant (w : Width) (dividend b : ℕ) (high : ℕ) (s : Cord) : Type 0 where
  pub low : ℕ
  pub left : ℕ
  pub shifted : ℕ
  pub quotient : ℕ
  pub powers : high * low ≡ modulus w
  pub word : s.tmpc ≡ left * low + shifted
  pub complement : 2 * shifted + of_bool s.carry + quotient + 1 ≡ 2 * low
  pub quotient_lt : quotient < low
  pub left_lt : left < high
  pub remainder_lt : s.tmpa < b
  pub division : (quotient * b + s.tmpa) * high + left ≡ dividend

-- A number below `2 * h` by its top bit and the rest.
split : (h n : ℕ) → n < 2 * h → (t : ℕ) × (u : ℕ) × (t < 2) × (u < h) × (n ≡ t * h + u)
split h n lt = elim (Bool-cases (ltb n h)) [
  | inl e ↦ (0, n, omega arith, ltb→lt n h e, omega arith)
  | inr e ↦ let ge : h ≤ n = ground arith in (1, n - h, omega arith, omega arith, omega arith)
]

pub mul_le : (p a b : ℕ) → a ≤ b → a * p ≤ b * p
mul_le p a b h = mul-le-mul_right p h

shifted_lt :
    (l low h shifted half : ℕ) → h * low ≡ half → l < h → shifted < low → l * low + shifted < half
shifted_lt l low h shifted half e hl hs = omega (arith, mul_le low (l + 1) h (omega arith))

step_division :
    (b h q a r t l dividend bit : ℕ)
    → (q * b + a) * (2 * h) + (t * h + l) ≡ dividend
    → r + bit * b ≡ 2 * a + t
    → ((2 * q + bit) * b + r) * h + l ≡ dividend
step_division b h q a r t l dividend bit e f = omega (arith, ap (λ (x : ℕ). x * h) f)

half_powers : (w : Width) (h low : ℕ) → 2 * h * low ≡ modulus w → h * low ≡ sign w
half_powers byte h low e = omega arith
half_powers wide h low e = omega arith

double_sign : (w : Width) → modulus w ≡ 2 * sign w
double_sign byte = refl
double_sign wide = refl

double_pow : (n : ℕ) → 2 ^ suc n ≡ 2 * 2 ^ n
double_pow n = omega (arith, pow-suc 2 n)

module _ (w : Width) (b dividend : ℕ) (b_lt : b < modulus w) where
  -- A state that the subtraction leaves, with the doubled remainder `d`.
  next_Invariant :
      (h t l d : ℕ) (s r : Cord)
      → (i : Invariant w dividend b (2 * h) s) → l < h
      → i.left ≡ t * h + l
      → h * i.low ≡ sign w
      → d ≡ 2 * s.tmpa + t
      → t < 2
      → r.carry ≡ ltb d b
      → r.tmpa ≡ (if ltb d b then d else d - b)
      → r.tmpc ≡ 2 * (l * i.low + i.shifted) + of_bool s.carry
      → Invariant w dividend b h r
  next_Invariant h t l d s r i hl el half ed ht ec ea ew =
      let bit = of_bool (not r.carry) in
      let a_lt = i.remainder_lt in
      let q_lt = i.quotient_lt in
      let old = i.complement in
      let taken : r.tmpa + bit * b ≡ 2 * s.tmpa + t = rw (ea, ec) (ground arith) in
      let less : r.tmpa < b = rw ea (ground arith) in
      let one : of_bool r.carry + bit ≡ 1 = ground arith in
      record {
        low = 2 * i.low;
        left = l;
        shifted = 2 * i.shifted + of_bool s.carry;
        quotient = 2 * i.quotient + bit;
        powers = omega (arith, half, double_sign w);
        word = omega (arith, ew);
        complement = omega arith;
        quotient_lt = omega arith;
        left_lt = hl;
        remainder_lt = less;
        division =
            step_division b h i.quotient s.tmpa r.tmpa t l dividend bit
              (ap (λ (x : ℕ). (i.quotient * b + s.tmpa) * (2 * h) + x) (sym el) ∙ i.division) taken;
      }

  round_Invariant :
      (h : ℕ) (s : Cord)
      → Invariant w dividend b (2 * h) s
      → Invariant w dividend b h (cord_round w b s)
  unfolding cord_round
  round_Invariant h s i =
      let (t, l, ht, hl, el) = split h i.left i.left_lt in
      let half = half_powers w h i.low i.powers in
      let u = l * i.low + i.shifted in
      let old = i.complement in
      let hs : i.shifted < i.low = omega arith in
      let hu : u < sign w = shifted_lt l i.low h i.shifted (sign w) half hl hs in
      let word : s.tmpc ≡ t * sign w + u =
        i.word ∙ omega (arith, ap (λ (x : ℕ). x * i.low) el, ap (λ (x : ℕ). t * x) half) in
      let a_lt = i.remainder_lt in
      let (ta, ua, hta, hua, ea) = split (sign w) s.tmpa (omega (arith, double_sign w)) in
      let c = of_bool s.carry in
      let odd : of_bool (t == 1) ≡ t = ground arith in
      let d = 2 * ua + t in
      let first : rcl_v w s.tmpc s.carry ≡ (2 * u + c, t == 1) =
        ap (λ (x : ℕ). rcl_v w x s.carry) word ∙ rcl_v_parts w t u s.carry ht hu in
      let second : rcl_v w s.tmpa (t == 1) ≡ (d, ta == 1) =
        ap (λ (x : ℕ). rcl_v w x (t == 1)) ea ∙ rcl_v_parts w ta ua (t == 1) hta hua ∙ λ j.
        (2 * ua + odd j, ta == 1) in
      let sum : ta * modulus w + d ≡ 2 * s.tmpa + t =
        omega (arith, ea, ap (λ (x : ℕ). ta * x) (double_sign w)) in
      let low_d : d < modulus w = omega (arith, double_sign w) in
      let sub = subtract_lem w b (2 * u + c) ta d s.flags hta low_d b_lt (omega arith) in
      let r = cord_subtract w b (2 * u + c) d (ta == 1) s.flags in
      let round : cord_round w b s ≡ r =
        ap
          (λ (x : ℕ × Bool).
            let (a, over) = rcl_v w s.tmpa x.1 in cord_subtract w b x.0 a over s.flags)
          first
        ∙ ap (λ (x : ℕ × Bool). cord_subtract w b (2 * u + c) x.0 x.1 s.flags) second in
      subst (λ (x : Cord). Invariant w dividend b h x) (sym round)
        (next_Invariant h t l (ta * modulus w + d) s r i hl el half sum ht sub.0 sub.1 sub.2)

  pub loop_Invariant :
      (n : ℕ) (s : Cord)
      → Invariant w dividend b (2 ^ n) s
      → Invariant w dividend b 1 (cord_loop w b n s)
  unfolding cord_loop
  loop_Invariant zero s i = i
  loop_Invariant (suc n) s i =
      loop_Invariant n (cord_round w b s)
        (round_Invariant (2 ^ n) s (subst (λ (x : ℕ). Invariant w dividend b x s) (double_pow n) i))
