-- ===== src/X86/Alu/Rotates.antt =====
-- The rotates of the arithmetic unit as rotations of one word, with the carry flag as its top bit for
-- `RCL` and `RCR`.
use remu.Prelude.{
  ℕ, zero, suc, ◌+◌, ◌*◌, ◌/◌, ◌%◌, ◌<◌, ◌≡◌, refl, arith, ap, subst, sym, ◌∙◌, Bool, true, false,
  ◌==◌, of_bool, of_bool-lt, test, bit_or, bit_xor, xor,
}
use remu.Prelude.Masks.{test-0x80, test-0x8000, test-0x01}
use remu.Prelude.Bits.{bit_or_sum, bit_or_comm}
use remu.X86.Registers.{Flags}
use remu.X86.Width.{Width, byte, wide, modulus, sign, wrap}
use remu.X86.Alu.{times, after, rol_round, ror_round, rcl_round, rcr_round, rol, ror, rcl, rcr}

-- A word of a width, or a word with the carry flag above it.
abbrev size : Width → Bool → ℕ
size byte false = 256
size byte true = 512
size wide false = 65536
size wide true = 131072

unfoldable spin : Width → Bool → ℕ → ℕ
spin w c k = k * 2 % size w c + k * 2 / size w c

unfoldable unspin : Width → Bool → ℕ → ℕ
unspin w c k = k / 2 + k % 2 * (size w c / 2)

unfoldable iterate : (ℕ → ℕ) → ℕ → ℕ → ℕ
iterate step zero k = k
iterate step (suc n) k = iterate step n (step k)

unspin-spin : (w : Width) (c : Bool) (k : ℕ) → k < size w c → unspin w c (spin w c k) ≡ k
unfolding spin unspin
unspin-spin byte false k h = omega arith
unspin-spin byte true k h = omega arith
unspin-spin wide false k h = omega arith
unspin-spin wide true k h = omega arith

spin-lt : (w : Width) (c : Bool) (k : ℕ) → k < size w c → spin w c k < size w c
unfolding spin
spin-lt byte false k h = omega arith
spin-lt byte true k h = omega arith
spin-lt wide false k h = omega arith
spin-lt wide true k h = omega arith

iterate_last : (step : ℕ → ℕ) (n k : ℕ) → iterate step n (step k) ≡ step (iterate step n k)
unfolding iterate
iterate_last step zero k = refl
iterate_last step (suc n) k = iterate_last step n (step k)

iterate_lt : (w : Width) (c : Bool) (n k : ℕ) → k < size w c → iterate (spin w c) n k < size w c
unfolding iterate
iterate_lt w c zero k h = h
iterate_lt w c (suc n) k h = iterate_lt w c n (spin w c k) (spin-lt w c k h)

iterate_back :
    (w : Width) (c : Bool) (n k : ℕ)
    → k < size w c
    → iterate (unspin w c) n (iterate (spin w c) n k) ≡ k
unfolding iterate
iterate_back w c zero k h = refl
iterate_back w c (suc n) k h =
    ap (λ x. iterate (unspin w c) n (unspin w c x)) (iterate_last (spin w c) n k)
    ∙ ap (iterate (unspin w c) n) (unspin-spin w c (iterate (spin w c) n k) (iterate_lt w c n k h))
    ∙ iterate_back w c n k h

-- The rotated word: the operand, with the carry flag above it if it takes part.
abbrev key : Width → Bool → ℕ × Flags → ℕ
key w false (v, f) = v
key w true (v, f) = v + modulus w * of_bool f.cf

key-lt : (w : Width) (c : Bool) (v : ℕ) (f : Flags) → v < modulus w → key w c (v, f) < size w c
key-lt byte false v f h = h
key-lt byte true v f h = omega (arith, of_bool-lt f.cf)
key-lt wide false v f h = h
key-lt wide true v f h = omega (arith, of_bool-lt f.cf)

-- A round that moves the key by `step` keeps the operand a word.
unfoldable IsRound : Width → Bool → (ℕ → ℕ) → (ℕ → Flags → ℕ × Flags) → Type 0
IsRound w c step round =
    (v : ℕ) (f : Flags)
    → v < modulus w
    → ((round v f).0 < modulus w) × (key w c (round v f) ≡ step (key w c (v, f)))

times-key :
    (w : Width) (c : Bool) (step : ℕ → ℕ) (round : ℕ → Flags → ℕ × Flags)
    → IsRound w c step round
    → (n v : ℕ) (f : Flags) → v < modulus w
    → ((times round n v f).0 < modulus w)
      × (key w c (times round n v f) ≡ iterate step n (key w c (v, f)))
unfolding IsRound iterate
times-key w c step round h zero v f hv = (hv, refl)
times-key w c step round h (suc n) v f hv =
    let (lt, e) = h v f hv in
    let (lt_rest, e_rest) = times-key w c step round h n (round v f).0 (round v f).1 lt in
    (lt_rest, e_rest ∙ ap (iterate step n) e)

top_byte : (v : ℕ) → v < 256 → of_bool (test v 0x80) ≡ v / 128
top_byte v h = ap of_bool (test-0x80 v) ∙ ground arith

top_wide : (v : ℕ) → v < 65536 → of_bool (test v 0x8000) ≡ v / 32768
top_wide v h = ap of_bool (test-0x8000 v) ∙ ground arith

low_digit : (v : ℕ) → of_bool (test v 1) ≡ v % 2
low_digit v = ap of_bool (test-0x01 v) ∙ ground arith

shifted_or : (v m : ℕ) (c : Bool) → bit_or (v % m * 2) (of_bool c) ≡ v % m * 2 + of_bool c
shifted_or v m c = bit_or_sum 1 (v % m) (of_bool c) (of_bool-lt c)

rol_round-IsRound : (w : Width) → IsRound w false (spin w false) (rol_round w)
unfolding IsRound spin
rol_round-IsRound byte v f h = (omega arith, omega arith)
rol_round-IsRound wide v f h = (omega arith, omega arith)

ror_round-IsRound : (w : Width) → IsRound w false (unspin w false) (ror_round w)
unfolding IsRound unspin
ror_round-IsRound byte v f h = (omega arith, omega arith)
ror_round-IsRound wide v f h = (omega arith, omega arith)

rcl_round-IsRound : (w : Width) → IsRound w true (spin w true) (rcl_round w)
unfolding IsRound spin
rcl_round-IsRound byte v f h =
    let bit = of_bool-lt f.cf in
    let low : bit_or (v * 2 % 256) (of_bool f.cf) ≡ v % 128 * 2 + of_bool f.cf =
      ap (λ (x : ℕ). bit_or x (of_bool f.cf)) (omega arith) ∙ shifted_or v 128 f.cf in
    (omega (arith, low, bit), omega (arith, low, bit, top_byte v h))
rcl_round-IsRound wide v f h =
    let bit = of_bool-lt f.cf in
    let low : bit_or (v * 2 % 65536) (of_bool f.cf) ≡ v % 32768 * 2 + of_bool f.cf =
      ap (λ (x : ℕ). bit_or x (of_bool f.cf)) (omega arith) ∙ shifted_or v 32768 f.cf in
    (omega (arith, low, bit), omega (arith, low, bit, top_wide v h))

rcr_round-IsRound : (w : Width) → IsRound w true (unspin w true) (rcr_round w)
unfolding IsRound unspin
rcr_round-IsRound byte v f h =
    let bit = of_bool-lt f.cf in
    let low =
      bit_or_comm (v / 2) (of_bool f.cf * 128)
      ∙ bit_or_sum 7 (of_bool f.cf) (v / 2) (omega arith) in
    (omega (arith, low, bit), omega (arith, low, bit, low_digit v))
rcr_round-IsRound wide v f h =
    let bit = of_bool-lt f.cf in
    let low =
      bit_or_comm (v / 2) (of_bool f.cf * 32768)
      ∙ bit_or_sum 15 (of_bool f.cf) (v / 2) (omega arith) in
    (omega (arith, low, bit), omega (arith, low, bit, low_digit v))

-- What follows the loop leaves the key.
after-key :
    (w : Width) (c : Bool) (last : ℕ → Flags → Flags) (round : ℕ → Flags → ℕ × Flags)
    → ((v : ℕ) (f : Flags) → (last v f).cf ≡ f.cf)
    → (n v : ℕ) (f : Flags)
    → (key w c (after last round n v f) ≡ key w c (times round n v f))
      × ((after last round n v f).0 ≡ (times round n v f).0)
after-key w c last round h zero v f = (refl, refl)
after-key w c last round h (suc n) v f =
    let more : (suc n == 0) ≡ false = ground arith in rw more (kept c, refl)
  where
    kept :
        (c : Bool)
        → key w c (
          (times round (suc n) v f).0,
          last (times round (suc n) v f).0 (times round (suc n) v f).1,
        )
          ≡ key w c (times round (suc n) v f)
    kept false = refl
    kept true =
        ap (λ (b : Bool). (times round (suc n) v f).0 + modulus w * of_bool b)
          (h (times round (suc n) v f).0 (times round (suc n) v f).1)

-- A rotate and its reverse, by the key.
rotates_back :
    (w : Width) (c : Bool) (last back_last : ℕ → Flags → Flags) (round back : ℕ → Flags → ℕ × Flags)
    → ((v : ℕ) (f : Flags) → (last v f).cf ≡ f.cf)
    → ((v : ℕ) (f : Flags) → (back_last v f).cf ≡ f.cf)
    → IsRound w c (spin w c) round
    → IsRound w c (unspin w c) back
    → (n v : ℕ) (f : Flags) → v < modulus w
    → let (r, g) = after last round n v f in
      ((after back_last back n r g).0 < modulus w)
      × (key w c (after back_last back n r g) ≡ key w c (v, f))
rotates_back w c last back_last round back hl hb h b n v f hv =
    let (lt, e) = times-key w c (spin w c) round h n v f hv in
    let (keeps, same) = after-key w c last round hl n v f in
    let rg = after last round n v f in
    let (lt2, e2) =
      times-key w c (unspin w c) back b n rg.0 rg.1 (subst (λ x. x < modulus w) (sym same) lt) in
    let (keeps2, same2) = after-key w c back_last back hb n rg.0 rg.1 in
    (
      subst (λ x. x < modulus w) (sym same2) lt2,
      keeps2
          ∙ e2
          ∙ ap (iterate (unspin w c) n) (keeps ∙ e)
          ∙ iterate_back w c n (key w c (v, f)) (key-lt w c v f hv),
    )

-- A word and a bit above it, apart.
key_parts :
    (w : Width) (r v : ℕ) (c d : Bool)
    → r < modulus w
    → v < modulus w
    → r + modulus w * of_bool c ≡ v + modulus w * of_bool d
    → (r ≡ v) × (c ≡ d)
key_parts byte r v c d hr hv e = (ground arith, ground arith)
key_parts wide r v c d hr hv e = (ground arith, ground arith)

-- `ROR` by a count undoes `ROL` by the same count, and `RCR` undoes `RCL` with the carry flag, which
-- rotates along.
pub rotate_through_inverse :
    (w : Width) (n v : ℕ) (f : Flags)
    → v < modulus w
    → let (r, g) = rol w v n f in
      let (s, h) = rcl w v n f in
      ((ror w r n g).0 ≡ v) × ((rcr w s n h).0 ≡ v) × ((rcr w s n h).1.cf ≡ f.cf)
unfolding rol ror rcl rcr
rotate_through_inverse w n v f hv =
    let overflow : ℕ → Flags → Flags = λ r g. record g { oflag = xor (test r (sign w)) g.cf } in
    let ror_overflow : ℕ → Flags → Flags =
      λ r g. record g { oflag = test (bit_xor r (wrap w (r * 2))) (sign w) } in
    let (lt, plain) =
      rotates_back w false overflow ror_overflow (rol_round w) (ror_round w) (λ x g. refl)
        (λ x g. refl) (rol_round-IsRound w) (ror_round-IsRound w) n v f hv in
    let (lt2, through) =
      rotates_back w true overflow (λ r g. g) (rcl_round w) (rcr_round w) (λ x g. refl)
        (λ x g. refl) (rcl_round-IsRound w) (rcr_round-IsRound w) n v f hv in
    let (operand, carry) = key_parts w _ v _ f.cf lt2 hv through in (plain, operand, carry)
