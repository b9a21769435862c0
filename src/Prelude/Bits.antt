-- ===== src/Prelude/Bits.antt =====
-- Laws of `bit_and`, `bit_or` and `bit_xor` at variables, from one equation for the lowest digit.
use Prim.Native.Nat.{
  ℕ, zero, suc, ◌+◌, ◌-◌, ◌*◌, ◌/◌, ◌%◌, ◌^◌, ◌≤◌, ◌<◌, min, max, bit_and, bit_or, bit_xor, digits,
  bitwise, differ, bit_and-bitwise, bit_or-bitwise, bit_xor-bitwise,
}
use mathlib.Core.Path.{◌≡◌, refl, ap, sym, ◌∙◌}
use native.Mathlib.Omega.{arith}
use native.Mathlib.Nat.{pow-suc, div-add-mod, div-div-eq-div-mul}

digits_zero : (pad : ℕ → ℕ) (join : ℕ → ℕ → ℕ) (count w : ℕ) → digits pad join count 0 w ≡ pad w
digits_zero pad join zero w = refl
digits_zero pad join (suc count) w = refl

-- The count of digits does not matter once it covers the first number.
digits_enough :
    (pad : ℕ → ℕ) (join : ℕ → ℕ → ℕ) (few many v w : ℕ)
    → v ≤ few
    → v ≤ many
    → digits pad join few v w ≡ digits pad join many v w
digits_enough pad join zero zero v w h k = refl
digits_enough pad join few many zero w h k =
    digits_zero pad join few w ∙ sym (digits_zero pad join many w)
digits_enough pad join zero many (suc v) w h k = absurd (omega arith)
digits_enough pad join (suc few) zero (suc v) w h k = absurd (omega arith)
digits_enough pad join (suc few) (suc many) (suc v) w h k =
    let tail = digits_enough pad join few many (suc v / 2) (w / 2) (omega arith) (omega arith) in
    ap (λ (t : ℕ). t * 2 + join (suc v % 2) (w % 2)) tail

bitwise_step :
    (pad : ℕ → ℕ) (join : ℕ → ℕ → ℕ) (v w : ℕ)
    → bitwise pad join (suc v) w
      ≡ bitwise pad join (suc v / 2) (w / 2) * 2 + join (suc v % 2) (w % 2)
bitwise_step pad join v w =
    let half = suc v / 2 in
    ap (λ (t : ℕ). t * 2 + join (suc v % 2) (w % 2))
      (digits_enough pad join v half half (w / 2) (omega arith) (omega arith))

pub bit_and_step :
    (v mask : ℕ) → bit_and v mask ≡ 2 * bit_and (v / 2) (mask / 2) + min (v % 2) (mask % 2)
bit_and_step zero mask = omega (arith, bit_and-bitwise 0 mask, bit_and-bitwise 0 (mask / 2))
bit_and_step (suc v) mask =
    let whole = bit_and-bitwise (suc v) mask in
    let half = bit_and-bitwise (suc v / 2) (mask / 2) in
    omega (arith, whole, half, bitwise_step (λ y. 0) min v mask)

pub bit_or_step : (v w : ℕ) → bit_or v w ≡ 2 * bit_or (v / 2) (w / 2) + max (v % 2) (w % 2)
bit_or_step zero w = omega (arith, bit_or-bitwise 0 w, bit_or-bitwise 0 (w / 2))
bit_or_step (suc v) w =
    let whole = bit_or-bitwise (suc v) w in
    let half = bit_or-bitwise (suc v / 2) (w / 2) in
    omega (arith, whole, half, bitwise_step (λ y. y) max v w)

-- The digit of an exclusive or.
differ_lem : (x y : ℕ) → x < 2 → y < 2 → differ x y ≡ (x + y) % 2
differ_lem zero y p q = omega arith
differ_lem (suc zero) zero p q = refl
differ_lem (suc zero) (suc zero) p q = refl
differ_lem (suc zero) (suc (suc y)) p q = absurd (omega arith)
differ_lem (suc (suc x)) y p q = absurd (omega arith)

pub bit_xor_step : (a b : ℕ) → bit_xor a b ≡ bit_xor (a / 2) (b / 2) * 2 + (a % 2 + b % 2) % 2
bit_xor_step zero b = omega (arith, bit_xor-bitwise 0 b, bit_xor-bitwise 0 (b / 2))
bit_xor_step (suc a) b = omega (
  arith,
  bitwise_step (λ y. y) differ a b,
  bit_xor-bitwise (suc a) b,
  bit_xor-bitwise (suc a / 2) (b / 2),
  differ_lem (suc a % 2) (b % 2) (omega arith) (omega arith),
)

-- The result is at most the mask, for a first operand of any bounded size.
mask_bound : (size v mask : ℕ) → v ≤ size → bit_and v mask ≤ mask
mask_bound size zero mask h = omega (arith, bit_and-bitwise 0 mask)
mask_bound zero (suc v) mask h = absurd (omega arith)
mask_bound (suc size) (suc v) mask h =
    let rest = mask_bound size (suc v / 2) (mask / 2) (omega arith) in
    omega (arith, rest, bit_and_step (suc v) mask)

pub bit_and-zero : (v : ℕ) → bit_and v 0 ≡ 0
bit_and-zero v = omega (arith, mask_bound v v 0 (omega arith))

bit_or-zero_fuel : (n a : ℕ) → a ≤ n → bit_or a 0 ≡ a
bit_or-zero_fuel n zero h = refl
bit_or-zero_fuel zero (suc a) h = absurd (omega arith)
bit_or-zero_fuel (suc n) (suc a) h =
    omega (arith, bit_or_step (suc a) 0, bit_or-zero_fuel n (suc a / 2) (omega arith))

pub bit_or-zero : (a : ℕ) → bit_or a 0 ≡ a
bit_or-zero a = bit_or-zero_fuel a a (omega arith)

bit_and-le_fuel : (n a b : ℕ) → a ≤ n → bit_and a b ≤ a
bit_and-le_fuel n zero b h = omega (arith, bit_and-bitwise 0 b)
bit_and-le_fuel zero (suc a) b h = absurd (omega arith)
bit_and-le_fuel (suc n) (suc a) b h =
    omega (arith, bit_and_step (suc a) b, bit_and-le_fuel n (suc a / 2) (b / 2) (omega arith))

pub bit_and-le : (a b : ℕ) → bit_and a b ≤ a
bit_and-le a b = bit_and-le_fuel a a b (omega arith)

-- Words of `k` bits are closed under the operations.
pub bit_or-lt : (k a b : ℕ) → a < 2 ^ k → b < 2 ^ k → bit_or a b < 2 ^ k
bit_or-lt zero zero b h g = omega (arith, bit_or-bitwise 0 b)
bit_or-lt zero (suc a) b h g = absurd (omega arith)
bit_or-lt (suc k) a b h g = omega (
  arith,
  pow-suc 2 k,
  bit_or_step a b,
  bit_or-lt k (a / 2) (b / 2) (omega (arith, pow-suc 2 k)) (omega (arith, pow-suc 2 k)),
)

pub bit_xor-lt : (k a b : ℕ) → a < 2 ^ k → b < 2 ^ k → bit_xor a b < 2 ^ k
bit_xor-lt zero zero b h g = omega (arith, bit_xor-bitwise 0 b)
bit_xor-lt zero (suc a) b h g = absurd (omega arith)
bit_xor-lt (suc k) a b h g = omega (
  arith,
  pow-suc 2 k,
  bit_xor_step a b,
  bit_xor-lt k (a / 2) (b / 2) (omega (arith, pow-suc 2 k)) (omega (arith, pow-suc 2 k)),
)

-- A digit by its position.
unfoldable pub digit : ℕ → ℕ → ℕ
digit a zero = a % 2
digit a (suc k) = digit (a / 2) k

pub digit-lt : (a k : ℕ) → digit a k < 2
unfolding digit
digit-lt a zero = omega arith
digit-lt a (suc k) = digit-lt (a / 2) k

pub digit-bit_xor : (k a b : ℕ) → digit (bit_xor a b) k ≡ (digit a k + digit b k) % 2
unfolding digit
digit-bit_xor zero a b = omega (arith, bit_xor_step a b)
digit-bit_xor (suc k) a b =
    let e : bit_xor a b / 2 ≡ bit_xor (a / 2) (b / 2) = omega (arith, bit_xor_step a b) in
    rw e (digit-bit_xor k (a / 2) (b / 2))

pub digit-bit_and : (k a b : ℕ) → digit (bit_and a b) k ≡ min (digit a k) (digit b k)
unfolding digit
digit-bit_and zero a b = omega (arith, bit_and_step a b)
digit-bit_and (suc k) a b =
    let e : bit_and a b / 2 ≡ bit_and (a / 2) (b / 2) = omega (arith, bit_and_step a b) in
    rw e (digit-bit_and k (a / 2) (b / 2))

pub digit_seven : (v : ℕ) → digit v 7 ≡ v / 128 % 2
unfolding digit
digit_seven v = omega arith

pub digit_six : (v : ℕ) → digit v 6 ≡ v / 64 % 2
unfolding digit
digit_six v = omega arith

pub digit_four : (v : ℕ) → digit v 4 ≡ v / 16 % 2
unfolding digit
digit_four v = omega arith

pub digit_fifteen : (v : ℕ) → digit v 15 ≡ v / 32768 % 2
unfolding digit
digit_fifteen v = omega arith

pub digit_thirty_one : (v : ℕ) → digit v 31 ≡ v / 2147483648 % 2
unfolding digit
digit_thirty_one v = omega arith

pub digit_zero : (v : ℕ) → digit v 0 ≡ v % 2
unfolding digit
digit_zero v = refl

-- `a & (1 << k)` is the digit in its place.
pub bit_and-pow : (k a : ℕ) → bit_and a (2 ^ k) ≡ digit a k * 2 ^ k
unfolding digit
bit_and-pow zero a = omega (arith, bit_and_step a 1, bit_and-zero (a / 2))
bit_and-pow (suc k) a =
    let half : 2 ^ suc k / 2 ≡ 2 ^ k = omega (arith, pow-suc 2 k) in
    let even : 2 ^ suc k % 2 ≡ 0 = omega (arith, pow-suc 2 k) in
    let step : bit_and a (2 ^ suc k) ≡ bit_and (a / 2) (2 ^ k) * 2 =
      rw (← half) (omega (arith, bit_and_step a (2 ^ suc k), even)) in
    omega (arith, step, bit_and-pow k (a / 2), ap (λ (t : ℕ). digit (a / 2) k * t) (pow-suc 2 k))

pub half_mod : (n a : ℕ) → a % (2 * n) ≡ a / 2 % n * 2 + a % 2
half_mod n a = omega (
  arith,
  div-add-mod a (2 * n),
  div-add-mod (a / 2) n,
  ap (λ (t : ℕ). n * t) (div-div-eq-div-mul a 2 n),
)

-- `a & ((1 << k) - 1)` is the remainder, with the mask written as a variable.
pub bit_and_mask : (k m a : ℕ) → m + 1 ≡ 2 ^ k → bit_and a m ≡ a % 2 ^ k
bit_and_mask zero m a h = let e : m ≡ 0 = omega arith in rw e (omega (arith, bit_and-zero a))
bit_and_mask (suc k) m a h =
    let double : 2 ^ suc k ≡ 2 * 2 ^ k = omega (arith, pow-suc 2 k) in
    omega (
      arith,
      double,
      ap (λ (t : ℕ). a % t) double,
      bit_and_step a m,
      bit_and_mask k (m / 2) (a / 2) (omega (arith, pow-suc 2 k)),
      half_mod (2 ^ k) a,
    )

-- `(q << k) | r` is a sum when `r` fits `k` bits.
pub bit_or_sum : (k q r : ℕ) → r < 2 ^ k → bit_or (q * 2 ^ k) r ≡ q * 2 ^ k + r
bit_or_sum zero q r h = let e : r ≡ 0 = omega arith in rw e (omega (arith, bit_or-zero (q * 1)))
bit_or_sum (suc k) q r h =
    let e : q * 2 ^ suc k ≡ 2 * (q * 2 ^ k) = omega (arith, ap (λ (t : ℕ). q * t) (pow-suc 2 k)) in
    rw e (
      let half : 2 * (q * 2 ^ k) / 2 ≡ q * 2 ^ k = omega arith in
      omega (
        arith,
        ap (λ (t : ℕ). bit_or t (r / 2)) half,
        bit_or_step (2 * (q * 2 ^ k)) r,
        bit_or_sum k q (r / 2) (omega (arith, pow-suc 2 k)),
      ))

bit_and_double : (m a : ℕ) → bit_and a (2 * m) ≡ bit_and (a / 2) m * 2
bit_and_double m a =
    let half : 2 * m / 2 ≡ m = omega arith in
    let e = ap (λ (t : ℕ). bit_and (a / 2) t) half in omega (arith, e, bit_and_step a (2 * m))

-- A mask that is shifted up masks the shifted number.
pub bit_and_shift : (k m a : ℕ) → bit_and a (m * 2 ^ k) ≡ bit_and (a / 2 ^ k) m * 2 ^ k
bit_and_shift zero m a =
    let e : m * 1 ≡ m = omega arith in let d : a / 1 ≡ a = omega arith in rw (e, d) (omega arith)
bit_and_shift (suc k) m a =
    let two : 2 ^ suc k ≡ 2 * 2 ^ k = omega (arith, pow-suc 2 k) in
    let e : m * 2 ^ suc k ≡ 2 * (m * 2 ^ k) = omega (arith, ap (λ (t : ℕ). m * t) two) in
    let d : a / 2 ^ suc k ≡ a / 2 / 2 ^ k =
      ap (λ (t : ℕ). a / t) two ∙ sym (div-div-eq-div-mul a 2 (2 ^ k)) in
    rw (e, d, two) (omega (arith, bit_and_double (m * 2 ^ k) a, bit_and_shift k m (a / 2)))

bit_or_comm_fuel : (n a b : ℕ) → a ≤ n → b ≤ n → bit_or a b ≡ bit_or b a
bit_or_comm_fuel zero zero zero p q = refl
bit_or_comm_fuel zero (suc a) b p q = absurd (omega arith)
bit_or_comm_fuel zero zero (suc b) p q = absurd (omega arith)
bit_or_comm_fuel (suc n) a b p q = omega (
  arith,
  bit_or_step a b,
  bit_or_step b a,
  bit_or_comm_fuel n (a / 2) (b / 2) (omega arith) (omega arith),
)

pub bit_or_comm : (a b : ℕ) → bit_or a b ≡ bit_or b a
bit_or_comm a b = bit_or_comm_fuel (a + b) a b (omega arith) (omega arith)

pub digit-bit_or : (k a b : ℕ) → digit (bit_or a b) k ≡ max (digit a k) (digit b k)
unfolding digit
digit-bit_or zero a b = omega (arith, bit_or_step a b)
digit-bit_or (suc k) a b =
    let e : bit_or a b / 2 ≡ bit_or (a / 2) (b / 2) = omega (arith, bit_or_step a b) in
    rw e (digit-bit_or k (a / 2) (b / 2))

-- `a | (1 << k)` adds the bit where it is missing.
pub bit_or-pow : (k a : ℕ) → bit_or a (2 ^ k) ≡ a + (1 - digit a k) * 2 ^ k
unfolding digit
bit_or-pow zero a = omega (arith, bit_or_step a 1, bit_or-zero (a / 2))
bit_or-pow (suc k) a =
    let half : 2 ^ suc k / 2 ≡ 2 ^ k = omega (arith, pow-suc 2 k) in
    let even : 2 ^ suc k % 2 ≡ 0 = omega (arith, pow-suc 2 k) in
    let step : bit_or a (2 ^ suc k) ≡ 2 * bit_or (a / 2) (2 ^ k) + a % 2 =
      rw (← half) (omega (arith, bit_or_step a (2 ^ suc k), even)) in
    omega
      (arith, step, bit_or-pow k (a / 2), ap (λ (t : ℕ). (1 - digit (a / 2) k) * t) (pow-suc 2 k))
