-- ===== src/Prelude/Fields.antt =====
-- Fields of a number: masks with ones below a shifted part, and a shifted part put into a number.
use Prim.Native.Nat.{ℕ, zero, suc, ◌+◌, ◌*◌, ◌/◌, ◌%◌, ◌^◌, bit_and, bit_or}
use mathlib.Core.Path.{◌≡◌, ap, sym, ◌∙◌}
use native.Mathlib.Nat.{div-div-eq-div-mul, pow-suc}
use native.Mathlib.Omega.{arith}
use remu.Prelude.Bits.{bit_and_step, bit_or_step, half_mod}

-- A mask of ones below a shifted mask.
pub bit_and_ones :
    (k m n a : ℕ)
    → n + 1 ≡ 2 ^ k
    → bit_and a (m * 2 ^ k + n) ≡ bit_and (a / 2 ^ k) m * 2 ^ k + a % 2 ^ k
bit_and_ones zero m n a h =
    let e : n ≡ 0 = omega arith in
    let one : m * 1 + 0 ≡ m = omega arith in
    let d : a / 1 ≡ a = omega arith in rw (e, one, d) (omega arith)
bit_and_ones (suc k) m n a h =
    let two : 2 ^ suc k ≡ 2 * 2 ^ k = omega (arith, pow-suc 2 k) in
    let half = n / 2 in
    let low : half + 1 ≡ 2 ^ k = omega (arith, two) in
    let e : m * 2 ^ suc k + n ≡ 2 * (m * 2 ^ k + half) + 1 =
      omega (arith, two, ap (λ (t : ℕ). m * t) two) in
    let d : a / 2 ^ suc k ≡ a / 2 / 2 ^ k =
      ap (λ (t : ℕ). a / t) two ∙ sym (div-div-eq-div-mul a 2 (2 ^ k)) in
    let whole : (2 * (m * 2 ^ k + half) + 1) / 2 ≡ m * 2 ^ k + half = omega arith in
    let step = bit_and_step a (2 * (m * 2 ^ k + half) + 1) in
    let inner = ap (λ (t : ℕ). bit_and (a / 2) t) whole ∙ bit_and_ones k m half (a / 2) low in
    rw (e, d, two) (omega (arith, step, inner, half_mod (2 ^ k) a))

-- A shifted number put into one.
pub bit_or_shift : (k q a : ℕ) → bit_or a (q * 2 ^ k) ≡ bit_or (a / 2 ^ k) q * 2 ^ k + a % 2 ^ k
bit_or_shift zero q a =
    let one : q * 1 ≡ q = omega arith in
    let d : a / 1 ≡ a = omega arith in rw (one, d) (omega arith)
bit_or_shift (suc k) q a =
    let two : 2 ^ suc k ≡ 2 * 2 ^ k = omega (arith, pow-suc 2 k) in
    let e : q * 2 ^ suc k ≡ 2 * (q * 2 ^ k) = omega (arith, ap (λ (t : ℕ). q * t) two) in
    let d : a / 2 ^ suc k ≡ a / 2 / 2 ^ k =
      ap (λ (t : ℕ). a / t) two ∙ sym (div-div-eq-div-mul a 2 (2 ^ k)) in
    let whole : 2 * (q * 2 ^ k) / 2 ≡ q * 2 ^ k = omega arith in
    let step = bit_or_step a (2 * (q * 2 ^ k)) in
    let inner = ap (λ (t : ℕ). bit_or (a / 2) t) whole ∙ bit_or_shift k q (a / 2) in
    rw (e, d, two) (omega (arith, step, inner, half_mod (2 ^ k) a))
