-- ===== src/I386/Alu.antt =====
-- x86_32/alu.rs: the macro `alu_width`, with the width as an argument. Each method changes only the
-- flags, so it is a function of its operands and the flags, with the result and the flags after it.
pub mod Sums
pub mod Carries
use remu.Prelude.{
  ℕ, zero, suc, ◌+◌, ◌-◌, ◌*◌, ◌/◌, ◌%◌, ◌^◌, Bool, true, false, not, ◌&&◌, xor, ltb, ◌==◌,
  if◌then◌else◌, of_bool, test, bit_and, bit_or, bit_xor,
}
use remu.I386.EFlags.{EFlags, set_szp}
use remu.I386.Width.{Width, modulus, sign, bit_count, wrap, wrapping_sub, rotate_left, rotate_right}

-- `(a ^ b ^ r) & 0x10 != 0`
abbrev pub aux_carry : ℕ → ℕ → ℕ → Bool
aux_carry a b r = test (bit_xor (bit_xor a b) r) 0x10

-- `(a ^ r) & (b ^ r) & $sign != 0` and `(a ^ b) & (a ^ r) & $sign != 0`
abbrev pub add_overflow : Width → ℕ → ℕ → ℕ → Bool
add_overflow w a b r = test (bit_and (bit_xor a r) (bit_xor b r)) (sign w)

abbrev pub sub_overflow : Width → ℕ → ℕ → ℕ → Bool
sub_overflow w a b r = test (bit_and (bit_xor a b) (bit_xor a r)) (sign w)

unfoldable pub add : Width → ℕ → ℕ → EFlags → ℕ × EFlags
add w a b f =
    let r = wrap w (a + b) in
    (
      r,
      set_szp (sign w) r
          (record f { cf = ltb r a; af = aux_carry a b r; oflag = add_overflow w a b r }),
    )

unfoldable pub adc : Width → ℕ → ℕ → EFlags → ℕ × EFlags
adc w a b f =
    let c = of_bool f.cf in
    let r = wrap w (wrap w (a + b) + c) in
    (
      r,
      set_szp (sign w) r (record f {
        cf = ltb (modulus w - 1) (a + b + c);
        af = aux_carry a b r;
        oflag = add_overflow w a b r;
      }),
    )

unfoldable pub sub : Width → ℕ → ℕ → EFlags → ℕ × EFlags
sub w a b f =
    let r = wrapping_sub w a b in
    (
      r,
      set_szp (sign w) r
          (record f { cf = ltb a b; af = aux_carry a b r; oflag = sub_overflow w a b r }),
    )

unfoldable pub sbb : Width → ℕ → ℕ → EFlags → ℕ × EFlags
sbb w a b f =
    let c = of_bool f.cf in
    let r = wrapping_sub w (wrapping_sub w a b) c in
    (
      r,
      set_szp (sign w) r
          (record f { cf = ltb a (b + c); af = aux_carry a b r; oflag = sub_overflow w a b r }),
    )

-- The common tail of the three logic methods.
abbrev logic : Width → ℕ → EFlags → ℕ × EFlags
logic w r f = (r, set_szp (sign w) r (record f { cf = false; oflag = false; af = false }))

unfoldable pub and : Width → ℕ → ℕ → EFlags → ℕ × EFlags
and w a b f = logic w (bit_and a b) f

unfoldable pub or : Width → ℕ → ℕ → EFlags → ℕ × EFlags
or w a b f = logic w (bit_or a b) f

unfoldable pub exclusive_or : Width → ℕ → ℕ → EFlags → ℕ × EFlags
exclusive_or w a b f = logic w (bit_xor a b) f

unfoldable pub inc : Width → ℕ → EFlags → ℕ × EFlags
inc w a f =
    let r = wrap w (a + 1) in
    (r, set_szp (sign w) r (record f { af = bit_and a 0xF == 0xF; oflag = r == sign w }))

unfoldable pub dec : Width → ℕ → EFlags → ℕ × EFlags
dec w a f =
    let r = wrapping_sub w a 1 in
    (r, set_szp (sign w) r (record f { af = bit_and a 0xF == 0; oflag = a == sign w }))

unfoldable pub neg : Width → ℕ → EFlags → ℕ × EFlags
neg w a f =
    let r = wrapping_sub w 0 a in
    (
      r,
      set_szp (sign w) r
          (record f { cf = not (a == 0); af = not (bit_and a 0xF == 0); oflag = a == sign w }),
    )

-- A shift or a rotation by the count's low five bits; a count of zero leaves all alone.
abbrev by_count : ℕ → ℕ → EFlags → (ℕ → ℕ × EFlags) → ℕ × EFlags
by_count v count f shift = let n = bit_and count 31 in if n == 0 then (v, f) else shift n

unfoldable pub shl : Width → ℕ → ℕ → EFlags → ℕ × EFlags
shl w v count f = by_count v count f (λ n.
    let whole = v * 2 ^ n in
    let r = wrap w whole in
    let cf = if n % bit_count w == 0 then test v 1 else test (whole / modulus w) 1 in
    (r, set_szp (sign w) r (record f { cf = cf; oflag = xor (test r (sign w)) cf; af = false })))

unfoldable pub shr : Width → ℕ → ℕ → EFlags → ℕ × EFlags
shr w v count f = by_count v count f (λ n.
    let r = v / 2 ^ n in
    let cf = if n % bit_count w == 0 then test v (sign w) else test (v / 2 ^ (n - 1)) 1 in
    (
      r,
      set_szp (sign w) r
          (record f { cf = cf; oflag = test (v / 2 ^ (n - 1)) (sign w); af = false }),
    ))

-- `sx >> n`, the shift of the word with its sign, plus a multiple of the modulus that keeps it a
-- number.
abbrev pub signed_shift : Width → ℕ → ℕ → ℕ
signed_shift w v n = (if test v (sign w) then v + (2 ^ n - 1) * modulus w else v) / 2 ^ n

unfoldable pub sar : Width → ℕ → ℕ → EFlags → ℕ × EFlags
sar w v count f = by_count v count f (λ n.
    let r = wrap w (signed_shift w v n) in
    (
      r,
      set_szp (sign w) r
          (record f { cf = test (signed_shift w v (n - 1)) 1; oflag = false; af = false }),
    ))

unfoldable pub rol : Width → ℕ → ℕ → EFlags → ℕ × EFlags
rol w v count f = by_count v count f (λ n.
    let r = rotate_left w v (n % bit_count w) in
    let cf = test r 1 in (r, record f { cf = cf; oflag = xor (test r (sign w)) cf }))

unfoldable pub ror : Width → ℕ → ℕ → EFlags → ℕ × EFlags
ror w v count f = by_count v count f (λ n.
    let r = rotate_right w v (n % bit_count w) in
    (r, record f { cf = test r (sign w); oflag = test (bit_xor r (wrap w (r * 2))) (sign w) }))

-- One round of the loops of `rcl` and `rcr`, and a loop of `n` rounds.
abbrev pub rcl_round : Width → ℕ → EFlags → ℕ × EFlags
rcl_round w v f = (bit_or (wrap w (v * 2)) (of_bool f.cf), record f { cf = test v (sign w) })

abbrev pub rcr_round : Width → ℕ → EFlags → ℕ × EFlags
rcr_round w v f = (
  bit_or (v / 2) (of_bool f.cf * sign w),
  record f { oflag = xor (test v (sign w)) f.cf; cf = test v 1 },
)

abbrev pub times : (ℕ → EFlags → ℕ × EFlags) → ℕ → ℕ → EFlags → ℕ × EFlags
times round zero v f = (v, f)
times round (suc n) v f = let (v1, f1) = round v f in times round n v1 f1

unfoldable pub rcl : Width → ℕ → ℕ → EFlags → ℕ × EFlags
rcl w v count f = by_count v count f (λ n.
    let (r, g) = times (rcl_round w) n v f in (r, record g { oflag = xor (test r (sign w)) g.cf }))

unfoldable pub rcr : Width → ℕ → ℕ → EFlags → ℕ × EFlags
rcr w v count f = by_count v count f (λ n. times (rcr_round w) n v f)
