-- ===== src/X86/Alu.antt =====
-- x86/alu.rs: the macro `alu_width`. Each method changes only the flags, so it is a function of its
-- operands and the flags, with the result and the flags after it.
pub mod Sums
pub mod Carries
pub mod Rotates
mod Tests
use remu.Prelude.{
  ℕ, zero, suc, ◌+◌, ◌-◌, ◌*◌, ◌/◌, ◌%◌, Bool, true, false, not, ◌&&◌, xor, ltb, ◌==◌,
  if◌then◌else◌, of_bool, test, bit_and, bit_or, bit_xor,
}
use remu.X86.Registers.{Flags}
use remu.X86.Width.{Width, modulus, sign, bit_count, wrap, wrapping_sub, set_szp}

-- `(a ^ b ^ r) & 0x10 != 0`
abbrev pub aux_carry : ℕ → ℕ → ℕ → Bool
aux_carry a b r = test (bit_xor (bit_xor a b) r) 0x10

-- `(a ^ r) & (b ^ r) & $sign != 0` and `(a ^ b) & (a ^ r) & $sign != 0`
abbrev pub add_overflow : Width → ℕ → ℕ → ℕ → Bool
add_overflow w a b r = test (bit_and (bit_xor a r) (bit_xor b r)) (sign w)

abbrev pub sub_overflow : Width → ℕ → ℕ → ℕ → Bool
sub_overflow w a b r = test (bit_and (bit_xor a b) (bit_xor a r)) (sign w)

unfoldable pub add : Width → ℕ → ℕ → Flags → ℕ × Flags
add w a b f =
    let r = wrap w (a + b) in
    (
      r,
      set_szp w r (record f {
        cf = ltb (modulus w - 1) (a + b);
        af = aux_carry a b r;
        oflag = add_overflow w a b r;
      }),
    )

unfoldable pub adc : Width → ℕ → ℕ → Flags → ℕ × Flags
adc w a b f =
    let c = of_bool f.cf in
    let r = wrap w (wrap w (a + b) + c) in
    (
      r,
      set_szp w r (record f {
        cf = ltb (modulus w - 1) (a + b + c);
        af = aux_carry a b r;
        oflag = add_overflow w a b r;
      }),
    )

unfoldable pub sub : Width → ℕ → ℕ → Flags → ℕ × Flags
sub w a b f =
    let r = wrapping_sub w a b in
    (r, set_szp w r (record f { cf = ltb a b; af = aux_carry a b r; oflag = sub_overflow w a b r }))

unfoldable pub sbb : Width → ℕ → ℕ → Flags → ℕ × Flags
sbb w a b f =
    let c = of_bool f.cf in
    let r = wrapping_sub w (wrapping_sub w a b) c in
    (
      r,
      set_szp w r
          (record f { cf = ltb a (b + c); af = aux_carry a b r; oflag = sub_overflow w a b r }),
    )

-- The common tail of the three logic methods.
abbrev logic : Width → ℕ → Flags → ℕ × Flags
logic w r f = (r, set_szp w r (record f { cf = false; oflag = false; af = false }))

unfoldable pub and : Width → ℕ → ℕ → Flags → ℕ × Flags
and w a b f = logic w (bit_and a b) f

unfoldable pub or : Width → ℕ → ℕ → Flags → ℕ × Flags
or w a b f = logic w (bit_or a b) f

unfoldable pub exclusive_or : Width → ℕ → ℕ → Flags → ℕ × Flags
exclusive_or w a b f = logic w (bit_xor a b) f

unfoldable pub inc : Width → ℕ → Flags → ℕ × Flags
inc w a f =
    let r = wrap w (a + 1) in
    (
      r,
      set_szp w r (record f {
        af = bit_and a 0xF == 0xF;
        oflag = test r (sign w) && not (test a (sign w));
      }),
    )

unfoldable pub dec : Width → ℕ → Flags → ℕ × Flags
dec w a f =
    let r = wrapping_sub w a 1 in
    (
      r,
      set_szp w r
          (record f { af = bit_and a 0xF == 0; oflag = test a (sign w) && not (test r (sign w)) }),
    )

unfoldable pub neg : Width → ℕ → Flags → ℕ × Flags
neg w a f =
    let r = wrapping_sub w 0 a in
    (
      r,
      set_szp w r
          (record f { cf = not (a == 0); af = not (bit_and a 0xF == 0); oflag = a == sign w }),
    )

-- One round of each shift loop, and the loop for `count` rounds.
abbrev pub times : (ℕ → Flags → ℕ × Flags) → ℕ → ℕ → Flags → ℕ × Flags
times round zero v f = (v, f)
times round (suc n) v f = let (v1, f1) = round v f in times round n v1 f1

abbrev pub shl_round : Width → ℕ → Flags → ℕ × Flags
shl_round w v f = (wrap w (v * 2), record f { cf = test v (sign w) })

abbrev pub shr_round : Width → ℕ → Flags → ℕ × Flags
shr_round w v f = (v / 2, record f { oflag = test v (sign w); cf = test v 1 })

-- `((v as $swide) >> 1) as $t` keeps the sign.
abbrev pub sar_round : Width → ℕ → Flags → ℕ × Flags
sar_round w v f = (v / 2 + (if test v (sign w) then sign w else 0), record f { cf = test v 1 })

abbrev pub rol_round : Width → ℕ → Flags → ℕ × Flags
rol_round w v f = let r = wrap w (v * 2) + v / sign w in (r, record f { cf = test r 1 })

abbrev pub ror_round : Width → ℕ → Flags → ℕ × Flags
ror_round w v f = (v / 2 + v % 2 * sign w, record f { cf = test v 1 })

abbrev pub rcl_round : Width → ℕ → Flags → ℕ × Flags
rcl_round w v f = (bit_or (wrap w (v * 2)) (of_bool f.cf), record f { cf = test v (sign w) })

abbrev pub rcr_round : Width → ℕ → Flags → ℕ × Flags
rcr_round w v f = (
  bit_or (v / 2) (of_bool f.cf * sign w),
  record f { oflag = xor (test v (sign w)) f.cf; cf = test v 1 },
)

-- What follows a loop: a count of zero leaves all alone.
abbrev after : (ℕ → Flags → Flags) → (ℕ → Flags → ℕ × Flags) → ℕ → ℕ → Flags → ℕ × Flags
after last round count v f =
    let (r, g) = times round count v f in if count == 0 then (v, f) else (r, last r g)

unfoldable pub shl : Width → ℕ → ℕ → Flags → ℕ × Flags
shl w v count f =
    after (λ r g. set_szp w r (record g { oflag = xor (test r (sign w)) g.cf; af = false }))
      (shl_round w) count v f

unfoldable pub shr : Width → ℕ → ℕ → Flags → ℕ × Flags
shr w v count f = after (λ r g. set_szp w r (record g { af = false })) (shr_round w) count v f

unfoldable pub sar : Width → ℕ → ℕ → Flags → ℕ × Flags
sar w v count f =
    after (λ r g. set_szp w r (record g { oflag = false; af = false })) (sar_round w) count v f

unfoldable pub rol : Width → ℕ → ℕ → Flags → ℕ × Flags
rol w v count f =
    after (λ r g. record g { oflag = xor (test r (sign w)) g.cf }) (rol_round w) count v f

unfoldable pub ror : Width → ℕ → ℕ → Flags → ℕ × Flags
ror w v count f =
    after (λ r g. record g { oflag = test (bit_xor r (wrap w (r * 2))) (sign w) }) (ror_round w)
      count v f

unfoldable pub rcl : Width → ℕ → ℕ → Flags → ℕ × Flags
rcl w v count f =
    after (λ r g. record g { oflag = xor (test r (sign w)) g.cf }) (rcl_round w) count v f

unfoldable pub rcr : Width → ℕ → ℕ → Flags → ℕ × Flags
rcr w v count f = after (λ r g. g) (rcr_round w) count v f
