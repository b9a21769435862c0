-- ===== src/X86/Div.antt =====
-- x86/div.rs: the macro `div_width`, CORD and its signed routines, and `div8`, `div16` and `aam`. A
-- routine that changes only the flags is a function of them; `Err(())` is none.
pub mod Rounds
pub mod Quotient
pub mod Unsigned
pub mod Signed
mod Tests
use remu.Prelude.{
  ℕ, zero, suc, ◌+◌, ◌-◌, ◌*◌, ◌/◌, ◌%◌, Bool, true, false, not, ◌&&◌, xor, Option, none, some, ltb,
  ◌==◌, if◌then◌else◌, of_bool, test, bit_or, u8,
}
use remu.X86.Registers.{Flags, Registers}
use remu.X86.Width.{Width, byte, wide, modulus, sign, bit_count, wrap, wrapping_sub, set_szp}
use remu.X86.Alu.{aux_carry, sub_overflow}

-- `sub8_fl` and `sub16_fl`: the difference, borrow, overflow and auxiliary carry.
abbrev pub sub_fl : Width → ℕ → ℕ → ℕ × Bool × Bool × Bool
sub_fl w a b = let r = wrapping_sub w a b in (r, ltb a b, sub_overflow w a b r, aux_carry a b r)

abbrev pub neg_v : Width → ℕ → ℕ × Bool
neg_v w v = (wrapping_sub w 0 v, not (v == 0))

abbrev pub rcl_v : Width → ℕ → Bool → ℕ × Bool
rcl_v w v carry = (bit_or (wrap w (v * 2)) (of_bool carry), test v (sign w))

abbrev pub is_some : {A : Type 0} → Option A → Bool
is_some none = false
is_some (some x) = true

-- The flags that a trial subtraction leaves.
unfoldable pub sub_flags : Width → ℕ → ℕ → Flags → Flags
sub_flags w a b f =
    let (sigma, carry, overflow, aux) = sub_fl w a b in
    set_szp w sigma (record f { af = aux; oflag = overflow; cf = carry })

-- The registers of the loop.
pub record Cord : Type 0 where
  pub tmpa : ℕ
  pub tmpc : ℕ
  pub carry : Bool
  pub flags : Flags

-- What a round does with the shifted high half `a`, whose carry out is `over`.
abbrev pub cord_subtract : Width → ℕ → ℕ → ℕ → Bool → Flags → Cord
cord_subtract w b c a true f = record {
  tmpa = wrapping_sub w a b;
  tmpc = c;
  carry = false;
  flags = f;
}
cord_subtract w b c a false f =
    let (sigma, borrow, overflow, aux) = sub_fl w a b in
    record {
      tmpa = if borrow then a else sigma;
      tmpc = c;
      carry = borrow;
      flags = sub_flags w a b f;
    }

unfoldable pub cord_round : Width → ℕ → Cord → Cord
cord_round w b s =
    let (c, carry) = rcl_v w s.tmpc s.carry in
    let (a, over) = rcl_v w s.tmpa carry in cord_subtract w b c a over s.flags

unfoldable pub cord_loop : Width → ℕ → ℕ → Cord → Cord
cord_loop w b zero s = s
cord_loop w b (suc n) s = cord_loop w b n (cord_round w b s)

-- The final rotations: the complemented quotient, the remainder and the range check.
abbrev pub cord_end : Width → Cord → ℕ × ℕ × Bool
cord_end w s = let (c, carry) = rcl_v w s.tmpc s.carry in (c, s.tmpa, (rcl_v w c carry).1)

unfoldable pub cord : Width → ℕ → ℕ → ℕ → Flags → Option (ℕ × ℕ × Bool) × Flags
cord w tmpa tmpb tmpc f =
    let carry = ltb tmpa tmpb in
    let start : Cord = record {
      tmpa = tmpa;
      tmpc = tmpc;
      carry = carry;
      flags = sub_flags w tmpa tmpb f;
    } in
    let s = cord_loop w tmpb (bit_count w) start in
    let result = cord_end w s in
    if carry then (some result, record (s.flags) { cf = result.2 }) else (none, start.flags)

-- The operands of a division and the sign of its result: `tmpa`, `tmpb`, `tmpc` and `neg`.
pub record Operands : Type 0 where
  pub tmpa : ℕ
  pub tmpb : ℕ
  pub tmpc : ℕ
  pub neg : Bool

-- `!v`
abbrev pub complement : Width → ℕ → ℕ
complement w v = modulus w - 1 - v

-- The dividend of two words negated.
abbrev pub negate_dividend : Width → Operands → Operands
negate_dividend w o =
    let (c, carry) = neg_v w o.tmpc in
    record o {
      tmpa = if carry then complement w o.tmpa else (neg_v w o.tmpa).0;
      tmpc = c;
      neg = not o.neg;
    }

abbrev pub negate_divisor : Width → Operands → Operands
negate_divisor w o = record o { tmpb = (neg_v w o.tmpb).0; neg = not o.neg }

unfoldable pub negate : Width → Operands → Bool → Flags → Operands × Flags
negate w o skip f =
    let p = if skip then o else negate_dividend w o in
    let carry = test p.tmpb (sign w) in
    (if carry then negate_divisor w p else p, record f { cf = carry })

unfoldable pub prediv : Width → Operands → Flags → Operands × Flags
prediv w o f = negate w o (not (test o.tmpa (sign w))) f

-- The remainder and the quotient, signs restored.
unfoldable pub postdiv : Width → ℕ → ℕ → ℕ → Bool → Bool → Flags → Option (ℕ × ℕ) × Flags
postdiv w tmpa tmpb tmpc carry neg f =
    let rem = if test tmpb (sign w) then (neg_v w tmpa).0 else tmpa in
    let sigma = if neg then wrap w (tmpc + 1) else complement w tmpc in
    if carry then (some (rem, sigma), record f { cf = false; oflag = false }) else (none, f)

-- What `div8` and `div16` do between CORD and the registers.
abbrev pub after_cord :
    Width → ℕ → Bool → Bool → Option (ℕ × ℕ × Bool) → Flags → Option (ℕ × ℕ) × Flags
after_cord w hi signed neg none f = (none, f)
after_cord w hi signed neg (some (c, a, carry)) f =
    if signed then postdiv w a hi c carry neg f else (some (a, complement w c), f)

-- The common part of `div8` and `div16`: the remainder and the quotient of two words.
unfoldable pub divide : Width → Option Bool → ℕ → ℕ → ℕ → Bool → Flags → Option (ℕ × ℕ) × Flags
divide w rep hi lo divisor signed f =
    let start : Operands = record {
      tmpa = hi;
      tmpb = divisor;
      tmpc = lo;
      neg = signed && is_some rep;
    } in
    let (o, g) = if signed then prediv w start f else (start, f) in
    let (result, h) = cord w o.tmpa o.tmpb o.tmpc g in after_cord w hi signed o.neg result h

-- The registers after `div8`, where the result tells if there was no fault.
abbrev pub store8 : Registers → Option (ℕ × ℕ) → Flags → Bool × Registers
store8 r none f = (false, record r { flags = f })
store8 r (some (rem, quot)) f = (true, record r { ax = bit_or (rem * 256) quot; flags = f })

unfoldable pub div8 : Option Bool → ℕ → Bool → Registers → Bool × Registers
div8 rep divisor signed r =
    let (result, f) = divide byte rep (u8 (r.ax / 256)) (u8 r.ax) divisor signed r.flags in
    store8 r result f

abbrev pub store16 : Registers → Option (ℕ × ℕ) → Flags → Bool × Registers
store16 r none f = (false, record r { flags = f })
store16 r (some (rem, quot)) f = (true, record r { ax = quot; dx = rem; flags = f })

unfoldable pub div16 : Option Bool → ℕ → Bool → Registers → Bool × Registers
div16 rep divisor signed r =
    let (result, f) = divide wide rep r.dx r.ax divisor signed r.flags in store16 r result f

-- The registers after `aam`.
abbrev pub store_aam : Registers → Option (ℕ × ℕ × Bool) → Flags → Bool × Registers
store_aam r (some (c, a, carry)) f = (
  true,
  record r {
    ax = bit_or (complement byte c * 256) a;
    flags = record (set_szp byte a f) { cf = false; af = false; oflag = false };
  },
)
store_aam r none f = (
  false,
  record r { flags = record (set_szp byte 0 f) { cf = false; af = false; oflag = false } },
)

unfoldable pub aam : ℕ → Registers → Bool × Registers
aam base r = let (result, f) = cord byte 0 base (u8 r.ax) r.flags in store_aam r result f
