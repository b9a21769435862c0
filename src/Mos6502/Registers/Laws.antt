-- ===== src/Mos6502/Registers/Laws.antt =====
-- The status register as a byte.
use remu.Prelude.{
  ℕ, ◌+◌, ◌-◌, ◌*◌, ◌/◌, ◌%◌, ◌<◌, ◌≡◌, refl, arith, Bool, true, false, ◌&&◌, of_bool, of_bool-lt,
  of_bool-eq_one, of_bool-odd, ◌==◌, not8, bit_and, bit_or, test_below, test_below-true,
}
use remu.Mos6502.Registers.{Status, bits, from_bits}

pub bits-lt : (p : Status) → bits p < 256
unfolding bits
bits-lt p = ground arith

-- Each flag is a digit of the byte.
digits_bits :
    (p : Status)
    → (bits p % 2 ≡ of_bool p.c)
      × (bits p / 2 % 2 ≡ of_bool p.z)
      × (bits p / 4 % 2 ≡ of_bool p.i)
      × (bits p / 8 % 2 ≡ of_bool p.d)
      × (bits p / 16 % 2 ≡ of_bool p.b)
      × (bits p / 32 % 2 ≡ of_bool p.u)
      × (bits p / 64 % 2 ≡ of_bool p.v)
      × (bits p / 128 % 2 ≡ of_bool p.n)
unfolding bits
digits_bits p = omega (
  arith,
  of_bool-lt p.c,
  of_bool-lt p.z,
  of_bool-lt p.i,
  of_bool-lt p.d,
  of_bool-lt p.b,
  of_bool-lt p.u,
  of_bool-lt p.v,
  of_bool-lt p.n,
)

flag_of_digit : (n : ℕ) (b : Bool) → n ≡ of_bool b → (n == 1) ≡ b
flag_of_digit n b h = rw h (of_bool-eq_one b)

-- The flags are read back from the byte that they make.
pub from_bits-bits : (p : Status) → from_bits (bits p) ≡ p
unfolding from_bits
from_bits-bits p =
    let h = digits_bits p in
    λ k. record {
      c = flag_of_digit _ p.c h.0 k;
      z = flag_of_digit _ p.z h.1 k;
      i = flag_of_digit _ p.i h.2 k;
      d = flag_of_digit _ p.d h.3 k;
      b = flag_of_digit _ p.b h.4 k;
      u = flag_of_digit _ p.u h.5 k;
      v = flag_of_digit _ p.v h.6 k;
      n = flag_of_digit _ p.n h.7 k;
    }

-- A byte is made again by the flags that are read from it.
pub bits-from_bits : (w : ℕ) → w < 256 → bits (from_bits w) ≡ w
unfolding from_bits bits
bits-from_bits w h = omega (
  arith,
  of_bool-odd w,
  of_bool-odd (w / 2),
  of_bool-odd (w / 4),
  of_bool-odd (w / 8),
  of_bool-odd (w / 16),
  of_bool-odd (w / 32),
  of_bool-odd (w / 64),
  of_bool-odd (w / 128),
)

-- `v | 0x20`, `v | 0x10` and `v & !0x10` for a byte.
mask_table :
    test_below
      (λ v.
        (bit_or v 0x20 == v + 32 - v / 32 % 2 * 32)
        && (bit_or v 0x10 == v + 16 - v / 16 % 2 * 16)
        && (bit_and v 0xEF == v - v / 16 % 2 * 16))
      256
    ≡ true
unfolding test_below
mask_table = refl

pub status_masks :
    (v : ℕ)
    → v < 256
    → (bit_or v 0x20 ≡ v + 32 - v / 32 % 2 * 32)
      × (bit_or v 0x10 ≡ v + 16 - v / 16 % 2 * 16)
      × (bit_and v 0xEF ≡ v - v / 16 % 2 * 16)
status_masks v h = ground (arith, test_below-true _ 256 mask_table v h)

bits_update :
    (p : Status) (x : Bool)
    → bits (record p { u = true; b = x }) + of_bool p.u * 32 + of_bool p.b * 16
      ≡ bits p + 32 + of_bool x * 16
unfolding bits
bits_update p x = omega arith

-- The three masks of the source, on a byte.
or_and_or :
    (w : ℕ)
    → w < 256
    → (bit_or (bit_or w 0x20) 0x10 + w / 32 % 2 * 32 + w / 16 % 2 * 16 ≡ w + 48)
      × (bit_and (bit_or w 0x20) 0xEF + w / 32 % 2 * 32 + w / 16 % 2 * 16 ≡ w + 32)
or_and_or w h =
    let m = status_masks w h in
    let m' = status_masks (bit_or w 0x20) (omega (arith, m.0)) in
    (omega (arith, m.0, m'.1), omega (arith, m.0, m'.2))

-- The byte that is pushed: `U` set, and `B` as the instruction says.
pub pushed_set :
    (p : Status) → bit_or (bit_or (bits p) 0x20) 0x10 ≡ bits (record p { u = true; b = true })
pushed_set p = omega (arith, or_and_or (bits p) (bits-lt p), bits_update p true, digits_bits p)

pub pushed_clear :
    (p : Status)
    → bit_and (bit_or (bits p) 0x20) (not8 0x10) ≡ bits (record p { u = true; b = false })
pushed_clear p = omega (arith, or_and_or (bits p) (bits-lt p), bits_update p false, digits_bits p)

-- The flags that a pulled byte stands for.
pub pulled :
    (w : ℕ)
    → w < 256
    → from_bits (bit_and (bit_or w 0x20) (not8 0x10)) ≡ record (from_bits w) { u = true; b = false }
pulled w h =
    let p = from_bits w in
    let e : bits p ≡ w = bits-from_bits w h in
    rw (← e) (rw pushed_clear (rw from_bits-bits (rw from_bits-bits)))
