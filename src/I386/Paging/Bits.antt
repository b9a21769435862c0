-- ===== src/I386/Paging/Bits.antt =====
-- The bits of the entries of the page tables: tests of the combined entries, the frame's address,
-- and the marks that a walk sets.
use remu.Prelude.{
  ℕ, ◌+◌, ◌-◌, ◌*◌, ◌/◌, ◌%◌, ◌≤◌, ◌≡◌, refl, ap, arith, Bool, true, false, ◌&&◌, ◌==◌, u32, test,
  bit_and, bit_or, ◌∙◌,
}
use remu.Prelude.Bits.{
  digit, digit-lt, digit-bit_and, bit_and-pow, bit_or-pow, bit_and_mask, bit_and_shift, digit_six,
}
use remu.Prelude.Masks.{test-0x01, test-0x40}
use remu.I386.Pte
use remu.I386.Paging.{both, marked}

digit_one : (v : ℕ) → digit v 1 ≡ v / 2 % 2
unfolding digit
digit_one v = refl

digit_two : (v : ℕ) → digit v 2 ≡ v / 4 % 2
unfolding digit
digit_two v = omega arith

digit_five : (v : ℕ) → digit v 5 ≡ v / 32 % 2
unfolding digit
digit_five v = omega arith

test-0x02 : (v : ℕ) → test v 0x02 ≡ (v / 2 % 2 == 1)
unfolding test
test-0x02 v = ground (arith, bit_and-pow 1 v, digit-lt v 1, digit_one v)

test-0x04 : (v : ℕ) → test v 0x04 ≡ (v / 4 % 2 == 1)
unfolding test
test-0x04 v = ground (arith, bit_and-pow 2 v, digit-lt v 2, digit_two v)

test-0x20 : (v : ℕ) → test v 0x20 ≡ (v / 32 % 2 == 1)
unfolding test
test-0x20 v = ground (arith, bit_and-pow 5 v, digit-lt v 5, digit_five v)

-- A bit of the combined entries is a bit of both.
pub both-us : (p q : ℕ) → both p q Pte.us ≡ (test p Pte.us && test q Pte.us)
unfolding both
both-us p q = ground (
  arith,
  test-0x04 (bit_and p q),
  test-0x04 p,
  test-0x04 q,
  digit-bit_and 2 p q,
  digit_two (bit_and p q),
  digit_two p,
  digit_two q,
)

pub both-rw : (p q : ℕ) → both p q Pte.rw ≡ (test p Pte.rw && test q Pte.rw)
unfolding both
both-rw p q = ground (
  arith,
  test-0x02 (bit_and p q),
  test-0x02 p,
  test-0x02 q,
  digit-bit_and 1 p q,
  digit_one (bit_and p q),
  digit_one p,
  digit_one q,
)

pub frame_lem : (v : ℕ) → bit_and v 0xFFFFF000 ≡ v / 4096 % 1048576 * 4096
frame_lem v =
    bit_and_shift 12 0xFFFFF v
    ∙ ap (λ (t : ℕ). t * 4096) (bit_and_mask 20 0xFFFFF (v / 4096) (omega arith))

or_accessed : (v : ℕ) → bit_or v Pte.a ≡ v + (1 - v / 32 % 2) * 32
or_accessed v = bit_or-pow 5 v ∙ ap (λ (t : ℕ). v + (1 - t) * 32) (digit_five v)

or_dirty : (v : ℕ) → bit_or v Pte.d ≡ v + (1 - v / 64 % 2) * 64
or_dirty v = bit_or-pow 6 v ∙ ap (λ (t : ℕ). v + (1 - t) * 64) (digit_six v)

-- The second word is the first in all of its 32 bits but the accessed and the dirty one, which may
-- have been set.
pub record IsMarked (v w : ℕ) : Type 0 where
  pub low : v % 32 ≡ w % 32
  pub high : v / 128 % 33554432 ≡ w / 128 % 33554432
  pub accessed : test v Pte.a ≡ true → test w Pte.a ≡ true
  pub dirty : test v Pte.d ≡ true → test w Pte.d ≡ true

pub IsMarked-refl : (v : ℕ) → IsMarked v v
IsMarked-refl v = record { low = refl; high = refl; accessed = λ h. h; dirty = λ h. h }

pub IsMarked-trans : (u v w : ℕ) → IsMarked u v → IsMarked v w → IsMarked u w
IsMarked-trans u v w f g = record {
  low = f.low ∙ g.low;
  high = f.high ∙ g.high;
  accessed = λ h. g.accessed (f.accessed h);
  dirty = λ h. g.dirty (f.dirty h);
}

-- What a marked word says: the frame's address, and the bits of the protection.
pub frame_kept : {v w : ℕ} → IsMarked v w → bit_and v 0xFFFFF000 ≡ bit_and w 0xFFFFF000
frame_kept {v} {w} m = omega (arith, frame_lem v, frame_lem w, m.high)

pub present_kept : {v w : ℕ} → IsMarked v w → test v Pte.p ≡ test w Pte.p
present_kept {v} {w} m = ground (arith, test-0x01 v, test-0x01 w, m.low)

pub writable_kept : {v w : ℕ} → IsMarked v w → test v Pte.rw ≡ test w Pte.rw
writable_kept {v} {w} m = ground (arith, test-0x02 v, test-0x02 w, m.low)

pub user_kept : {v w : ℕ} → IsMarked v w → test v Pte.us ≡ test w Pte.us
user_kept {v} {w} m = ground (arith, test-0x04 v, test-0x04 w, m.low)

-- Two words with the same bits but the marks.
IsMarked-bits :
    (v w : ℕ)
    → v / 128 % 33554432 ≡ w / 128 % 33554432
    → v % 32 ≡ w % 32
    → v / 32 % 2 ≤ w / 32 % 2
    → v / 64 % 2 ≤ w / 64 % 2
    → IsMarked v w
IsMarked-bits v w f l a d = record {
  low = l;
  high = f;
  accessed = λ h. ground (arith, test-0x20 v, test-0x20 w, h);
  dirty = λ h. ground (arith, test-0x40 v, test-0x40 w, h);
}

pub IsMarked-u32 : (v : ℕ) → IsMarked v (u32 v)
IsMarked-u32 v = IsMarked-bits v (u32 v) (omega arith) (omega arith) (omega arith) (omega arith)

pub IsMarked-accessed : (v : ℕ) → IsMarked v (bit_or v Pte.a)
IsMarked-accessed v =
    let e = or_accessed v in
    IsMarked-bits v (bit_or v Pte.a) (omega arith) (omega arith) (omega arith) (omega arith)

IsMarked-dirty : (v : ℕ) → IsMarked v (bit_or v Pte.d)
IsMarked-dirty v =
    let e = or_dirty v in
    IsMarked-bits v (bit_or v Pte.d) (omega arith) (omega arith) (omega arith) (omega arith)

pub test-accessed : (v : ℕ) → test (bit_or v Pte.a) Pte.a ≡ true
test-accessed v = let e = or_accessed v in ground (arith, test-0x20 (bit_or v Pte.a))

test-dirty : (v : ℕ) → test (bit_or v Pte.d) Pte.d ≡ true
test-dirty v = let e = or_dirty v in ground (arith, test-0x40 (bit_or v Pte.d))

-- The accessed bit alone leaves the dirty one.
pub accessed-dirty : (v : ℕ) → test (u32 (bit_or v Pte.a)) Pte.d ≡ test v Pte.d
accessed-dirty v =
    let e = or_accessed v in ground (arith, test-0x40 (u32 (bit_or v Pte.a)), test-0x40 v)

-- What an access sets.
pub IsMarked-marked : (write : Bool) (v : ℕ) → IsMarked v (marked write v)
IsMarked-marked true v =
    IsMarked-trans v (bit_or v Pte.a) (bit_or (bit_or v Pte.a) Pte.d) (IsMarked-accessed v)
      (IsMarked-dirty (bit_or v Pte.a))
IsMarked-marked false v = IsMarked-accessed v

pub marked-accessed : (write : Bool) (v : ℕ) → test (marked write v) Pte.a ≡ true
marked-accessed true v = (IsMarked-dirty (bit_or v Pte.a)).accessed (test-accessed v)
marked-accessed false v = test-accessed v

pub marked-dirty : (v : ℕ) → test (marked true v) Pte.d ≡ true
marked-dirty v = test-dirty (bit_or v Pte.a)
