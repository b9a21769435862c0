-- ===== src/Mos6502/Alu/Rotate.antt =====
-- Shifts and rotates as arithmetic, with the carry as a ninth bit.
use remu.Prelude.{ℕ, ◌+◌, ◌*◌, ◌/◌, ◌%◌, ◌<◌, ◌≡◌, arith, Bool, of_bool, of_bool-lt, bit_or, ◌∙◌}
use remu.Prelude.Bits.{bit_or_sum, bit_or_comm, bit_or-lt}
use remu.Prelude.Masks.{test-0x80, test-0x01}
use remu.Mos6502.Registers.{Registers, set_zn}
use remu.Mos6502.Alu.{asl_val, lsr_val, rol_val, ror_val}

or_low : (v c : ℕ) → c < 2 → bit_or (v * 2 % 256) c ≡ v * 2 % 256 + c
or_low v c h = let e : v * 2 % 256 ≡ v % 128 * 2 = omega arith in rw e (bit_or_sum 1 (v % 128) c h)

or_high : (v c : ℕ) → v < 256 → bit_or (v / 2) (c * 128) ≡ c * 128 + v / 2
or_high v c h = bit_or_comm (v / 2) (c * 128) ∙ bit_or_sum 7 c (v / 2) (omega arith)

-- The four shifts, on a byte `v`: a left shift doubles, with the old carry below for a rotate and the
-- new carry as 256; a right shift halves, with the old carry as 256 for a rotate and the new carry as
-- the remainder.
pub shift_values :
    (v : ℕ) (r : Registers)
    → v < 256
    → ((asl_val v r).0 + 256 * of_bool (asl_val v r).1.p.c ≡ 2 * v)
      × (2 * (lsr_val v r).0 + of_bool (lsr_val v r).1.p.c ≡ v)
      × ((rol_val v r).0 + 256 * of_bool (rol_val v r).1.p.c ≡ 2 * v + of_bool r.p.c)
      × (2 * (ror_val v r).0 + of_bool (ror_val v r).1.p.c ≡ v + 256 * of_bool r.p.c)
unfolding asl_val lsr_val rol_val ror_val set_zn
shift_values v r h = (
  rw test-0x80 (ground arith),
  rw test-0x01 (ground arith),
  rw (test-0x80, or_low v (of_bool r.p.c) (of_bool-lt r.p.c)) (ground arith),
  rw (test-0x01, or_high v (of_bool r.p.c) h) (ground arith),
)

rotate_right_value :
    (x v : ℕ) (d c : Bool) → 2 * x + of_bool d ≡ 2 * v + of_bool c → (x ≡ v) × (d ≡ c)
rotate_right_value x v d c h = ground arith

rotate_left_value :
    (x v : ℕ) (d c : Bool)
    → x < 256
    → v < 256
    → x + 256 * of_bool d ≡ v + 256 * of_bool c
    → (x ≡ v) × (d ≡ c)
rotate_left_value x v d c hx hv h = ground arith

rol_val-lt : (v : ℕ) (r : Registers) → (rol_val v r).0 < 256
unfolding rol_val
rol_val-lt v r = bit_or-lt 8 _ _ (omega arith) (omega (arith, of_bool-lt r.p.c))

ror_val-lt : (v : ℕ) (r : Registers) → v < 256 → (ror_val v r).0 < 256
unfolding ror_val
ror_val-lt v r h = bit_or-lt 8 _ _ (omega arith) (omega (arith, of_bool-lt r.p.c))

-- On a byte, `ROR` undoes `ROL`, and `ROL` undoes `ROR`: the byte and the carry come back.
pub rotate_inverse :
    (v : ℕ) (r : Registers)
    → v < 256
    → (let (w, s) = rol_val v r in let (x, t) = ror_val w s in (x ≡ v) × (t.p.c ≡ r.p.c))
      × (let (w, s) = ror_val v r in let (x, t) = rol_val w s in (x ≡ v) × (t.p.c ≡ r.p.c))
rotate_inverse v r h =
    let left = rol_val v r in
    let right = ror_val v r in
    let hr = ror_val-lt v r h in
    let first = shift_values v r h in
    (
      rotate_right_value _ v _ r.p.c ((shift_values left.0 left.1 (rol_val-lt v r)).3 ∙ first.2),
      rotate_left_value _ v _ r.p.c (rol_val-lt right.0 right.1) h
          ((shift_values right.0 right.1 hr).2 ∙ first.3),
    )
