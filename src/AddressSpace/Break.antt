-- ===== src/AddressSpace/Break.antt =====
-- `set_brk`: the break stays in its area, and the heap below it is mapped.
use remu.Prelude.{
  ℕ, ◌+◌, ◌-◌, ◌≤◌, ◌<◌, ◌≡◌, refl, arith, Bool, true, false, ◌||◌, ltb, ◌==◌, Bool-cases, inl, inr,
}
use remu.AddressSpace.{AddressSpace, mmap_base}
use remu.AddressSpace.Map.{map, is_mapped, set_brk}
use remu.AddressSpace.Mapped.{map-is_mapped}

map-brk_base : (addr len : ℕ) (s : AddressSpace) → (map addr len s).brk_base ≡ s.brk_base
unfolding map
map-brk_base addr len s = elim (Bool-cases (len == 0)) [ inl e ↦ rw e refl | inr e ↦ rw e refl ]

refused : ℕ → AddressSpace → Bool
refused new s = ltb new s.brk_base || ltb mmap_base new

set_brk-refused : (new : ℕ) (s : AddressSpace) → refused new s ≡ true → set_brk new s ≡ (s.brk, s)
unfolding set_brk refused
set_brk-refused new s e = rw e refl

set_brk_grown :
    (new : ℕ) (s : AddressSpace)
    → refused new s ≡ false
    → ltb s.brk new ≡ true
    → set_brk new s ≡ (new, record (map s.brk (new - s.brk) s) { brk = new })
unfolding set_brk refused
set_brk_grown new s e g = rw (e, g) refl

set_brk_shrunk :
    (new : ℕ) (s : AddressSpace)
    → refused new s ≡ false
    → ltb s.brk new ≡ false
    → set_brk new s ≡ (new, record s { brk = new })
unfolding set_brk refused
set_brk_shrunk new s e g = rw (e, g) refl

in_area :
    (new : ℕ) (s : AddressSpace) → refused new s ≡ false → (s.brk_base ≤ new) × (new ≤ mmap_base)
unfolding refused
in_area new s e = ground arith

-- On every branch `set_brk` returns the break that it leaves, and a break between the end of the
-- image and the `mmap` area stays there, the end of the image being unchanged.
pub set_brk_area :
    (new : ℕ) (s : AddressSpace)
    → s.brk_base ≤ s.brk
    → s.brk ≤ mmap_base
    → let (r, t) = set_brk new s in
      (r ≡ t.brk) × (t.brk_base ≡ s.brk_base) × (s.brk_base ≤ t.brk) × (t.brk ≤ mmap_base)
set_brk_area new s low high = elim (Bool-cases (refused new s)) [
  | inl e ↦ rw (set_brk-refused new s e) (refl, refl, low, high)
  | inr e ↦
      let area = in_area new s e in
      elim (Bool-cases (ltb s.brk new)) [
        | inl g ↦
            rw (set_brk_grown new s e g) (refl, map-brk_base s.brk (new - s.brk) s, area.0, area.1)
        | inr g ↦ rw (set_brk_shrunk new s e g) (refl, refl, area.0, area.1)
      ]
]

-- What lies between the old break and the one that `set_brk` returns is mapped.
pub set_brk-is_mapped :
    (new a : ℕ) (s : AddressSpace)
    → s.brk ≤ a
    → a < (set_brk new s).0
    → is_mapped a (set_brk new s).1 ≡ true
set_brk-is_mapped new a s low high = elim (Bool-cases (refused new s)) [
  | inl e ↦
      let r : (set_brk new s).0 ≡ s.brk = rw (set_brk-refused new s e) refl in
      absurd (omega (arith, r))
  | inr e ↦
      let area = in_area new s e in
      elim (Bool-cases (ltb s.brk new)) [
        | inl g ↦
            let r : (set_brk new s).0 ≡ new = rw (set_brk_grown new s e g) refl in
            let upper = area.1 in
            let inside : a < s.brk + (new - s.brk) = omega (arith, r) in
            rw (set_brk_grown new s e g)
              (map-is_mapped s.brk (new - s.brk) a s low inside (omega arith))
        | inr g ↦
            let r : (set_brk new s).0 ≡ new = rw (set_brk_shrunk new s e g) refl in
            let below : new ≤ s.brk = ground arith in absurd (omega (arith, r))
      ]
]
