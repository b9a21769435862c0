-- ===== src/Device/Windows.antt =====
-- Which accesses of the bus a device gets: those in its window, unless a window mapped before has
-- the address, and no others.
use remu.Prelude.{
  ℕ, ◌+◌, ◌-◌, ◌≤◌, ◌<◌, ◌≡◌, refl, arith, ◌∙◌, Bool, true, false, ◌&&◌, ◌||◌, some, List, [], ◌∷◌,
  ◌++◌, leb, ltb, sub16, Bool-cases, inl, inr,
}
use remu.Bus.Flat.{FlatMemory}
use remu.Device.{
  Device, Mapping, SystemBus, map_device, read_from, write_from, read_system, write_system,
}

abbrev pub extended : {D : Type 0} → ℕ → ℕ → D → SystemBus D → SystemBus D
extended base len device bus = record bus {
  mappings = bus.mappings ++ (record { start = base; len = len; device = device } ∷ []);
}

-- Some window has the address.
abbrev pub claimed : {D : Type 0} → ℕ → List (Mapping D) → Bool
claimed addr [] = false
claimed addr (m ∷ ms) = ltb (sub16 addr m.start) m.len || claimed addr ms

-- The offset wraps where the address is below the window, and is then too large.
window_lem :
    (addr base len : ℕ)
    → addr < 65536
    → base + len ≤ 65536
    → ltb (sub16 addr base) len ≡ (leb base addr && ltb addr (base + len))
window_lem addr base len h k = ground arith

or_false-cases : (p q : Bool) → (p || q) ≡ false → (p ≡ false) × (q ≡ false)
or_false-cases p q h = ground arith

map_device_fits :
    {D : Type 0} (base len : ℕ) (device : D) (bus : SystemBus D)
    → 0 < len
    → base + len ≤ 65536
    → map_device base len device bus ≡ some (extended base len device bus)
unfolding map_device
map_device_fits base len device bus h k =
    let e : (ltb 0 len && ltb (base + (len - 1)) 65536) ≡ true = ground arith in rw e refl

module _ {D : Type 0} ⦃d : Device D⦄ where
  -- Behind windows that do not claim the address, the last mapping answers.
  read_last :
      (addr : ℕ) (ms : List (Mapping D)) (m : Mapping D) (ram : FlatMemory)
      → claimed addr ms ≡ false
      → ltb (sub16 addr m.start) m.len ≡ true
      → read_from addr (ms ++ (m ∷ [])) ram ≡ (
          let (v, device) = d.read (sub16 addr m.start) m.device in
          (v, ms ++ (record m { device = device } ∷ [])))
  unfolding read_from
  read_last addr [] m ram h k = rw k refl
  read_last addr (n ∷ ms) m ram h k =
      let none_before = or_false-cases (ltb (sub16 addr n.start) n.len) (claimed addr ms) h in
      rw (none_before.0, read_last addr ms m ram none_before.1 k) refl

  -- A mapping that does not have the address changes nothing.
  read_other :
      (addr : ℕ) (ms : List (Mapping D)) (m : Mapping D) (ram : FlatMemory)
      → ltb (sub16 addr m.start) m.len ≡ false
      → read_from addr (ms ++ (m ∷ [])) ram
        ≡ (let (v, ns) = read_from addr ms ram in (v, ns ++ (m ∷ [])))
  unfolding read_from
  read_other addr [] m ram k = rw k refl
  read_other addr (n ∷ ms) m ram k = elim (Bool-cases (ltb (sub16 addr n.start) n.len)) [
    | inl e ↦ rw e refl
    | inr e ↦ rw (e, read_other addr ms m ram k) refl
  ]

  write_last :
      (addr value : ℕ) (ms : List (Mapping D)) (m : Mapping D) (ram : FlatMemory)
      → claimed addr ms ≡ false
      → ltb (sub16 addr m.start) m.len ≡ true
      → write_from addr value (ms ++ (m ∷ [])) ram
        ≡ (ms ++ (record m { device = d.write (sub16 addr m.start) value m.device } ∷ []), ram)
  unfolding write_from
  write_last addr value [] m ram h k = rw k refl
  write_last addr value (n ∷ ms) m ram h k =
      let none_before = or_false-cases (ltb (sub16 addr n.start) n.len) (claimed addr ms) h in
      rw (none_before.0, write_last addr value ms m ram none_before.1 k) refl

  write_other :
      (addr value : ℕ) (ms : List (Mapping D)) (m : Mapping D) (ram : FlatMemory)
      → ltb (sub16 addr m.start) m.len ≡ false
      → write_from addr value (ms ++ (m ∷ [])) ram
        ≡ (let (ns, after) = write_from addr value ms ram in (ns ++ (m ∷ []), after))
  unfolding write_from
  write_other addr value [] m ram k = rw k refl
  write_other addr value (n ∷ ms) m ram k = elim (Bool-cases (ltb (sub16 addr n.start) n.len)) [
    | inl e ↦ rw e refl
    | inr e ↦ rw (e, write_other addr value ms m ram k) refl
  ]

  -- A device that is mapped at a window that is not empty and lies within the address space, at addresses that no window
  -- mapped before has, gets each access there at its offset from the base, and only it changes.
  pub map_device-access :
      (base len offset value : ℕ) (device : D) (bus : SystemBus D)
      → base + len ≤ 65536
      → offset < len
      → claimed (base + offset) bus.mappings ≡ false
      → (map_device base len device bus ≡ some (extended base len device bus))
        × (read_system (base + offset) (extended base len device bus)
            ≡ (let (v, after) = d.read offset device in (v, extended base len after bus)))
        × (write_system (base + offset) value (extended base len device bus)
            ≡ extended base len (d.write offset value device) bus)
  unfolding read_system write_system
  map_device-access base len offset value device bus fits inside free =
      let m : Mapping D = record { start = base; len = len; device = device } in
      let back : sub16 (base + offset) base ≡ offset = omega arith in
      let hit : ltb (sub16 (base + offset) base) len ≡ true = ground arith in
      (
        map_device_fits base len device bus (omega arith) fits,
        rw (read_last (base + offset) bus.mappings m bus.ram free hit) (rw back refl),
        rw (write_last (base + offset) value bus.mappings m bus.ram free hit) (rw back refl),
      )

  -- An access below 2 ^ 16 and outside the window of a device that was mapped last, within the address
  -- space, behaves as it did before the
  -- device was mapped, and leaves the device alone.
  pub map_device-outside :
      (base len addr value : ℕ) (device : D) (bus : SystemBus D)
      → addr < 65536
      → base + len ≤ 65536
      → (leb base addr && ltb addr (base + len)) ≡ false
      → (read_system addr (extended base len device bus)
          ≡ (let (v, after) = read_system addr bus in (v, extended base len device after)))
        × (write_system addr value (extended base len device bus)
            ≡ extended base len device (write_system addr value bus))
  unfolding read_system write_system
  map_device-outside base len addr value device bus h fits out =
      let m : Mapping D = record { start = base; len = len; device = device } in
      let miss = window_lem addr base len h fits ∙ out in
      (
        rw (read_other addr bus.mappings m bus.ram miss) refl,
        rw (write_other addr value bus.mappings m bus.ram miss) refl,
      )
