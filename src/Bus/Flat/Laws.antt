-- ===== src/Bus/Flat/Laws.antt =====
-- `FlatMemory` is plain memory that holds bytes, and what `load` and `set_reset_vector` write.
use remu.Prelude.{ℕ, ◌<◌, ◌≡◌, refl, arith, ◌==◌, if◌then◌else◌}
use remu.Bus.{ByteBus}
use remu.Bus.Memory.{IsMemory}
use remu.Bus.Flat.{FlatMemory, poke, flat_bus}

abbrev pub HoldsBytes : FlatMemory → Type 0
HoldsBytes m = (a : ℕ) → m.ram a < 256

pub poke-HoldsBytes : (a v : ℕ) (m : FlatMemory) → v < 256 → HoldsBytes m → HoldsBytes (poke a v m)
unfolding poke
poke-HoldsBytes a v m hv h c = ground (arith, h c)

abbrev pub flat_laws : ByteBus flat_bus
flat_laws = record {
  Holds = HoldsBytes;
  read_byte = λ a m _ h. h a;
  read_holds = λ a m _ h. h;
  write_holds = λ a v m _ hv h. poke-HoldsBytes a v m hv h;
}

poke-peek : (a v c : ℕ) (m : FlatMemory) → (poke a v m).ram c ≡ (if c == a then v else m.ram c)
unfolding poke
poke-peek a v c m = refl

pub flat_memory : IsMemory flat_bus
flat_memory = record { peek = λ m a. m.ram a; read-peek = λ a m. refl; peek-write = poke-peek }
