-- ===== src/Device.antt =====
-- device/mod.rs: memory-mapped devices and the address decoder `SystemBus`. The devices that one
-- machine has on its bus are the states of one type `D`, for devices of several kinds their sum.
pub mod Windows
pub mod Uart
pub mod Console
pub mod Traffic
mod Tests
use remu.Prelude.{
  ℕ, ◌+◌, ◌-◌, ◌<◌, Bool, true, false, ◌&&◌, Option, none, some, List, [], ◌∷◌, ◌++◌, ltb,
  if◌then◌else◌, sub16,
}
use remu.Bus.{Bus}
use remu.Bus.Flat.{FlatMemory, flat_bus, new_memory}

pub record Device (D : Type 0) : Type 0 where
  pub read : ℕ → D → ℕ × D
  pub write : ℕ → ℕ → D → D

pub record Mapping (D : Type 0) : Type 0 where
  pub start : ℕ
  pub len : ℕ
  pub device : D

pub record SystemBus (D : Type 0) : Type 0 where
  pub ram : FlatMemory
  pub mappings : List (Mapping D)

-- `SystemBus::new`
abbrev pub new_bus : {D : Type 0} → SystemBus D
new_bus = record { ram = new_memory; mappings = [] }

-- `map`, where none is the panic of its assertion.
unfoldable pub map_device : {D : Type 0} → ℕ → ℕ → D → SystemBus D → Option (SystemBus D)
map_device base len device bus =
    if ltb 0 len && ltb (base + (len - 1)) 65536
    then some (record bus {
      mappings = bus.mappings ++ (record { start = base; len = len; device = device } ∷ []);
    })
    else none

module _ {D : Type 0} ⦃d : Device D⦄ where
  -- The loop of `read` over the mappings: the first window that has the address answers.
  unfoldable pub read_from : ℕ → List (Mapping D) → FlatMemory → ℕ × List (Mapping D)
  read_from addr [] ram = (ram.ram addr, [])
  read_from addr (m ∷ ms) ram =
      let offset = sub16 addr m.start in
      let rest = read_from addr ms ram in
      if ltb offset m.len
      then (let (v, device) = d.read offset m.device in (v, record m { device = device } ∷ ms))
      else (rest.0, m ∷ rest.1)

  unfoldable pub write_from : ℕ → ℕ → List (Mapping D) → FlatMemory → List (Mapping D) × FlatMemory
  write_from addr value [] ram = ([], flat_bus.write addr value ram)
  write_from addr value (m ∷ ms) ram =
      let offset = sub16 addr m.start in
      let rest = write_from addr value ms ram in
      if ltb offset m.len
      then (record m { device = d.write offset value m.device } ∷ ms, ram)
      else (m ∷ rest.0, rest.1)

  unfoldable pub read_system : ℕ → SystemBus D → ℕ × SystemBus D
  read_system addr bus =
      let (v, ms) = read_from addr bus.mappings bus.ram in (v, record bus { mappings = ms })

  unfoldable pub write_system : ℕ → ℕ → SystemBus D → SystemBus D
  write_system addr value bus =
      let (ms, ram) = write_from addr value bus.mappings bus.ram in
      record { ram = ram; mappings = ms }

  instance abbrev pub system_bus : Bus (SystemBus D)
  system_bus = record { read = read_system; write = write_system }
