-- ===== src/AddressSpace/Copy.antt =====
-- usermode/addr_space.rs: the host's copies, `write_bytes`, `read_bytes`, `read_u32` and `write_u32`.
-- Each round of a loop copies at least one byte, so the length is fuel enough for it.
pub mod Bytes
use remu.Prelude.{
  ℕ, zero, suc, ◌+◌, ◌-◌, ◌*◌, ◌/◌, ◌^◌, min, Bool, true, false, Option, none, some, List, [], ◌∷◌,
  ◌++◌, length, take, drop, leb, if◌then◌else◌, u8,
}
use remu.AddressSpace.{Chunk, AddressSpace, chunk_size, chunk_of, offset_of, set_chunk, set_byte}

-- `c[off..off + n].copy_from_slice(data)`, and the slice of a chunk.
abbrev pub set_bytes : List ℕ → ℕ → Chunk → Chunk
set_bytes [] off c = c
set_bytes (x ∷ xs) off c = set_bytes xs (off + 1) (set_byte off x c)

abbrev pub get_bytes : ℕ → ℕ → Chunk → List ℕ
get_bytes zero off c = []
get_bytes (suc n) off c = c off ∷ get_bytes n (off + 1) c

-- `match &mut self.chunks[…]`
abbrev pub on_chunk : {R : Type 0} → Option Chunk → (Chunk → R) → R → R
on_chunk none found missing = missing
on_chunk (some c) found missing = found c

-- The bytes of a round: as many as are left, at most to the end of the chunk.
abbrev pub room : ℕ → ℕ → ℕ
room addr left = min left (chunk_size - offset_of addr)

unfoldable pub write_loop : ℕ → ℕ → List ℕ → AddressSpace → Bool × AddressSpace
write_loop fuel addr [] s = (true, s)
write_loop zero addr (x ∷ xs) s = (false, s)
write_loop (suc fuel) addr (x ∷ xs) s =
    let n = room addr (length (x ∷ xs)) in
    if leb (2 ^ 32) addr
    then (false, s)
    else on_chunk (s.chunks (chunk_of addr))
        (λ c.
          write_loop fuel (addr + n) (drop n (x ∷ xs))
            (set_chunk (chunk_of addr) (some (set_bytes (take n (x ∷ xs)) (offset_of addr) c)) s))
        (false, s)

-- Whether all was written, and the space after it.
unfoldable pub write_bytes : ℕ → List ℕ → AddressSpace → Bool × AddressSpace
write_bytes addr bytes s = write_loop (length bytes) addr bytes s

-- Whether all was read, and what was read.
abbrev pub prefixed : List ℕ → Bool × List ℕ → Bool × List ℕ
prefixed piece (ok, rest) = (ok, piece ++ rest)

unfoldable pub read_loop : ℕ → ℕ → ℕ → AddressSpace → Bool × List ℕ
read_loop fuel addr zero s = (true, [])
read_loop zero addr (suc left) s = (false, [])
read_loop (suc fuel) addr (suc left) s =
    let n = room addr (suc left) in
    if leb (2 ^ 32) addr
    then (false, [])
    else on_chunk (s.chunks (chunk_of addr))
        (λ c.
          prefixed (get_bytes n (offset_of addr) c) (read_loop fuel (addr + n) (suc left - n) s))
        (false, [])

unfoldable pub read_bytes : ℕ → ℕ → AddressSpace → Bool × List ℕ
read_bytes addr len s = read_loop len addr len s

-- `from_le_bytes` of a buffer of zeros with a prefix that was read.
abbrev pub from_le_bytes : List ℕ → ℕ
from_le_bytes [] = 0
from_le_bytes (x ∷ xs) = x + 256 * from_le_bytes xs

abbrev pub to_le_bytes : ℕ → ℕ → List ℕ
to_le_bytes zero v = []
to_le_bytes (suc n) v = u8 v ∷ to_le_bytes n (v / 256)

unfoldable pub read_u32 : ℕ → AddressSpace → ℕ
read_u32 addr s = from_le_bytes (read_bytes addr 4 s).1

unfoldable pub write_u32 : ℕ → ℕ → AddressSpace → AddressSpace
write_u32 addr value s = (write_bytes addr (to_le_bytes 4 value) s).1
