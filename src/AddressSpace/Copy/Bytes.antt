-- ===== src/AddressSpace/Copy/Bytes.antt =====
-- The copies in rounds against copies byte by byte.
use remu.Prelude.{
  ℕ, zero, suc, ◌+◌, ◌*◌, ◌%◌, ◌^◌, ◌≤◌, ◌<◌, ◌≡◌, refl, arith, ap, sym, ◌∙◌, fun_ext, Bool, true,
  false, Option, some, List, [], ◌∷◌, ◌++◌, length, take, drop, take-drop, length-take, length-drop,
  leb, if◌then◌else◌, ◌==◌, Bool-cases, inl, inr, Option-cases,
}
use remu.AddressSpace.{Chunk, AddressSpace, chunk_of, offset_of, set_chunk, set_byte}
use remu.AddressSpace.Reads.{offset_of-mod}
use remu.AddressSpace.Writes.{set_chunk_again, chunk_set}
use remu.AddressSpace.Copy.{set_bytes, on_chunk, room, write_loop, write_bytes}

-- Byte by byte, up to the first address that is not mapped.
unfoldable pub put_bytes : ℕ → List ℕ → AddressSpace → Bool × AddressSpace
put_bytes addr [] s = (true, s)
put_bytes addr (x ∷ xs) s =
    if leb (2 ^ 32) addr
    then (false, s)
    else on_chunk (s.chunks (chunk_of addr))
        (λ c.
          put_bytes (addr + 1) xs
            (set_chunk (chunk_of addr) (some (set_byte (addr % 65536) x c)) s))
        (false, s)

set_same : (i : ℕ) (c : Option Chunk) (s : AddressSpace) → s.chunks i ≡ c → set_chunk i c s ≡ s
set_same i c s e =
    let same : (λ j. if j == i then c else s.chunks j) ≡ s.chunks = fun_ext at in
    λ k. record s { chunks = same k }
  where
    at : (j : ℕ) → (if j == i then c else s.chunks j) ≡ s.chunks j
    at j = elim (Bool-cases (j == i)) [
      | inl here ↦
          let eq : i ≡ j = ground (arith, here) in
          (λ k. if here k then c else s.chunks j) ∙ sym e ∙ ap s.chunks eq
      | inr other ↦ λ k. if other k then c else s.chunks j
    ]

-- One byte, in a chunk that is mapped.
put_one :
    (addr x : ℕ) (xs : List ℕ) (s : AddressSpace) (c : Chunk)
    → addr < 2 ^ 32
    → s.chunks (chunk_of addr) ≡ some c
    → put_bytes addr (x ∷ xs) s
      ≡ put_bytes (addr + 1) xs (set_chunk (chunk_of addr) (some (set_byte (addr % 65536) x c)) s)
unfolding put_bytes
put_one addr x xs s c h e =
    let below : leb (2 ^ 32) addr ≡ false = ground arith in rw below (rw e refl)

-- The bytes of a round, in the chunk `i` at the offset `off`.
put_round :
    (i off : ℕ) (first rest : List ℕ) (s : AddressSpace) (c : Chunk)
    → i < 65536
    → off + length first ≤ 65536
    → put_bytes (i * 65536 + off) (first ++ rest) (set_chunk i (some c) s)
      ≡ put_bytes
          (i * 65536 + off + length first)
          rest
          (set_chunk i (some (set_bytes first off c)) s)
put_round i off [] rest s c hi h =
    ap (λ (a : ℕ). put_bytes a rest (set_chunk i (some c) s)) (omega arith)
put_round i off (x ∷ first) rest s c hi h =
    let index : chunk_of (i * 65536 + off) ≡ i = omega arith in
    let offset : (i * 65536 + off) % 65536 ≡ off = omega arith in
    let mapped = ap (set_chunk i (some c) s).chunks index ∙ chunk_set i (some c) s in
    put_one (i * 65536 + off) x (first ++ rest) (set_chunk i (some c) s) c (omega arith) mapped
    ∙ ap
        (λ (j : ℕ).
          put_bytes (i * 65536 + off + 1) (first ++ rest) (
            set_chunk j (some (set_byte ((i * 65536 + off) % 65536) x c)) (set_chunk i (some c) s)))
        index
    ∙ ap
        (λ (o : ℕ).
          put_bytes (i * 65536 + off + 1) (first ++ rest)
            (set_chunk i (some (set_byte o x c)) (set_chunk i (some c) s)))
        offset
    ∙ ap (put_bytes (i * 65536 + off + 1) (first ++ rest))
        (set_chunk_again i (some (set_byte off x c)) (some c) s)
    ∙ ap (λ (a : ℕ). put_bytes a (first ++ rest) (set_chunk i (some (set_byte off x c)) s))
        (omega arith)
    ∙ put_round i (off + 1) first rest s (set_byte off x c) hi (omega arith)
    ∙ ap
        (λ (a : ℕ).
          put_bytes a rest (set_chunk i (some (set_bytes first (off + 1) (set_byte off x c))) s))
        (omega arith)

-- A round copies at least one byte, and does not leave the chunk.
room_lem :
    (addr left : ℕ)
    → let n = room addr (suc left) in (0 < n) × (n ≤ suc left) × (addr % 65536 + n ≤ 65536)
room_lem addr left =
    (omega (arith, offset_of-mod addr), omega arith, omega (arith, offset_of-mod addr))

-- The copy of the bytes of a round, byte by byte.
put_first :
    (n addr : ℕ) (bytes : List ℕ) (s : AddressSpace) (c : Chunk)
    → addr < 2 ^ 32
    → s.chunks (chunk_of addr) ≡ some c
    → n ≤ length bytes
    → addr % 65536 + n ≤ 65536
    → put_bytes addr bytes s
      ≡ put_bytes
          (addr + n)
          (drop n bytes)
          (set_chunk (chunk_of addr) (some (set_bytes (take n bytes) (offset_of addr) c)) s)
put_first n addr bytes s c h e hn fits =
    let i = chunk_of addr in
    let size : length (take n bytes) ≡ n = omega (arith, length-take n bytes) in
    let whole : addr ≡ i * 65536 + addr % 65536 = omega arith in
    let past : i * 65536 + addr % 65536 + length (take n bytes) ≡ addr + n = omega (arith, size) in
    ap (put_bytes addr bytes) (sym (set_same i (some c) s e))
    ∙ ap (λ (xs : List ℕ). put_bytes addr xs (set_chunk i (some c) s)) (sym (take-drop n bytes))
    ∙ ap (λ (a : ℕ). put_bytes a (take n bytes ++ drop n bytes) (set_chunk i (some c) s)) whole
    ∙ put_round i (addr % 65536) (take n bytes) (drop n bytes) s c (omega arith)
        (omega (arith, size))
    ∙ ap
        (λ (a : ℕ).
          put_bytes a (drop n bytes)
            (set_chunk i (some (set_bytes (take n bytes) (addr % 65536) c)) s))
        past
    ∙ ap
        (λ (o : ℕ).
          put_bytes (addr + n) (drop n bytes) (set_chunk i (some (set_bytes (take n bytes) o c)) s))
        (sym (offset_of-mod addr))

write_round :
    (fuel addr x : ℕ) (xs : List ℕ) (s : AddressSpace) (c : Chunk)
    → addr < 2 ^ 32
    → s.chunks (chunk_of addr) ≡ some c
    → let n = room addr (length (x ∷ xs)) in
      write_loop (suc fuel) addr (x ∷ xs) s
      ≡ write_loop fuel
          (addr + n)
          (drop n (x ∷ xs))
          (set_chunk (chunk_of addr) (some (set_bytes (take n (x ∷ xs)) (offset_of addr) c)) s)
unfolding write_loop
write_round fuel addr x xs s c h e =
    let below : leb (2 ^ 32) addr ≡ false = ground arith in rw below (rw e refl)

write_loop-put_bytes :
    (fuel addr : ℕ) (bytes : List ℕ) (s : AddressSpace)
    → length bytes ≤ fuel
    → write_loop fuel addr bytes s ≡ put_bytes addr bytes s
unfolding write_loop put_bytes
write_loop-put_bytes fuel addr [] s h = refl
write_loop-put_bytes zero addr (x ∷ xs) s h = absurd (omega arith)
write_loop-put_bytes (suc fuel) addr (x ∷ xs) s h = elim (Bool-cases (leb (2 ^ 32) addr)) [
  | inl past ↦ rw past refl
  | inr below ↦ elim (Option-cases (s.chunks (chunk_of addr))) [
    | inl missing ↦ rw (below, missing) refl
    | inr (c, found) ↦
        let n = room addr (suc (length xs)) in
        let (some_byte, enough, fits) = room_lem addr (length xs) in
        let next =
          set_chunk (chunk_of addr) (some (set_bytes (take n (x ∷ xs)) (offset_of addr) c)) s in
        let inside : addr < 2 ^ 32 = ground (arith, below) in
        write_round fuel addr x xs s c inside found
        ∙ write_loop-put_bytes fuel (addr + n) (drop n (x ∷ xs)) next
            (omega (arith, length-drop n (x ∷ xs)))
        ∙ sym (put_first n addr (x ∷ xs) s c inside found enough fits)
  ]
]

-- `write_bytes` is the copy byte by byte, wherever the bytes cross from chunk to chunk: it fails at the
-- first address that is not mapped or past the end of memory, with all bytes before it written.
pub write_bytes-put_bytes :
    (addr : ℕ) (bytes : List ℕ) (s : AddressSpace)
    → write_bytes addr bytes s ≡ put_bytes addr bytes s
unfolding write_bytes
write_bytes-put_bytes addr bytes s = write_loop-put_bytes (length bytes) addr bytes s (omega arith)
