-- ===== src/AddressSpace/Cstr.antt =====
-- usermode/addr_space.rs: `read_cstr`, and the strings that it finds.
use remu.Prelude.{
  ℕ, zero, suc, ◌+◌, ◌^◌, ◌<◌, ◌≡◌, refl, arith, ap, sym, ◌∙◌, false, Option, none, some, List, [],
  ◌∷◌, ◌++◌, leb, ◌==◌, if◌then◌else◌, length,
}
use remu.AddressSpace.{Chunk, AddressSpace, chunk_of, offset_of}

-- The byte at an address, none where nothing is mapped.
abbrev pub byte_in : ℕ → Option Chunk → Option ℕ
byte_in off none = none
byte_in off (some c) = some (c off)

abbrev pub byte_at : ℕ → AddressSpace → Option ℕ
byte_at a s = byte_in (offset_of a) (s.chunks (chunk_of a))

-- What the loop does with a byte; `go_on` is the rest of the loop.
abbrev pub on_byte : Option ℕ → List ℕ → Option (List ℕ) → Option (List ℕ)
on_byte none out go_on = none
on_byte (some b) out go_on = if b == 0 then some out else go_on

abbrev pub pushed : List ℕ → Option ℕ → List ℕ
pushed out none = out
pushed out (some b) = out ++ (b ∷ [])

-- The loop with room for `room` more bytes before `MAX`.
unfoldable pub cstr_loop : ℕ → ℕ → List ℕ → AddressSpace → Option (List ℕ)
cstr_loop zero a out s = none
cstr_loop (suc room) a out s =
    let rest = cstr_loop room (a + 1) (pushed out (byte_at a s)) s in
    if leb (2 ^ 32) a then none else on_byte (byte_at a s) out rest

unfoldable pub read_cstr : ℕ → AddressSpace → Option (List ℕ)
read_cstr addr s = cstr_loop 4096 addr [] s

-- The bytes of `str`, none of them zero, stand from `a` on, with a zero behind them.
pub data Terminated (s : AddressSpace) : ℕ → List ℕ → Type 0 where
  done : {a : ℕ} → byte_at a s ≡ some 0 → Terminated s a []
  byte :
      {a b : ℕ} {str : List ℕ}
      → byte_at a s ≡ some b
      → (b == 0) ≡ false
      → Terminated s (a + 1) str
      → Terminated s a (b ∷ str)

append_none : (l : List ℕ) → l ++ [] ≡ l
append_none [] = refl
append_none (x ∷ l) = ap (λ (t : List ℕ). x ∷ t) (append_none l)

append_one : (l : List ℕ) (x : ℕ) (r : List ℕ) → (l ++ (x ∷ [])) ++ r ≡ l ++ (x ∷ r)
append_one [] x r = refl
append_one (y ∷ l) x r = ap (λ (t : List ℕ). y ∷ t) (append_one l x r)

cstr_loop-Terminated :
    (room a : ℕ) (str out : List ℕ) (s : AddressSpace)
    → Terminated s a str
    → length str < room
    → a + length str < 2 ^ 32
    → cstr_loop room a out s ≡ some (out ++ str)
unfolding cstr_loop
cstr_loop-Terminated zero a str out s t h k = absurd (omega arith)
cstr_loop-Terminated (suc room) a [] out s (done e) h k =
    let low : leb (2 ^ 32) a ≡ false = ground arith in rw (low, e) (ap some (sym (append_none out)))
cstr_loop-Terminated (suc room) a (b ∷ str) out s (byte e nonzero t) h k =
    let low : leb (2 ^ 32) a ≡ false = ground arith in
    rw (low, e)
      (rw nonzero (
        cstr_loop-Terminated room (a + 1) str (out ++ (b ∷ [])) s t (omega arith) (omega arith)
        ∙ ap some (append_one out b str)))

-- A string of fewer than 4096 bytes that ends below the top of the address space is read back,
-- without its zero.
pub read_cstr-Terminated :
    (a : ℕ) (str : List ℕ) (s : AddressSpace)
    → Terminated s a str
    → length str < 4096
    → a + length str < 2 ^ 32
    → read_cstr a s ≡ some str
unfolding read_cstr
read_cstr-Terminated a str s t h k = cstr_loop-Terminated 4096 a str [] s t h k
