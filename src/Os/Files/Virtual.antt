-- ===== src/Os/Files/Virtual.antt =====
-- Seeks and reads of a generated file.
use remu.Prelude.{
  ℕ, ◌+◌, ◌-◌, ◌^◌, min, ◌<◌, ◌≡◌, refl, arith, ap, ◌∙◌, Bool, true, false, Option, none, some,
  List, length, set, take, drop, ltb, ◌==◌, if◌then◌else◌,
}
use remu.Os.Files.{Outcome, done, generated, Fd, virtual, forward, Host, Vfs, lookup}
use remu.Os.Files.Access.{
  slice, sliced, read_virtual, seek_from, after_read, read_fd, read, seek_fd, lseek,
}
use remu.Os.Files.Table.{is_free, lookup-set}

-- The bytes of `text` from `pos` on that a read of `len` gets, and the position after them.
abbrev pub fits : List ℕ → ℕ → ℕ → ℕ
fits text pos len = min (length text - pos) len

sliced_if :
    (c : Bool) (pos n : ℕ) (bytes : List ℕ)
    → sliced pos n (if c then none else some bytes) ≡ (if c then none else some (n, bytes, pos + n))
sliced_if true pos n bytes = refl
sliced_if false pos n bytes = refl

read_generated :
    (text : List ℕ) (pos len : ℕ)
    → let n = fits text pos len in
      read_virtual generated text pos len
      ≡ (if ltb (length text) pos then none else some (n, take n (drop pos text), pos + n))
unfolding read_virtual
read_generated text pos len =
    let n = fits text pos len in
    let same : min (length text - min pos (length text)) len ≡ n = omega arith in
    let past : ltb (length text) (pos + n) ≡ ltb (length text) pos = ground arith in
    ap (λ (k : ℕ). sliced pos k (slice pos k text)) same
    ∙ ap (λ (c : Bool). sliced pos n (if c then none else some (take n (drop pos text)))) past
    ∙ sliced_if (ltb (length text) pos) pos n (take n (drop pos text))

module _ {F H : Type 0} (host : Host F H) where
  -- The state after a read from a generated file at `fd`.
  abbrev moved : ℕ → List ℕ → ℕ → Vfs F H → Vfs F H
  moved fd text pos v = record v { fds = set v.fds fd (some (virtual generated text pos)) }

  -- A generated file is open at `fd`, at some position.
  abbrev IsGenerated : ℕ → List ℕ → ℕ → Vfs F H → Type 0
  IsGenerated fd text pos v = lookup fd v.fds ≡ some (virtual generated text pos)

  seek_lem :
      (fd n pos : ℕ) (text : List ℕ) (v : Vfs F H)
      → IsGenerated fd text pos v
      → n < 2 ^ 63
      → lseek host fd (forward n) 0 v ≡ (done n, moved fd text n v)
  unfolding lseek
  seek_lem fd n pos text v e h =
      ap (λ (x : Option (Fd F)). seek_fd host fd (forward n) 0 x v) e ∙ λ k.
      (done (target k), moved fd text (target k) v)
    where
      target : seek_from 0 (forward n) ≡ n
      target = ground arith

  moved-IsGenerated :
      (fd n pos : ℕ) (text : List ℕ) (v : Vfs F H)
      → IsGenerated fd text pos v
      → IsGenerated fd text n (moved fd text n v)
  moved-IsGenerated fd n pos text v e =
      let same : (fd == fd) ≡ true = ground arith in
      lookup-set fd fd v.fds (some (virtual generated text n)) (ap is_free e) ∙ λ k.
      if same k then some (virtual generated text n) else lookup fd v.fds

  after_read_if :
      (c : Bool) (fd n pos : ℕ) (text bytes : List ℕ) (v : Vfs F H)
      → after_read host fd generated text v (if c then none else some (n, bytes, pos))
        ≡ (if c then none else some (done n, bytes, moved fd text pos v))
  after_read_if true fd n pos text bytes v = refl
  after_read_if false fd n pos text bytes v = refl

  read_lem :
      (fd pos len : ℕ) (text : List ℕ) (v : Vfs F H)
      → IsGenerated fd text pos v
      → let n = fits text pos len in
        read host fd len v ≡ (
          if ltb (length text) pos
          then none
          else some (done n, take n (drop pos text), moved fd text (pos + n) v))
  unfolding read
  read_lem fd pos len text v e =
      ap (λ (x : Option (Fd F)). read_fd host fd len x v) e
      ∙ ap (after_read host fd generated text v) (read_generated text pos len)
      ∙ after_read_if (ltb (length text) pos) fd n (pos + n) text (take n (drop pos text)) v
    where
      n : ℕ
      n = fits text pos len

  -- On a generated file, a read of `len` bytes after a seek to `n` gets the bytes from `n` on, as many
  -- as there are and at most `len`, and moves behind them. If `n` is past the end of the file, the read
  -- panics instead of getting no bytes.
  pub read-lseek :
      (fd n pos len : ℕ) (text : List ℕ) (v : Vfs F H)
      → lookup fd v.fds ≡ some (virtual generated text pos)
      → n < 2 ^ 63
      → let k = min (length text - n) len in
        read host fd len (lseek host fd (forward n) 0 v).1 ≡ (
          if ltb (length text) n
          then none
          else some (done k, take k (drop n text), moved fd text (n + k) (moved fd text n v)))
  read-lseek fd n pos len text v e h =
      ap (λ (r : Outcome × Vfs F H). read host fd len r.1) (seek_lem fd n pos text v e h)
      ∙ read_lem fd n len text (moved fd text n v) (moved-IsGenerated fd n pos text v e)
