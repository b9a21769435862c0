-- ===== src/Os/Files/Access.antt =====
-- os/fs/mod.rs: `Vfs::read`, `write` and `lseek`. A result none is a panic.
use remu.Prelude.{
  ℕ, zero, suc, ◌+◌, ◌-◌, ◌*◌, ◌/◌, ◌^◌, min, max, Option, none, some, List, [], ◌∷◌, ◌++◌, length,
  set, replicate, take, drop, ltb, ◌==◌, if◌then◌else◌, u8, u32, bit_xor,
}
use remu.Os.Files.{
  eio, ebadf, eisdir, einval, enospc, espipe, Outcome, done, fail, Virt, null, zeros, full, random,
  generated, Fd, std, file, dir, virtual, Offset, forward, backward, SeekFrom, start, current, end,
  Host, Vfs, lookup,
}

-- `&data[pos..pos + n]`, which panics out of range.
abbrev pub slice : ℕ → ℕ → List ℕ → Option (List ℕ)
slice pos n text = if ltb (length text) (pos + n) then none else some (take n (drop pos text))

-- The bytes of `/dev/random`: a xorshift generator.
abbrev pub shift_round : ℕ → ℕ
shift_round x =
    let a = bit_xor x (u32 (x * 2 ^ 13)) in
    let b = bit_xor a (a / 2 ^ 17) in bit_xor b (u32 (b * 2 ^ 5))

unfoldable pub random_bytes : ℕ → ℕ → List ℕ
random_bytes x zero = []
random_bytes x (suc n) = let y = shift_round x in u8 y ∷ random_bytes y n

abbrev pub seed : ℕ → ℕ
seed pos = max (u32 (0x2545F491 + u32 pos)) 1

-- A read of a virtual file: the count, the bytes and the position after it.
abbrev pub sliced : ℕ → ℕ → Option (List ℕ) → Option (ℕ × List ℕ × ℕ)
sliced pos n none = none
sliced pos n (some bytes) = some (n, bytes, pos + n)

unfoldable pub read_virtual : Virt → List ℕ → ℕ → ℕ → Option (ℕ × List ℕ × ℕ)
read_virtual null text pos len = some (0, [], pos)
read_virtual zeros text pos len = some (len, replicate len 0, pos)
read_virtual full text pos len = some (len, replicate len 0, pos)
read_virtual random text pos len = some (len, random_bytes (seed pos) len, pos + len)
read_virtual generated text pos len =
    let n = min (length text - min pos (length text)) len in sliced pos n (slice pos n text)

abbrev pub write_virtual : Virt → ℕ → Outcome
write_virtual null n = done n
write_virtual zeros n = done n
write_virtual random n = done n
write_virtual full n = fail enospc
write_virtual generated n = fail ebadf

-- `(base + off).max(0)` on `i64`, which wraps.
abbrev pub seek_from : ℕ → Offset → ℕ
seek_from base (forward n) = if ltb (base + n) (2 ^ 63) then base + n else 0
seek_from base (backward n) = base - n

abbrev pub whence_base : ℕ → ℕ → ℕ → Option ℕ
whence_base whence pos size =
    if whence == 0
    then some 0
    else if whence == 1
    then some pos
    else if whence == 2
    then some size
    else none

abbrev pub whence_host : ℕ → Offset → Option SeekFrom
whence_host whence off =
    if whence == 0
    then some (start off)
    else if whence == 1
    then some (current off)
    else if whence == 2
    then some (end off)
    else none

module _ {F H : Type 0} (host : Host F H) where
  abbrev set_fd : ℕ → Fd F → Vfs F H → Vfs F H
  set_fd fd x v = record v { fds = set v.fds fd (some x) }

  abbrev host_read : Option (List ℕ) × H → Vfs F H → Outcome × List ℕ × Vfs F H
  host_read (none, h) v = (fail eio, [], record v { host = h })
  host_read (some bytes, h) v = (done (length bytes), bytes, record v { host = h })

  abbrev host_count : Option ℕ × H → Vfs F H → Outcome × Vfs F H
  host_count (none, h) v = (fail eio, record v { host = h })
  host_count (some n, h) v = (done n, record v { host = h })

  abbrev pub after_read :
      ℕ → Virt → List ℕ → Vfs F H → Option (ℕ × List ℕ × ℕ) → Option (Outcome × List ℕ × Vfs F H)
  after_read fd kind text v none = none
  after_read fd kind text v (some (n, bytes, pos)) =
      some (done n, bytes, set_fd fd (virtual kind text pos) v)

  abbrev pub read_fd : ℕ → ℕ → Option (Fd F) → Vfs F H → Option (Outcome × List ℕ × Vfs F H)
  read_fd fd len none v = some (fail ebadf, [], v)
  read_fd fd len (some (std zero)) v = some (host_read (host.stdin len v.host) v)
  read_fd fd len (some (std (suc n))) v = some (fail ebadf, [], v)
  read_fd fd len (some (file f path)) v = some (host_read (host.read_file f len v.host) v)
  read_fd fd len (some (dir entries pos path)) v = some (fail eisdir, [], v)
  read_fd fd len (some (virtual kind text pos)) v =
      after_read fd kind text v (read_virtual kind text pos len)

  unfoldable pub read : ℕ → ℕ → Vfs F H → Option (Outcome × List ℕ × Vfs F H)
  read fd len v = read_fd fd len (lookup fd v.fds) v

  -- Standard output and error, captured or printed.
  abbrev print_to : ℕ → List ℕ → Option (List ℕ) → Vfs F H → Vfs F H
  print_to n bytes none v = record v { host = host.print n bytes v.host }
  print_to n bytes (some seen) v = record v { capture = some (seen ++ bytes) }

  abbrev write_std : ℕ → List ℕ → Vfs F H → Outcome × Vfs F H
  write_std n bytes v =
      if n == 1
      then (done (length bytes), print_to 1 bytes v.capture v)
      else if n == 2
      then (done (length bytes), print_to 2 bytes v.capture v)
      else (fail ebadf, v)

  abbrev write_fd : List ℕ → Option (Fd F) → Vfs F H → Outcome × Vfs F H
  write_fd bytes none v = (fail ebadf, v)
  write_fd bytes (some (std n)) v = write_std n bytes v
  write_fd bytes (some (file f path)) v = host_count (host.write_file f bytes v.host) v
  write_fd bytes (some (dir entries pos path)) v = (fail ebadf, v)
  write_fd bytes (some (virtual kind text pos)) v = (write_virtual kind (length bytes), v)

  unfoldable pub write : ℕ → List ℕ → Vfs F H → Outcome × Vfs F H
  write fd bytes v = write_fd bytes (lookup fd v.fds) v

  abbrev seek_host : F → Option SeekFrom → Vfs F H → Outcome × Vfs F H
  seek_host f none v = (fail einval, v)
  seek_host f (some sk) v = host_count (host.seek_file f sk v.host) v

  abbrev seek_virtual : ℕ → Virt → List ℕ → Offset → Option ℕ → Vfs F H → Outcome × Vfs F H
  seek_virtual fd kind text off none v = (fail einval, v)
  seek_virtual fd kind text off (some base) v =
      (done (seek_from base off), set_fd fd (virtual kind text (seek_from base off)) v)

  abbrev pub seek_fd : ℕ → Offset → ℕ → Option (Fd F) → Vfs F H → Outcome × Vfs F H
  seek_fd fd off whence none v = (fail ebadf, v)
  seek_fd fd off whence (some (std n)) v = (fail espipe, v)
  seek_fd fd off whence (some (file f path)) v = seek_host f (whence_host whence off) v
  seek_fd fd off whence (some (dir entries pos path)) v = (fail espipe, v)
  seek_fd fd off whence (some (virtual kind text pos)) v =
      seek_virtual fd kind text off (whence_base whence pos (length text)) v

  unfoldable pub lseek : ℕ → Offset → ℕ → Vfs F H → Outcome × Vfs F H
  lseek fd off whence v = seek_fd fd off whence (lookup fd v.fds) v
