-- ===== src/Os/Files.antt =====
-- os/fs/mod.rs: the open files and the descriptor table of `Vfs`. A descriptor is
-- the index `fd as usize`, a buffer the list of the bytes that are put in it. The host's files and
-- streams are a parameter.
pub mod Table
pub mod Access
pub mod Virtual
mod Tests
use remu.Prelude.{
  ℕ, zero, suc, ◌+◌, ◌-◌, ◌*◌, ◌/◌, ◌^◌, min, max, Bool, true, false, Option, none, some, List, [],
  ◌∷◌, ◌++◌, length, get_elem?, set, replicate, ltb, ◌==◌, if◌then◌else◌, u8, u32, bit_xor,
}
use remu.Os.Path.{Text}

-- os/abi.rs, `errno`
abbrev pub eio : ℕ
eio = 5

abbrev pub ebadf : ℕ
ebadf = 9

abbrev pub eisdir : ℕ
eisdir = 21

abbrev pub einval : ℕ
einval = 22

abbrev pub enospc : ℕ
enospc = 28

abbrev pub espipe : ℕ
espipe = 29

-- A result of a call: a count or offset, or a negated errno.
pub data Outcome : Type 0 where
  done : ℕ → Outcome
  fail : ℕ → Outcome

pub record DirEnt : Type 0 where
  pub name : Text
  pub is_dir : Bool

pub data Virt : Type 0 where
  null : Virt
  zeros : Virt
  full : Virt
  random : Virt
  generated : Virt

pub data Fd (F : Type 0) : Type 0 where
  std : ℕ → Fd F
  file : F → Text → Fd F
  dir : List DirEnt → ℕ → Text → Fd F
  virtual : Virt → List ℕ → ℕ → Fd F

-- `SeekFrom`, and the offset of `lseek`, that is forward or backward. A backward one from the start is
-- what `off as u64` makes of it, left to the host.
pub data Offset : Type 0 where
  forward : ℕ → Offset
  backward : ℕ → Offset

pub data SeekFrom : Type 0 where
  start : Offset → SeekFrom
  current : Offset → SeekFrom
  end : Offset → SeekFrom

-- The host, with files of type `F` and a state `H`: what `std::fs::File`, `stdin`, `stdout` and
-- `stderr` do. A failed call is none.
pub record Host (F H : Type 0) : Type 0 where
  pub stdin : ℕ → H → Option (List ℕ) × H
  pub print : ℕ → List ℕ → H → H
  pub read_file : F → ℕ → H → Option (List ℕ) × H
  pub write_file : F → List ℕ → H → Option ℕ × H
  pub seek_file : F → SeekFrom → H → Option ℕ × H

-- `Vfs` without the two host paths of the root, and with the host's state.
pub record Vfs (F H : Type 0) : Type 0 where
  pub cwd : Text
  pub exec_path : Text
  pub cmdline : List ℕ
  pub maps : Text
  pub fds : List (Option (Fd F))
  pub capture : Option (List ℕ)
  pub host : H

abbrev pub later : Option ℕ → Option ℕ
later none = none
later (some i) = some (suc i)

module _ {A : Type 0} where
  abbrev pub flatten : Option (Option A) → Option A
  flatten none = none
  flatten (some x) = x

  -- `position(|s| s.is_none())`
  unfoldable pub first_free : List (Option A) → Option ℕ
  first_free [] = none
  first_free (none ∷ fds) = some 0
  first_free (some x ∷ fds) = later (first_free fds)

  abbrev pub place : Option ℕ → A → List (Option A) → ℕ × List (Option A)
  place none fd fds = (length fds, fds ++ some fd ∷ [])
  place (some i) fd fds = (i, set fds i (some fd))

  -- `install`
  unfoldable pub install : A → List (Option A) → ℕ × List (Option A)
  install fd fds = place (first_free fds) fd fds

  unfoldable pub lookup : ℕ → List (Option A) → Option A
  lookup fd fds = flatten (get_elem? fds fd)

  abbrev pub close_slot : Option A → ℕ → List (Option A) → Outcome × List (Option A)
  close_slot none fd fds = (fail ebadf, fds)
  close_slot (some x) fd fds = (done 0, set fds fd none)

  unfoldable pub close : ℕ → List (Option A) → Outcome × List (Option A)
  close fd fds = close_slot (lookup fd fds) fd fds
