-- ===== src/Os/Files/Tests.antt =====
-- The theorems about paths and descriptors at concrete ones.
use remu.Prelude.{ℕ, ◌≡◌, refl, arith, false, ◌&&◌, ltb, Option, none, some, List, [], ◌∷◌, All}
use remu.Os.Path.{Text, slash, join, normalize}
use remu.Os.Path.Names.{IsName, names, normalize-IsName}
use remu.Os.Files.{Fd, std, virtual, generated, forward, Host, Vfs, first_free, install, lookup}
use remu.Os.Files.Access.{read, lseek}
use remu.Os.Files.Table.{is_free, install-IsInstalled}
use remu.Os.Files.Virtual.{read-lseek}

-- `../a/./b` in the directory `/x`.
abbrev climb : Text
climb = 46 ∷ 46 ∷ 47 ∷ 97 ∷ 47 ∷ 46 ∷ 47 ∷ 98 ∷ []

normalize-IsName_example :
    All IsName (names (normalize (47 ∷ 120 ∷ []) climb))
    × normalize (47 ∷ 120 ∷ []) climb ≡ slash ∷ join (names (normalize (47 ∷ 120 ∷ []) climb))
normalize-IsName_example = normalize-IsName (47 ∷ 120 ∷ []) climb

-- A table with one descriptor closed.
abbrev table : List (Option (Fd ℕ))
table = some (std 0) ∷ none ∷ some (std 2) ∷ []

install-IsInstalled_example :
    (lookup 1 table ≡ none)
    × ((ltb 2 1 && is_free (lookup 2 table)) ≡ false)
    × (lookup 2 (install (std 1) table).1 ≡ some (std 2))
unfolding install first_free lookup
install-IsInstalled_example = install-IsInstalled (std 1) table 2

-- A host without files or input.
abbrev host : Host ℕ ℕ
host = record {
  stdin = λ n h. (none, h);
  print = λ n bytes h. h;
  read_file = λ f n h. (none, h);
  write_file = λ f bytes h. (none, h);
  seek_file = λ f sk h. (none, h);
}

abbrev files : Vfs ℕ ℕ
files = record {
  cwd = slash ∷ [];
  exec_path = [];
  cmdline = [];
  maps = [];
  fds = some (virtual generated (1 ∷ 2 ∷ 3 ∷ []) 0) ∷ [];
  capture = none;
  host = 0;
}

read-lseek_example : read host 0 8 (lseek host 0 (forward 5) 0 files).1 ≡ none
unfolding lookup
read-lseek_example = read-lseek host 0 5 0 8 (1 ∷ 2 ∷ 3 ∷ []) files refl (omega arith)
