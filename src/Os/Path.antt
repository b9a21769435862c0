-- ===== src/Os/Path.antt =====
-- os/fs/mod.rs: `Vfs::normalize`. A path is the list of its characters, and the vector of its parts a
-- list in the same order.
pub mod Names
use remu.Prelude.{ℕ, Bool, true, false, ◌&&◌, List, [], ◌∷◌, ◌++◌, ◌==◌, if◌then◌else◌}

abbrev pub Text : Type 0
Text = List ℕ

-- `'/'` and `'.'`
abbrev pub slash : ℕ
slash = 47

abbrev pub dot : ℕ
dot = 46

-- `split('/')`
abbrev pub extend : ℕ → List Text → List Text
extend c [] = (c ∷ []) ∷ []
extend c (part ∷ parts) = (c ∷ part) ∷ parts

unfoldable pub split : Text → List Text
split [] = [] ∷ []
split (c ∷ text) = let rest = split text in if c == slash then [] ∷ rest else extend c rest

-- `join("/")`
unfoldable pub join : List Text → Text
join [] = []
join (part ∷ []) = part
join (part ∷ next ∷ parts) = part ++ slash ∷ join (next ∷ parts)

-- `"" | "."` and `".."`
abbrev pub is_current : Text → Bool
is_current [] = true
is_current (c ∷ []) = c == dot
is_current (c ∷ d ∷ text) = false

abbrev pub is_parent : Text → Bool
is_parent [] = false
is_parent (c ∷ []) = false
is_parent (c ∷ d ∷ []) = c == dot && d == dot
is_parent (c ∷ d ∷ e ∷ text) = false

-- `parts.pop()`
abbrev pub pop : List Text → List Text
pop [] = []
pop (part ∷ []) = []
pop (part ∷ next ∷ parts) = part ∷ pop (next ∷ parts)

-- The loop over the components.
unfoldable pub visit : List Text → Text → List Text
visit parts comp =
    if is_current comp then parts else if is_parent comp then pop parts else parts ++ comp ∷ []

unfoldable pub walk : List Text → List Text → List Text
walk parts [] = parts
walk parts (comp ∷ comps) = walk (visit parts comp) comps

-- `path.starts_with('/')`
abbrev pub is_absolute : Text → Bool
is_absolute [] = false
is_absolute (c ∷ text) = c == slash

unfoldable pub normalize : Text → Text → Text
normalize cwd path =
    let start = if is_absolute path then [] else cwd in
    slash ∷ join (walk [] (split (start ++ slash ∷ path)))
