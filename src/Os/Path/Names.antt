-- ===== src/Os/Path/Names.antt =====
-- What a normalized path is made of.
use remu.Prelude.{
  ℕ, ◌≡◌, refl, arith, ap, subst, sym, ◌∙◌, false, List, [], ◌∷◌, ◌++◌, ◌==◌, if◌then◌else◌, All,
  Bool-cases, inl, inr,
}
use remu.Os.Path.{
  Text, slash, extend, split, join, is_current, is_parent, pop, visit, walk, is_absolute, normalize,
}

-- A text without a slash, and a name: one that is not empty, `.` or `..` either.
abbrev pub IsPart : Text → Type 0
IsPart text = All (λ c. (c == slash) ≡ false) text

abbrev pub IsName : Text → Type 0
IsName text = IsPart text × (is_current text ≡ false) × (is_parent text ≡ false)

-- The parts of a path that are not empty.
abbrev pub keep : Text → List Text → List Text
keep [] parts = parts
keep (c ∷ text) parts = (c ∷ text) ∷ parts

abbrev pub nonempty : List Text → List Text
nonempty [] = []
nonempty (part ∷ parts) = keep part (nonempty parts)

abbrev pub names : Text → List Text
names path = nonempty (split path)

extend-IsPart :
    (c : ℕ) (parts : List Text)
    → (c == slash) ≡ false
    → All IsPart parts
    → All IsPart (extend c parts)
extend-IsPart c [] h p = ((h, tt), tt)
extend-IsPart c (part ∷ parts) h (p, ps) = ((h, p), ps)

split-IsPart : (text : Text) → All IsPart (split text)
unfolding split
split-IsPart [] = (tt, tt)
split-IsPart (c ∷ text) = elim (Bool-cases (c == slash)) [
  | inl e ↦ rw e (tt, split-IsPart text)
  | inr e ↦ rw e (extend-IsPart c (split text) e (split-IsPart text))
]

append-All :
    (parts : List Text) (name : Text)
    → All IsName parts
    → IsName name
    → All IsName (parts ++ name ∷ [])
append-All [] name ps p = (p, tt)
append-All (part ∷ parts) name (q, ps) p = (q, append-All parts name ps p)

pop-All : (parts : List Text) → All IsName parts → All IsName (pop parts)
pop-All [] ps = tt
pop-All (part ∷ []) ps = tt
pop-All (part ∷ next ∷ parts) (p, ps) = (p, pop-All (next ∷ parts) ps)

visit-All :
    (parts : List Text) (comp : Text)
    → All IsName parts
    → IsPart comp
    → All IsName (visit parts comp)
unfolding visit
visit-All parts comp ps p = elim (Bool-cases (is_current comp)) [
  | inl e ↦ rw e ps
  | inr e ↦ elim (Bool-cases (is_parent comp)) [
    | inl g ↦ rw e (rw g (pop-All parts ps))
    | inr g ↦ rw e (rw g (append-All parts comp ps (p, e, g)))
  ]
]

walk-All :
    (parts comps : List Text) → All IsName parts → All IsPart comps → All IsName (walk parts comps)
unfolding walk
walk-All parts [] ps cs = ps
walk-All parts (comp ∷ comps) ps (c, cs) =
    walk-All (visit parts comp) comps (visit-All parts comp ps c) cs

-- Splitting at the first slash.
split-slash : (part text : Text) → IsPart part → split (part ++ slash ∷ text) ≡ part ∷ split text
unfolding split
split-slash [] text p = refl
split-slash (c ∷ part) text (h, p) = rw h (ap (extend c) (split-slash part text p))

split-part : (part : Text) → IsPart part → split part ≡ part ∷ []
unfolding split
split-part [] p = refl
split-part (c ∷ part) (h, p) = rw h (ap (extend c) (split-part part p))

keep-name : (name : Text) (parts : List Text) → IsName name → keep name parts ≡ name ∷ parts
keep-name [] parts (p, e, g) = absurd (ground (arith, e))
keep-name (c ∷ text) parts h = refl

names-join : (parts : List Text) → All IsName parts → nonempty (split (join parts)) ≡ parts
unfolding join split
names-join [] ps = refl
names-join (part ∷ []) (p, ps) = ap nonempty (split-part part p.0) ∙ keep-name part [] p
names-join (part ∷ next ∷ parts) (p, ps) =
    ap nonempty (split-slash part (join (next ∷ parts)) p.0)
    ∙ ap (keep part) (names-join (next ∷ parts) ps)
    ∙ keep-name part (next ∷ parts) p

-- The parts that are empty do not count.
walk-nonempty : (parts comps : List Text) → walk parts (nonempty comps) ≡ walk parts comps
unfolding walk visit
walk-nonempty parts [] = refl
walk-nonempty parts ([] ∷ comps) = walk-nonempty parts comps
walk-nonempty parts ((c ∷ text) ∷ comps) = walk-nonempty (visit parts (c ∷ text)) comps

append_assoc : (xs : List Text) (y : Text) (ys : List Text) → (xs ++ y ∷ []) ++ ys ≡ xs ++ y ∷ ys
append_assoc [] y ys = refl
append_assoc (x ∷ xs) y ys = ap (λ (t : List Text). x ∷ t) (append_assoc xs y ys)

append_empty : (xs : List Text) → xs ++ [] ≡ xs
append_empty [] = refl
append_empty (x ∷ xs) = ap (λ (t : List Text). x ∷ t) (append_empty xs)

-- Names are visited in order and stay.
walk-names : (parts comps : List Text) → All IsName comps → walk parts comps ≡ parts ++ comps
unfolding walk visit
walk-names parts [] cs = sym (append_empty parts)
walk-names parts (comp ∷ comps) ((p, e, g), cs) =
    rw e (rw g (walk-names (parts ++ comp ∷ []) comps cs ∙ append_assoc parts comp comps))

-- The parts that `normalize` joins.
unfoldable parts_of : Text → Text → List Text
parts_of cwd path = walk [] (split ((if is_absolute path then [] else cwd) ++ slash ∷ path))

parts_of-All : (cwd path : Text) → All IsName (parts_of cwd path)
unfolding parts_of
parts_of-All cwd path =
    walk-All [] (split (start ++ slash ∷ path)) tt (split-IsPart (start ++ slash ∷ path))
  where
    start : Text
    start = if is_absolute path then [] else cwd

names_of : (cwd path : Text) → names (normalize cwd path) ≡ parts_of cwd path
unfolding normalize split parts_of
names_of cwd path = names-join (parts_of cwd path) (parts_of-All cwd path)

-- Whatever the directory and the path are, a normalized path is absolute: the names that it has
-- between slashes, none of them empty, `.` or `..`, each after one slash. So it cannot climb out of
-- the root.
pub normalize-IsName :
    (cwd path : Text)
    → All IsName (names (normalize cwd path))
      × normalize cwd path ≡ slash ∷ join (names (normalize cwd path))
unfolding normalize parts_of
normalize-IsName cwd path =
    let e = names_of cwd path in
    (
      subst (All IsName) (sym e) (parts_of-All cwd path),
      ap (λ (ps : List Text). slash ∷ join ps) (sym e),
    )

-- A normalized path stays as it is, from any directory.
pub normalize_again :
    (cwd other path : Text) → normalize other (normalize cwd path) ≡ normalize cwd path
unfolding normalize split walk visit parts_of
normalize_again cwd other path =
    let ps = parts_of cwd path in
    let all = parts_of-All cwd path in
    ap (λ (qs : List Text). slash ∷ join qs)
      (sym (walk-nonempty [] (split (join ps)))
        ∙ ap (walk []) (names-join ps all)
        ∙ walk-names [] ps all)
