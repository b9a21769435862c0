-- ===== src/Os/Files/Table.antt =====
-- The descriptor table: the lowest free descriptor is given out, and closing frees one.
use remu.Prelude.{
  ℕ, zero, suc, ◌≡◌, refl, arith, ap, subst, sym, ◌∙◌, Bool, true, false, ◌&&◌, Option, none, some,
  List, [], ◌∷◌, set, ltb, ◌==◌, if◌then◌else◌, Bool-cases, inl, inr,
}
use remu.Os.Files.{done, fail, ebadf, later, first_free, place, install, lookup, close_slot, close}

suc_eq : (j i : ℕ) → (suc j == suc i) ≡ (j == i)
suc_eq j i = ground arith

suc_lt : (j i : ℕ) → ltb (suc j) (suc i) ≡ ltb j i
suc_lt j i = ground arith

suc_zero : (j : ℕ) → ((suc j == 0) ≡ false) × ((0 == suc j) ≡ false) × (ltb (suc j) 0 ≡ false)
suc_zero j = (ground arith, ground arith, ground arith)

and_false : (b : Bool) → (b && false) ≡ false
and_false true = refl
and_false false = refl

module _ {A : Type 0} where
  -- Whether a slot is free.
  abbrev pub is_free : Option A → Bool
  is_free none = true
  is_free (some x) = false

  place-later :
      (o : Option ℕ) (fd x : A) (fds : List (Option A))
      → place (later o) fd (some x ∷ fds) ≡ (suc (place o fd fds).0, some x ∷ (place o fd fds).1)
  place-later none fd x fds = refl
  place-later (some i) fd x fds = refl

  -- What it takes for `i` to be the descriptor and `t` the table after an installation, at `j`.
  abbrev IsInstalled : A → List (Option A) → ℕ → ℕ × List (Option A) → Type 0
  IsInstalled fd fds j (i, t) =
      (lookup i fds ≡ none)
      × ((ltb j i && is_free (lookup j fds)) ≡ false)
      × (lookup j t ≡ (if j == i then some fd else lookup j fds))

  -- The descriptor that `install` gives out was free and is the lowest that was: no descriptor `j`
  -- below it is free. After it, that descriptor is the file and every other is as it was.
  pub install-IsInstalled :
      (fd : A) (fds : List (Option A)) (j : ℕ) → IsInstalled fd fds j (install fd fds)
  unfolding install first_free lookup
  install-IsInstalled fd [] zero = (refl, refl, refl)
  install-IsInstalled fd [] (suc j) =
      let (e, f, g) = suc_zero j in
      (refl, ap (λ b. b && true) g, λ k. if sym e k then some fd else none)
  install-IsInstalled fd (none ∷ fds) zero = (refl, refl, refl)
  install-IsInstalled fd (none ∷ fds) (suc j) =
      let (e, f, g) = suc_zero j in
      (
        refl,
        ap (λ b. b && is_free (lookup j fds)) g,
        λ k. if sym e k then some fd else lookup j fds,
      )
  install-IsInstalled fd (some x ∷ fds) zero =
      let (free, low, here) = install-IsInstalled fd fds zero in
      let i = (install fd fds).0 in
      let (e, f, g) = suc_zero i in
      subst (IsInstalled fd (some x ∷ fds) zero) (sym (place-later (first_free fds) fd x fds))
        (free, and_false (ltb 0 (suc i)), λ k. if sym f k then some fd else some x)
  install-IsInstalled fd (some x ∷ fds) (suc j) =
      let (free, low, here) = install-IsInstalled fd fds j in
      let i = (install fd fds).0 in
      subst (IsInstalled fd (some x ∷ fds) (suc j)) (sym (place-later (first_free fds) fd x fds)) (
        free,
        ap (λ b. b && is_free (lookup j fds)) (suc_lt j i) ∙ low,
        here ∙ λ k. if sym (suc_eq j i) k then some fd else lookup j fds,
      )

  -- A write to a slot in use changes that slot alone.
  pub lookup-set :
      (i j : ℕ) (fds : List (Option A)) (o : Option A)
      → is_free (lookup i fds) ≡ false
      → lookup j (set fds i o) ≡ (if j == i then o else lookup j fds)
  unfolding lookup
  lookup-set i j [] o h = absurd (ground (arith, h))
  lookup-set zero zero (slot ∷ fds) o h = refl
  lookup-set zero (suc j) (slot ∷ fds) o h =
      let (e, f, g) = suc_zero j in λ k. if sym e k then o else lookup j fds
  lookup-set (suc i) zero (slot ∷ fds) o h =
      let (e, f, g) = suc_zero i in λ k. if sym f k then o else slot
  lookup-set (suc i) (suc j) (slot ∷ fds) o h =
      lookup-set i j fds o h ∙ λ k. if sym (suc_eq j i) k then o else lookup j fds

  -- `close` succeeds exactly on an open descriptor; it frees that one and leaves every other, and fails
  -- with EBADF on a free one and changes nothing.
  pub close_lem :
      (fd j : ℕ) (fds : List (Option A))
      → let (result, t) = close fd fds in
        (result ≡ (if is_free (lookup fd fds) then fail ebadf else done 0))
        × (lookup j t ≡ (if j == fd then none else lookup j fds))
  unfolding close
  close_lem fd j fds = by_slot (lookup fd fds) refl
    where
      free_slot : lookup fd fds ≡ none → lookup j fds ≡ (if j == fd then none else lookup j fds)
      free_slot e = elim (Bool-cases (j == fd)) [
        | inl same ↦
            let at : j ≡ fd = ground (arith, same) in
            ap (λ (i : ℕ). lookup i fds) at ∙ e ∙ λ k. if sym same k then none else lookup j fds
        | inr other ↦ λ k. if sym other k then none else lookup j fds
      ]

      by_slot :
          (slot : Option A)
          → lookup fd fds ≡ slot
          → let (result, t) = close_slot slot fd fds in
            (result ≡ (if is_free slot then fail ebadf else done 0))
            × (lookup j t ≡ (if j == fd then none else lookup j fds))
      by_slot none e = (refl, free_slot e)
      by_slot (some x) e = (refl, lookup-set fd j fds none (ap is_free e))
