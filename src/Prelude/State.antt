-- ===== src/Prelude/State.antt =====
-- Methods with `&mut self`: commands over a state, for `do` blocks.
abbrev pub Method : Type 0 → Type 0 → Type 0
Method S A = S → A × S

module _ {S : Type 0} where
  unfoldable pub pure : {A : Type 0} → A → Method S A
  pure a s = (a, s)

  infixl 5 ◌>>=◌ ◌>>◌
  unfoldable pub ◌>>=◌ : {A B : Type 0} → Method S A → (A → Method S B) → Method S B
  ◌>>=◌ f k s = let (a, t) = f s in k a t

  abbrev pub ◌>>◌ : {B : Type 0} → Method S (Unit {0}) → Method S B → Method S B
  f >> k = f >>= λ _. k

  unfoldable pub gets : {A : Type 0} → (S → A) → Method S A
  gets f s = (f s, s)

  unfoldable pub modify : (S → S) → Method S (Unit {0})
  modify f s = (tt, f s)
