-- ===== src/Prelude/Outcome.antt =====
-- Rust's `Result`, and methods with `&mut self` that return one: commands for `do` blocks, where an
-- error ends the block and keeps the state it was raised in.
use mathlib.Core.Path.{◌≡◌, refl}
use native.Mathlib.Omega.{arith}
use remu.Prelude.State.{Method}

pub data Result (X A : Type 0) : Type 0 where
  ok : A → Result X A
  err : X → Result X A

abbrev pub Fallible : Type 0 → Type 0 → Type 0 → Type 0
Fallible X S A = S → Result X A × S

module _ {X S : Type 0} where
  unfoldable pub pure : {A : Type 0} → A → Fallible X S A
  pure a s = (ok a, s)

  unfoldable pub raise : {A : Type 0} → X → Fallible X S A
  raise x s = (err x, s)

  abbrev pub bind : {A B : Type 0} → Result X A × S → (A → Fallible X S B) → Result X B × S
  bind (ok a, s) k = k a s
  bind (err x, s) k = (err x, s)

  infixl 5 ◌>>=◌ ◌>>◌
  unfoldable pub ◌>>=◌ : {A B : Type 0} → Fallible X S A → (A → Fallible X S B) → Fallible X S B
  ◌>>=◌ f k s = bind (f s) k

  abbrev pub ◌>>◌ : {B : Type 0} → Fallible X S (Unit {0}) → Fallible X S B → Fallible X S B
  f >> k = f >>= λ _. k

  -- A method that cannot fail.
  unfoldable pub always : {A : Type 0} → Method S A → Fallible X S A
  always f s = let (a, t) = f s in (ok a, t)

-- What the first command and the second keep, the two keep one after the other.
pub bind_keeps :
    {X S A B : Type 0} (Kept : S → S → Type 0)
    → ((m n o : S) → Kept m n → Kept n o → Kept m o)
    → (r : Result X A) (k : A → Fallible X S B) (m n : S) → Kept m n
    → ((a : A) → Kept n (k a n).1)
    → Kept m (bind (r, n) k).1
bind_keeps Kept trans (ok a) k m n h g = trans m n (k a n).1 h (g a)
bind_keeps Kept trans (err x) k m n h g = h

-- A result of two commands is one of the second, in a state that the first leaves.
pub bind_done :
    {X S A B : Type 0} (r : Result X A) (k : A → Fallible X S B) (n : S) (b : B)
    → (bind (r, n) k).0 ≡ ok b
    → (a : A) × (r ≡ ok a) × ((k a n).0 ≡ ok b)
bind_done (ok a) k n b e = (a, refl, e)
bind_done (err x) k n b e = absurd (ground (arith, e))
