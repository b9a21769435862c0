-- ===== src/Bus/Memory.antt =====
-- A bus that is plain memory: reads leave it alone, and a byte written is the byte read. It is what
-- the stack needs to give back what was pushed.
use remu.Prelude.{ℕ, ◌≡◌, ◌==◌, if◌then◌else◌}
use remu.Bus.{Bus}

pub record IsMemory {S : Type 0} (b : Bus S) : Type 0 where
  pub peek : S → ℕ → ℕ
  pub read-peek : (a : ℕ) (s : S) → b.read a s ≡ (peek s a, s)
  pub peek-write : (a v c : ℕ) (s : S) → peek (b.write a v s) c ≡ (if c == a then v else peek s c)
