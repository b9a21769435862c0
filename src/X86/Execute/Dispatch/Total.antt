-- ===== src/X86/Execute/Dispatch/Total.antt =====
-- Every opcode that is not a prefix runs to its end.
use remu.Prelude.{ℕ, ◌<◌, ◌≡◌, refl, Bool, true, false, not, Option, none, some, if◌then◌else◌}
use remu.X86.Div.{is_some}
use remu.X86.Bus.{Bus}
use remu.X86.Cpu.{Machine}
use remu.X86.Execute.Strings.{string}
use remu.X86.Execute.Strings.Repeat.{string-some}
use remu.X86.Execute.Dispatch.{is_prefix, is_string, plain, dispatch}

module _ {S : Type 0} ⦃b : Bus S⦄ where
  -- With CX a word, `dispatch` ends with a result for every opcode but the prefixes: a repeated string
  -- instruction needs no more rounds than CX counts.
  pub dispatch-some :
      (op : ℕ) (m : Machine S)
      → m.cpu.regs.cx < 65536
      → is_some (dispatch op m) ≡ not (is_prefix op)
  unfolding dispatch
  dispatch-some op m hc = cases (is_prefix op) (is_string op) (string op m) (string-some op m hc)
    where
      cases :
          (p s : Bool) (r : Option (ℕ × Machine S))
          → is_some r ≡ true
          → is_some (if p then none else if s then r else some (plain op m)) ≡ not p
      cases true s r h = refl
      cases false true r h = h
      cases false false r h = refl
