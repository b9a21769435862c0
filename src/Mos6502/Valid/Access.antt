-- ===== src/Mos6502/Valid/Access.antt =====
-- Bus accesses, the stack and interrupts keep the invariant.
use remu.Prelude.{ℕ, ◌+◌, ◌%◌, ◌<◌, arith, Bool, true, false, bit_and, bit_or, not8, if◌then◌else◌}
use remu.Prelude.Masks.{word-lt, stack_address}
use remu.Bus.{Bus, read_u16}
use remu.Mos6502.Registers.{Status, bits}
use remu.Mos6502.Registers.Laws.{bits-lt, pulled, pushed_set, pushed_clear}
use remu.Mos6502.Cpu.{
  read, write, read_vector, fetch_byte, fetch_word, push, pull, push_status, pull_status,
  service_interrupt, set_pc,
}
use remu.Mos6502.Valid.{Context, Keeps, Keeps-pure, Keeps-bind, Keeps-get_regs, Keeps-modify_regs}

abbrev pub IsByte : ℕ → Type 0
IsByte v = v < 256

abbrev pub IsWord : ℕ → Type 0
IsWord v = v < 65536

module _ {S : Type 0} ⦃b : Bus S⦄ (ctx : Context b) where
  pub Keeps-read : (a : ℕ) → a < 65536 → Keeps ctx IsByte (read a)
  unfolding read
  Keeps-read a h = record {
    result = λ m v. ctx.read_byte a m.bus h v.bus;
    valid = λ m v. record { regs = v.regs; same = v.same; bus = ctx.read_holds a m.bus h v.bus };
  }

  pub Keeps-write : (a v : ℕ) → a < 65536 → v < 256 → Keeps ctx (λ _. Unit {0}) (write a v)
  unfolding write
  Keeps-write a x h g = record {
    result = λ m v. tt;
    valid =
        λ m v. record { regs = v.regs; same = v.same; bus = ctx.write_holds a x m.bus h g v.bus };
  }

  pub Keeps-read_vector : (a : ℕ) → a < 65536 → Keeps ctx IsWord (read_vector a)
  unfolding read_vector read_u16
  Keeps-read_vector a h =
      let next : (a + 1) % 65536 < 65536 = omega arith in
      record {
        result = λ m v.
            word-lt _ _ (ctx.read_byte a m.bus h v.bus)
              (ctx.read_byte _ _ next (ctx.read_holds a m.bus h v.bus));
        valid = λ m v. record {
          regs = v.regs;
          same = v.same;
          bus = ctx.read_holds _ _ next (ctx.read_holds a m.bus h v.bus);
        };
      }

  pub Keeps-set_pc : (v : ℕ) → v < 65536 → Keeps ctx (λ _. Unit {0}) (set_pc v)
  Keeps-set_pc v h = Keeps-modify_regs ctx _ (λ r g. ground arith)

  pub Keeps-fetch_byte : Keeps ctx IsByte fetch_byte
  unfolding fetch_byte
  Keeps-fetch_byte = Keeps-bind ctx (Keeps-get_regs ctx) λ r hr.
      Keeps-bind ctx (Keeps-read r.pc hr.pc) λ v hv.
        Keeps-bind ctx (Keeps-modify_regs ctx _ (λ r h. ground arith)) λ _ _. Keeps-pure ctx _ v hv

  pub Keeps-fetch_word : Keeps ctx IsWord fetch_word
  unfolding fetch_word
  Keeps-fetch_word =
      Keeps-bind ctx Keeps-fetch_byte
        λ lo h. Keeps-bind ctx Keeps-fetch_byte λ hi g. Keeps-pure ctx _ _ (word-lt lo hi h g)

  pub Keeps-push : (v : ℕ) → v < 256 → Keeps ctx (λ _. Unit {0}) (push v)
  unfolding push
  Keeps-push v h = Keeps-bind ctx (Keeps-get_regs ctx) λ r hr.
      Keeps-bind ctx (Keeps-write _ v (omega (arith, stack_address r.sp hr.sp)) h)
        λ _ _. Keeps-modify_regs ctx _ (λ r g. ground arith)

  pub Keeps-pull : Keeps ctx IsByte pull
  unfolding pull
  Keeps-pull = Keeps-bind ctx (Keeps-modify_regs ctx _ (λ r h. ground arith)) λ _ _.
      Keeps-bind ctx (Keeps-get_regs ctx)
        λ r hr. Keeps-read _ (omega (arith, stack_address r.sp hr.sp))

  pushed-IsByte :
      (p : Status) (with_b : Bool)
      → (if with_b
          then bit_or (bit_or (bits p) 0x20) 0x10
          else bit_and (bit_or (bits p) 0x20) (not8 0x10))
        < 256
  pushed-IsByte p true = rw pushed_set (bits-lt _)
  pushed-IsByte p false = rw pushed_clear (bits-lt _)

  pub Keeps-push_status : (with_b : Bool) → Keeps ctx (λ _. Unit {0}) (push_status with_b)
  unfolding push_status
  Keeps-push_status with_b =
      Keeps-bind ctx (Keeps-get_regs ctx) λ r hr. Keeps-push _ (pushed-IsByte r.p with_b)

  pub Keeps-pull_status : Keeps ctx (λ _. Unit {0}) pull_status
  unfolding pull_status
  Keeps-pull_status =
      Keeps-bind ctx Keeps-pull λ v hv. Keeps-modify_regs ctx _ (λ r h. ground (arith, pulled v hv))

  pub Keeps-service_interrupt :
      (vector : ℕ) (with_b : Bool)
      → vector < 65536
      → Keeps ctx (λ _. Unit {0}) (service_interrupt vector with_b)
  unfolding service_interrupt
  Keeps-service_interrupt vector with_b h = Keeps-bind ctx (Keeps-get_regs ctx) λ r hr.
      Keeps-bind ctx (Keeps-push _ (omega arith)) λ _ _.
        Keeps-bind ctx (Keeps-push _ (omega arith)) λ _ _.
          Keeps-bind ctx (Keeps-push_status with_b) λ _ _.
            Keeps-bind ctx (Keeps-modify_regs ctx _ (λ r h. ground arith))
              λ _ _. Keeps-bind ctx (Keeps-read_vector vector h) λ v hv. Keeps-set_pc v hv
