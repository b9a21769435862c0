-- ===== src/Mos6502/Valid/Step.antt =====
-- One step of the processor: the invariant, and the cycles that are counted.
use remu.Prelude.{
  not, ℕ, ◌+◌, ◌≤◌, ◌<◌, ◌≡◌, refl, arith, Bool, true, false, ◌&&◌, leb, if◌then◌else◌, all,
  all-get_or, u64, ap, ◌∙◌,
}
use remu.Bus.{Bus, ByteBus}
use remu.Mos6502.Cpu.{
  nmi_vector, irq_vector, Machine, Method, interrupt_cycles, pure, ◌>>=◌, ◌>>◌, get_cpu, modify,
  service_interrupt,
}
use remu.Mos6502.Info.{OpInfo}
use remu.Mos6502.Opcodes.{opcodes, decode, jam}
use remu.Mos6502.Step.{add_cycles, exec_info, exec, interrupt, instruction, running, step}
use remu.Mos6502.Valid.{Context, IsValid, Within, Keeps, Keeps-pure, Keeps-bind}
use remu.Mos6502.Valid.Access.{Keeps-fetch_byte, Keeps-service_interrupt}
use remu.Mos6502.Valid.Resolve.{Keeps-resolve}
use remu.Mos6502.Valid.Execute.{extra_limit, Keeps-execute}

-- The most cycles that an opcode can take.
abbrev pub cycle_limit : OpInfo → ℕ
cycle_limit info = info.cycles + (if info.page_penalty then 1 else 0) + extra_limit info.operation

abbrev cycles_in_range : OpInfo → Bool
cycles_in_range info = leb 2 info.cycles && leb (cycle_limit info) 8

table_in_range : all cycles_in_range opcodes ≡ true
unfolding all opcodes
table_in_range = refl

leb_both : (a b c d : ℕ) → (leb a b && leb c d) ≡ true → (a ≤ b) × (c ≤ d)
leb_both a b c d h = ground arith

pub decode_cycles : (opcode : ℕ) → (2 ≤ (decode opcode).cycles) × (cycle_limit (decode opcode) ≤ 8)
unfolding decode
decode_cycles opcode =
    leb_both _ _ _ _ (all-get_or cycles_in_range opcodes opcode jam table_in_range refl)

abbrev pub IsCycles : ℕ → Type 0
IsCycles n = (2 ≤ n) × (n ≤ 8)

module _ {S : Type 0} ⦃b : Bus S⦄ (ctx : Context b) where
  Keeps-exec_info :
      (info : OpInfo) → 2 ≤ info.cycles → cycle_limit info ≤ 8 → Keeps ctx IsCycles (exec_info info)
  unfolding exec_info
  Keeps-exec_info info low high = Keeps-bind ctx (Keeps-resolve ctx info.mode) λ m hm.
      Keeps-bind ctx (Keeps-execute ctx info m hm) λ extra he. Keeps-pure ctx _ _ (ground arith)

  Keeps-exec : (opcode : ℕ) → Keeps ctx IsCycles (exec opcode)
  unfolding exec
  Keeps-exec opcode = let h = decode_cycles opcode in Keeps-exec_info (decode opcode) h.0 h.1

-- A command that ran from `m` and counted its cycles.
record IsTimed {S : Type 0} {b : Bus S} (laws : ByteBus b) (m : Machine S) (f : Method S ℕ)
    : Type 0 where
  pub count : IsCycles (f m).0
  pub valid : IsValid laws (f m).1
  pub cycles : (f m).1.cpu.cycles ≡ u64 (m.cpu.cycles + (f m).0)
  pub nmi_pending : (f m).1.cpu.nmi_pending ≡ m.cpu.nmi_pending
  pub prev_nmi : (f m).1.cpu.prev_nmi ≡ m.cpu.prev_nmi
  pub irq_line : (f m).1.cpu.irq_line ≡ m.cpu.irq_line

-- What one step of a running processor does, from `m` to the machine of its result.
pub record IsStep {S : Type 0} {b : Bus S} (laws : ByteBus b) (m : Machine S) (r : ℕ × Machine S)
    : Type 0 where
  pub count : IsCycles r.0
  pub valid : IsValid laws r.1
  pub cycles : r.1.cpu.cycles ≡ u64 (m.cpu.cycles + r.0)
  pub prev_nmi : r.1.cpu.prev_nmi ≡ m.cpu.prev_nmi
  pub irq_line : r.1.cpu.irq_line ≡ m.cpu.irq_line
  -- A pending NMI is taken by the step.
  pub nmi_taken : r.1.cpu.nmi_pending ≡ false

module _ {S : Type 0} ⦃b : Bus S⦄ (laws : ByteBus b) where
  abbrev from_machine : Machine S → Context b
  from_machine m = record { laws = laws; origin = m.cpu }

  abbrev timed : Method S ℕ → Method S ℕ
  timed f = f >>= λ n. modify (add_cycles n) >> pure n

  timed-IsTimed :
      (m : Machine S) (f : Method S ℕ)
      → IsValid laws m
      → Keeps (from_machine m) IsCycles f
      → IsTimed laws m (timed f)
  unfolding ◌>>=◌ modify pure
  timed-IsTimed m f v k =
      let start : Within (from_machine m) m = record {
        regs = v.regs;
        same = ground arith;
        bus = v.bus;
      } in
      let end = k.valid m start in
      record {
        count = k.result m start;
        valid = record { regs = end.regs; cycles = omega arith; bus = end.bus };
        cycles = ap (λ (c : ℕ). u64 (c + (f m).0)) end.same.cycles;
        nmi_pending = end.same.nmi_pending;
        prev_nmi = end.same.prev_nmi;
        irq_line = end.same.irq_line;
      }

  instruction-IsTimed : (m : Machine S) → IsValid laws m → IsTimed laws m instruction
  unfolding instruction ◌>>=◌
  instruction-IsTimed m v =
      let ctx = from_machine m in
      timed-IsTimed m _ v (Keeps-bind ctx (Keeps-fetch_byte ctx) λ op _. Keeps-exec ctx op)

  interrupt-IsTimed :
      (vector : ℕ) (m : Machine S)
      → vector < 65536
      → IsValid laws m
      → IsTimed laws m (interrupt vector)
  unfolding interrupt ◌>>=◌ pure
  interrupt-IsTimed vector m h v =
      let ctx = from_machine m in
      timed-IsTimed m (service_interrupt vector false >> pure interrupt_cycles) v (
        Keeps-bind ctx (Keeps-service_interrupt ctx vector false h)
          λ _ _. Keeps-pure ctx IsCycles interrupt_cycles (omega arith))

  if-IsStep :
      (m : Machine S) (test : Bool) (f g : Method S ℕ)
      → (test ≡ true → IsStep laws m (f m))
      → (test ≡ false → IsStep laws m (g m))
      → IsStep laws m ((if test then f else g) m)
  if-IsStep m true f g h k = h refl
  if-IsStep m false f g h k = k refl

  IsTimed-IsStep :
      (m : Machine S) (f : Method S ℕ)
      → m.cpu.nmi_pending ≡ false
      → IsTimed laws m f
      → IsStep laws m (f m)
  IsTimed-IsStep m f none t = record {
    count = t.count;
    valid = t.valid;
    cycles = t.cycles;
    prev_nmi = t.prev_nmi;
    irq_line = t.irq_line;
    nmi_taken = t.nmi_pending ∙ none;
  }

  -- The NMI is serviced with its latch cleared.
  nmi-IsStep :
      (m : Machine S)
      → IsValid laws m
      → IsStep laws m ((modify (λ c. record c { nmi_pending = false }) >> interrupt nmi_vector) m)
  unfolding ◌>>=◌ modify
  nmi-IsStep m v =
      let m' : Machine S = record m { cpu = record (m.cpu) { nmi_pending = false } } in
      let v' : IsValid laws m' = record { regs = v.regs; cycles = v.cycles; bus = v.bus } in
      let t = interrupt-IsTimed nmi_vector m' (omega arith) v' in
      record {
        count = t.count;
        valid = t.valid;
        cycles = t.cycles;
        prev_nmi = t.prev_nmi;
        irq_line = t.irq_line;
        nmi_taken = t.nmi_pending;
      }

  running-IsStep : (m : Machine S) → IsValid laws m → IsStep laws m (running m.cpu m)
  unfolding running
  running-IsStep m v =
      if-IsStep m m.cpu.nmi_pending _ _ (λ _. nmi-IsStep m v)
        λ none.
          if-IsStep m (m.cpu.irq_line && not m.cpu.regs.p.i) (interrupt irq_vector) instruction
            (λ _. IsTimed-IsStep m _ none (interrupt-IsTimed irq_vector m (omega arith) v))
            (λ _. IsTimed-IsStep m _ none (instruction-IsTimed m v))

  step-running : (m : Machine S) → m.cpu.halted ≡ false → step m ≡ running m.cpu m
  unfolding step ◌>>=◌ get_cpu
  step-running m h = rw h

  -- On any bus of bytes, a step of a valid machine that is not halted leads to a valid machine:
  -- every register is in range, the `U` flag is set and `B` is clear. It reports between 2 and 8
  -- cycles, adds just those to the count modulo 2 ^ 64, leaves both line levels alone, and leaves no
  -- NMI pending.
  pub step-IsStep : (m : Machine S) → m.cpu.halted ≡ false → IsValid laws m → IsStep laws m (step m)
  step-IsStep m h v = rw (step-running m h) (running-IsStep m v)
