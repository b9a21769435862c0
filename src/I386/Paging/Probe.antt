-- ===== src/I386/Paging/Probe.antt =====
-- The probe of the cache, which does not fault.
use remu.Prelude.{ℕ, ◌/◌, ◌≡◌, arith, false, ◌&&◌, not, ◌||◌, some, Bool-cases, inl, inr, ◌==◌}
use remu.Prelude.Outcome.{ok}
use remu.I386.Bus.{Bus}
use remu.I386.Cpu.{Machine, peek, slot_of}
use remu.I386.Paging.{translate, allows, user_access}

module _ {S : Type 0} ⦃b : Bus S⦄ where
  -- On any bus: an address that `peek` finds for the current privilege is the one that `translate`
  -- gives for a read, and `translate` then changes nothing.
  pub translate-peek :
      (lin p : ℕ) (m : Machine S)
      → peek lin (user_access m.cpu) m.cpu.tlb ≡ some p
      → translate lin false m ≡ (ok p, m)
  unfolding peek translate allows
  translate-peek lin p m h =
      let e = m.cpu.tlb.entries (slot_of (lin / 4096)) in
      elim (Bool-cases ((e.tag == lin / 4096) && (not (user_access m.cpu) || e.user))) [
        | inl k ↦ ground (arith, h, k)
        | inr k ↦ absurd (ground (arith, h, k))
      ]
