-- ===== src/Device/Console.antt =====
-- The UART as a console: what is fed comes out of `RBR` in order, and nothing of the divisor latch is
-- sent.
use remu.Prelude.{
  ℕ, zero, suc, ◌≡◌, ◌≢◌, refl, arith, Bool, true, false, List, [], ◌∷◌, ◌++◌, ◌==◌, if◌then◌else◌,
  length, ◌∙◌,
}
use remu.Device.Uart.{
  Sink, Uart16550, feed, dlab, read_register, write_register, write_thr, write_ier,
}

module _ {T : Type 0} where
  -- `n` reads of `RBR`.
  abbrev pub drain : ℕ → Uart16550 T → List ℕ × Uart16550 T
  drain zero u = ([], u)
  drain (suc n) u =
      let (byte, u1) = read_register 0 u in let (bytes, u2) = drain n u1 in (byte ∷ bytes, u2)

  drain_queue :
      (queue : List ℕ) (u : Uart16550 T)
      → dlab u ≡ false
      → drain (length queue) (record u { rx = queue }) ≡ (queue, record u { rx = [] })
  unfolding read_register
  drain_queue [] u h = refl
  drain_queue (byte ∷ queue) u h = rw h (rw (drain_queue queue u h) refl)

  -- While DLAB is clear, as many reads of `RBR` as bytes wait give those bytes, the ones that were
  -- waiting first and then the fed ones in their order, and leave the queue empty and the rest of
  -- the UART as it was.
  pub drain-feed :
      (bytes : List ℕ) (u : Uart16550 T)
      → dlab u ≡ false
      → drain (length (u.rx ++ bytes)) (feed bytes u) ≡ (u.rx ++ bytes, record u { rx = [] })
  drain-feed bytes u h = drain_queue (u.rx ++ bytes) u h

  -- What a write with DLAB set keeps.
  abbrev Kept : Uart16550 T → Uart16550 T → Type 0
  Kept u w = (w.tx ≡ u.tx) × (w.rx ≡ u.rx) × (dlab w ≡ true)

  if_holds :
      (P : Uart16550 T → Type 0) (b : Bool) (x y : Uart16550 T)
      → (b ≡ true → P x)
      → (b ≡ false → P y)
      → P (if b then x else y)
  if_holds P true x y h k = h refl
  if_holds P false x y h k = k refl

  module _ ⦃sink : Sink T⦄ where
    -- The bytes one after another to the register at `offset`.
    abbrev pub write_bytes : ℕ → List ℕ → Uart16550 T → Uart16550 T
    write_bytes offset [] u = u
    write_bytes offset (byte ∷ bytes) u = write_bytes offset bytes (write_register offset byte u)

    -- What holds of the UART after a write, by the register that is written.
    pub write_register-cases :
        (P : Uart16550 T → Type 0) (offset byte : ℕ) (u : Uart16550 T)
        → (offset ≡ 0 → P (write_thr byte u))
        → (offset ≡ 1 → P (write_ier byte u))
        → (offset ≡ 3 → P (record u { lcr = byte }))
        → (offset ≢ 0 → offset ≢ 3 → P (record u { mcr = byte }))
        → (offset ≢ 0 → offset ≢ 3 → P (record u { scratch = byte }))
        → (offset ≢ 0 → offset ≢ 3 → P u)
        → P (write_register offset byte u)
    unfolding write_register
    write_register-cases P offset byte u thr ier lcr mcr scratch same =
        if_holds P (offset == 0) _ _ (λ e. thr (ground (arith, e)))
          λ n0.
            if_holds P (offset == 1) _ _ (λ e. ier (ground (arith, e)))
              λ n1.
                let zero : offset ≢ 0 = λ e. ground (arith, e, n0) in
                if_holds P (offset == 2) _ _ (λ e. same zero (λ t. ground (arith, e, t)))
                  λ n2.
                    if_holds P (offset == 3) _ _ (λ e. lcr (ground (arith, e)))
                      λ n3.
                        let three : offset ≢ 3 = λ e. ground (arith, e, n3) in
                        if_holds P (offset == 4) _ _ (λ _. mcr zero three)
                          λ n4.
                            if_holds P (offset == 5) _ _ (λ _. same zero three)
                              λ n5.
                                if_holds P (offset == 6) _ _ (λ _. same zero three)
                                  λ n6.
                                    if_holds P (offset == 7) _ _ (λ _. scratch zero three)
                                      λ n7. same zero three

    latch-Kept :
        (offset byte : ℕ) (u : Uart16550 T)
        → offset ≢ 3
        → dlab u ≡ true
        → Kept u (write_register offset byte u)
    latch-Kept offset byte u ne h =
        write_register-cases (Kept u) offset byte u (λ _. rw h (refl, refl, h))
          (λ _. rw h (refl, refl, h)) (λ e. absurd (ne e)) (λ _ _. (refl, refl, h))
          (λ _ _. (refl, refl, h)) (λ _ _. (refl, refl, h))

    -- While DLAB is set, bytes written to any register but `LCR` leave the sink and the receive
    -- queue alone: nothing of the divisor latch gets out.
    pub write_bytes-latch :
        (offset : ℕ) (bytes : List ℕ) (u : Uart16550 T)
        → offset ≢ 3
        → dlab u ≡ true
        → ((write_bytes offset bytes u).tx ≡ u.tx)
          × ((write_bytes offset bytes u).rx ≡ u.rx)
          × (dlab (write_bytes offset bytes u) ≡ true)
    write_bytes-latch offset [] u ne h = (refl, refl, h)
    write_bytes-latch offset (byte ∷ bytes) u ne h =
        let one = latch-Kept offset byte u ne h in
        let rest = write_bytes-latch offset bytes (write_register offset byte u) ne one.2 in
        (rest.0 ∙ one.0, rest.1 ∙ one.1, rest.2)
