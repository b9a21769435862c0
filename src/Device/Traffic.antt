-- ===== src/Device/Traffic.antt =====
-- What the UART sends while a guest reads and writes its registers, as an automaton with one bit says
-- it: the divisor latch bit, which moves the first register from the line to the latch.
use remu.Prelude.{
  ℕ, ◌≡◌, ◌≢◌, refl, sym, ap, arith, ◌∙◌, Bool, true, false, not, ◌&&◌, List, [], ◌∷◌, ◌++◌, ◌==◌,
  if◌then◌else◌, test,
}
use mathlib.Core.List.{append_assoc, append-nil}
use remu.Device.Uart.{Sink, Uart16550, dlab, read_register, write_register, write_thr, write_ier}
use remu.Device.Console.{write_register-cases}

-- An access of the guest: to the register at an offset.
pub data Access : Type 0 where
  load : ℕ → Access
  store : ℕ → ℕ → Access

-- The bytes that accesses send, from a value of the latch bit on.
abbrev pub one_sent : Bool → ℕ → ℕ → List ℕ
one_sent latch offset value = if (offset == 0) && not latch then value ∷ [] else []

abbrev pub next_latch : Bool → ℕ → ℕ → Bool
next_latch latch offset value = if offset == 3 then test value 0x80 else latch

abbrev pub sent : Bool → List Access → List ℕ
sent latch [] = []
sent latch (load offset ∷ rest) = sent latch rest
sent latch (store offset value ∷ rest) =
    one_sent latch offset value ++ sent (next_latch latch offset value) rest

-- What is relied on of an `io::Write`: `accepted` holds what it was given, and `delivered` what has
-- left it, which a flush makes all.
pub record IsSink {T : Type 0} (sink : Sink T) (accepted delivered : T → List ℕ) : Type 0 where
  pub accepted-write_all :
      (bytes : List ℕ) (tx : T) → accepted (sink.write_all bytes tx) ≡ accepted tx ++ bytes
  pub accepted-flush : (tx : T) → accepted (sink.flush tx) ≡ accepted tx
  pub delivered-flush : (tx : T) → delivered (sink.flush tx) ≡ accepted tx

module _ {T : Type 0} ⦃sink : Sink T⦄ where
  -- The UART after an access, and after a sequence of them.
  abbrev pub access : Access → Uart16550 T → Uart16550 T
  access (load offset) u = (read_register offset u).1
  access (store offset value) u = write_register offset value u

  abbrev pub run : List Access → Uart16550 T → Uart16550 T
  run [] u = u
  run (a ∷ rest) u = run rest (access a u)

  load_keeps :
      (offset : ℕ) (u : Uart16550 T)
      → ((read_register offset u).1.tx ≡ u.tx) × (dlab (read_register offset u).1 ≡ dlab u)
  unfolding read_register
  load_keeps offset u =
      if_keeps (offset == 0) _ _ (if_keeps (dlab u) _ _ (refl, refl) (refl, refl)) (
        if_keeps (offset == 1) _ _ (refl, refl)
          (if_keeps (offset == 2) _ _ (refl, refl)
            (if_keeps (offset == 3) _ _ (refl, refl)
              (if_keeps (offset == 4) _ _ (refl, refl)
                (if_keeps (offset == 5) _ _ (refl, refl)
                  (if_keeps (offset == 6) _ _ (refl, refl)
                    (if_keeps (offset == 7) _ _ (refl, refl) (refl, refl))))))))
    where
      if_keeps :
          (c : Bool) (x y : ℕ × Uart16550 T)
          → (x.1.tx ≡ u.tx) × (dlab x.1 ≡ dlab u)
          → (y.1.tx ≡ u.tx) × (dlab y.1 ≡ dlab u)
          → let r = if c then x else y in (r.1.tx ≡ u.tx) × (dlab r.1 ≡ dlab u)
      if_keeps true x y h k = h
      if_keeps false x y h k = k

  module _ (accepted delivered : T → List ℕ) (is_sink : IsSink sink accepted delivered) where
    -- The UART `w` is `u` with `bytes` sent, at the value `latch` of the latch bit.
    record Sends (bytes : List ℕ) (latch : Bool) (u w : Uart16550 T) : Type 0 where
      pub tx : accepted w.tx ≡ accepted u.tx ++ bytes
      pub bit : dlab w ≡ latch
      pub done : delivered u.tx ≡ accepted u.tx → delivered w.tx ≡ accepted w.tx

    -- Nothing is sent.
    silent : (u w : Uart16550 T) (latch : Bool) → w.tx ≡ u.tx → dlab w ≡ latch → Sends [] latch u w
    silent u w latch e d = record {
      tx = ap accepted e ∙ sym (append-nil (accepted u.tx));
      bit = d;
      done = λ h. ap delivered e ∙ h ∙ sym (ap accepted e);
    }

    -- A register that is neither the first nor `LCR`.
    aside :
        (offset value : ℕ) (u w : Uart16550 T)
        → offset ≢ 0
        → offset ≢ 3
        → w.tx ≡ u.tx
        → dlab w ≡ dlab u
        → Sends (one_sent (dlab u) offset value) (next_latch (dlab u) offset value) u w
    aside offset value u w zero three e d =
        let first : (offset == 0) ≡ false = ground (arith, zero) in
        let control : (offset == 3) ≡ false = ground (arith, three) in
        rw (first, control) (silent u w (dlab u) e d)

    write_thr-Sends :
        (value : ℕ) (u : Uart16550 T) (latch : Bool)
        → dlab u ≡ latch
        → Sends (one_sent latch 0 value) latch u (write_thr value u)
    write_thr-Sends value u true h = rw h (silent u _ true refl h)
    write_thr-Sends value u false h =
        let given = sink.write_all (value ∷ []) u.tx in
        rw h (record {
          tx = is_sink.accepted-flush given ∙ is_sink.accepted-write_all (value ∷ []) u.tx;
          bit = h;
          done = λ _. is_sink.delivered-flush given ∙ sym (is_sink.accepted-flush given);
        })

    write_ier-Sends :
        (value : ℕ) (u : Uart16550 T) (latch : Bool)
        → dlab u ≡ latch
        → Sends [] latch u (write_ier value u)
    write_ier-Sends value u true h = rw h (silent u _ true refl h)
    write_ier-Sends value u false h = rw h (silent u _ false refl h)

    write_register-Sends :
        (offset value : ℕ) (u : Uart16550 T)
        → Sends
            (one_sent (dlab u) offset value)
            (next_latch (dlab u) offset value)
            u
            (write_register offset value u)
    write_register-Sends offset value u =
        write_register-cases
          (Sends (one_sent (dlab u) offset value) (next_latch (dlab u) offset value) u) offset value
          u (λ e. rw e (write_thr-Sends value u (dlab u) refl))
          (λ e. rw e (write_ier-Sends value u (dlab u) refl))
          (λ e. rw e (silent u _ (test value 0x80) refl refl))
          (λ zero three. aside offset value u _ zero three refl refl)
          (λ zero three. aside offset value u _ zero three refl refl)
          (λ zero three. aside offset value u _ zero three refl refl)

    -- One access after another.
    then_sends :
        (bytes rest : List ℕ) (u v w : Uart16550 T)
        → accepted v.tx ≡ accepted u.tx ++ bytes
        → accepted w.tx ≡ accepted v.tx ++ rest
        → accepted w.tx ≡ accepted u.tx ++ (bytes ++ rest)
    then_sends bytes rest u v w e f =
        f ∙ ap (λ (t : List ℕ). t ++ rest) e ∙ append_assoc (accepted u.tx) bytes rest

    run_sends :
        (accesses : List Access) (u : Uart16550 T) (latch : Bool)
        → dlab u ≡ latch
        → (accepted (run accesses u).tx ≡ accepted u.tx ++ sent latch accesses)
          × (delivered u.tx ≡ accepted u.tx
              → delivered (run accesses u).tx ≡ accepted (run accesses u).tx)
    run_sends [] u latch h = (sym (append-nil (accepted u.tx)), λ d. d)
    run_sends (load offset ∷ rest) u latch h =
        let v = access (load offset) u in
        let same = load_keeps offset u in
        let (e, d) = run_sends rest v latch (same.1 ∙ h) in
        (
          e ∙ ap (λ (t : T). accepted t ++ sent latch rest) same.0,
          λ k. d (ap delivered same.0 ∙ k ∙ sym (ap accepted same.0)),
        )
    run_sends (store offset value ∷ rest) u latch h =
        let v = access (store offset value) u in
        let s = write_register-Sends offset value u in
        let next = next_latch latch offset value in
        let (e, d) =
          run_sends rest v next (s.bit ∙ ap (λ (t : Bool). next_latch t offset value) h) in
        (
          then_sends (one_sent latch offset value) (sent next rest) u v (run rest v)
              (s.tx ∙ ap (λ (t : Bool). accepted u.tx ++ one_sent t offset value) h) e,
          λ k. d (s.done k),
        )

    -- For a sink that keeps what it accepts in order and delivers it all on a flush, and has delivered
    -- what it accepted: after any sequence of reads and writes of registers, the sink has accepted
    -- exactly the bytes that were written to the first register while bit 7 of `LCR`, as it was last
    -- written or at first, was clear, in their order behind those it had, and has delivered them all.
    pub run-sent :
        (accesses : List Access) (u : Uart16550 T)
        → delivered u.tx ≡ accepted u.tx
        → (accepted (run accesses u).tx ≡ accepted u.tx ++ sent (dlab u) accesses)
          × (delivered (run accesses u).tx ≡ accepted u.tx ++ sent (dlab u) accesses)
    run-sent accesses u h = let (e, d) = run_sends accesses u (dlab u) refl in (e, d h ∙ e)
