-- ===== src/Device/Uart.antt =====
-- device/uart.rs: the 16550 UART. Its sink is an `io::Write`, of which the code uses `write_all` and
-- `flush` and drops their results: a parameter here.
use remu.Prelude.{ℕ, Bool, List, [], ◌∷◌, ◌++◌, ◌==◌, if◌then◌else◌, test, bit_or}
use remu.Device.{Device}

pub record Sink (T : Type 0) : Type 0 where
  pub write_all : List ℕ → T → T
  pub flush : T → T

pub record Uart16550 (T : Type 0) : Type 0 where
  pub tx : T
  pub rx : List ℕ
  pub ier : ℕ
  pub lcr : ℕ
  pub mcr : ℕ
  pub scratch : ℕ
  pub divisor : ℕ × ℕ

-- `self.rx.pop_front().unwrap_or(0)`
abbrev pub pop_front : List ℕ → ℕ × List ℕ
pop_front [] = (0, [])
pop_front (byte ∷ bytes) = (byte, bytes)

-- `rx_ready`
abbrev pub rx_ready : List ℕ → ℕ
rx_ready [] = 0
rx_ready (byte ∷ bytes) = 0x01

module _ {T : Type 0} where
  abbrev pub with_output : T → Uart16550 T
  with_output tx = record {
    tx = tx;
    rx = [];
    ier = 0;
    lcr = 0;
    mcr = 0;
    scratch = 0;
    divisor = (0, 0);
  }

  abbrev pub feed : List ℕ → Uart16550 T → Uart16550 T
  feed bytes u = record u { rx = u.rx ++ bytes }

  abbrev pub dlab : Uart16550 T → Bool
  dlab u = test u.lcr 0x80

  abbrev pub read_rbr : Uart16550 T → ℕ × Uart16550 T
  read_rbr u =
      if dlab u
      then (u.divisor.0, u)
      else let (byte, rx) = pop_front u.rx in (byte, record u { rx = rx })

  unfoldable pub read_register : ℕ → Uart16550 T → ℕ × Uart16550 T
  read_register offset u =
      if offset == 0
      then read_rbr u
      else if offset == 1
      then ((if dlab u then u.divisor.1 else u.ier), u)
      else if offset == 2
      then (0x01, u)
      else if offset == 3
      then (u.lcr, u)
      else if offset == 4
      then (u.mcr, u)
      else if offset == 5
      then (bit_or (bit_or 0x20 0x40) (rx_ready u.rx), u)
      else if offset == 6
      then (0, u)
      else if offset == 7
      then (u.scratch, u)
      else (0, u)

  module _ ⦃sink : Sink T⦄ where
    abbrev pub write_thr : ℕ → Uart16550 T → Uart16550 T
    write_thr value u =
        if dlab u
        then record u { divisor = (value, u.divisor.1) }
        else record u { tx = sink.flush (sink.write_all (value ∷ []) u.tx) }

    abbrev pub write_ier : ℕ → Uart16550 T → Uart16550 T
    write_ier value u =
        if dlab u then record u { divisor = (u.divisor.0, value) } else record u { ier = value }

    unfoldable pub write_register : ℕ → ℕ → Uart16550 T → Uart16550 T
    write_register offset value u =
        if offset == 0
        then write_thr value u
        else if offset == 1
        then write_ier value u
        else if offset == 2
        then u
        else if offset == 3
        then record u { lcr = value }
        else if offset == 4
        then record u { mcr = value }
        else if offset == 5
        then u
        else if offset == 6
        then u
        else if offset == 7
        then record u { scratch = value }
        else u

    instance abbrev pub uart_device : Device (Uart16550 T)
    uart_device = record { read = read_register; write = write_register }
