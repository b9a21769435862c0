-- ===== src/Device/Tests.antt =====
-- The theorems about the devices at a bus with a UART, whose sink keeps the bytes.
use remu.Prelude.{
  sym, ℕ, ◌+◌, ◌≡◌, refl, arith, true, false, some, List, [], ◌∷◌, ◌++◌, length, test,
}
use remu.Device.{SystemBus, new_bus, map_device, read_system, write_system}
use remu.Device.Uart.{Sink, Uart16550, with_output, feed, dlab, uart_device}
use remu.Device.Windows.{extended, map_device-access}
use remu.Device.Console.{drain, drain-feed, write_bytes, write_bytes-latch}
use remu.Device.Traffic.{Access, load, store, sent, run, IsSink, run-sent}
use mathlib.Core.List.{append_assoc, append-nil}

instance abbrev captured : Sink (List ℕ)
captured = record { write_all = λ bytes tx. tx ++ bytes; flush = λ tx. tx }

abbrev uart : Uart16550 (List ℕ)
uart = with_output []

-- With DLAB set.
abbrev latched : Uart16550 (List ℕ)
latched = record (uart) { lcr = 0x80 }

abbrev empty_bus : SystemBus (Uart16550 (List ℕ))
empty_bus = new_bus

uart_clear : dlab uart ≡ false
unfolding test
uart_clear = refl

latched_set : dlab latched ≡ true
unfolding test
latched_set = refl

drain-feed_example :
    drain (length (uart.rx ++ (1 ∷ 2 ∷ []))) (feed (1 ∷ 2 ∷ []) uart)
    ≡ (uart.rx ++ (1 ∷ 2 ∷ []), record (uart) { rx = [] })
drain-feed_example = drain-feed (1 ∷ 2 ∷ []) uart uart_clear

-- A sink that holds what it is given until a flush: what it has let out, and what it holds.
abbrev Buffer : Type 0
Buffer = List ℕ × List ℕ

instance abbrev buffered : Sink Buffer
buffered = record {
  write_all = λ bytes tx. (tx.0, tx.1 ++ bytes);
  flush = λ tx. (tx.0 ++ tx.1, []);
}

abbrev accepted : Buffer → List ℕ
accepted tx = tx.0 ++ tx.1

abbrev delivered : Buffer → List ℕ
delivered tx = tx.0

buffered-IsSink : IsSink buffered accepted delivered
buffered-IsSink = record {
  accepted-write_all = λ bytes tx. sym (append_assoc tx.0 tx.1 bytes);
  accepted-flush = λ tx. append-nil (tx.0 ++ tx.1);
  delivered-flush = λ tx. refl;
}

-- A program that sets the divisor, and then sends two bytes with a look at the line status.
abbrev set_up : List Access
set_up =
    store 3 0x80 ∷ store 0 12 ∷ store 1 0 ∷ store 3 0x03 ∷ store 0 72 ∷ load 5 ∷ store 0 105 ∷ []

abbrev console : Uart16550 Buffer
console = with_output ([], [])

two_sent : sent (dlab console) set_up ≡ 72 ∷ 105 ∷ []
unfolding test
two_sent = refl

run-sent_example :
    (accepted (run set_up console).tx ≡ accepted console.tx ++ sent (dlab console) set_up)
    × (delivered (run set_up console).tx ≡ accepted console.tx ++ sent (dlab console) set_up)
run-sent_example = run-sent accepted delivered buffered-IsSink set_up console refl

write_bytes-latch_example :
    ((write_bytes 0 (12 ∷ []) latched).tx ≡ latched.tx)
    × ((write_bytes 0 (12 ∷ []) latched).rx ≡ latched.rx)
    × (dlab (write_bytes 0 (12 ∷ []) latched) ≡ true)
write_bytes-latch_example = write_bytes-latch 0 (12 ∷ []) latched (λ e. ground arith) latched_set

map_device-access_example :
    (map_device 0x8000 8 uart empty_bus ≡ some (extended 0x8000 8 uart empty_bus))
    × (read_system (0x8000 + 5) (extended 0x8000 8 uart empty_bus)
        ≡ (let (v, after) = uart_device.read 5 uart in (v, extended 0x8000 8 after empty_bus)))
    × (write_system (0x8000 + 5) 65 (extended 0x8000 8 uart empty_bus)
        ≡ extended 0x8000 8 (uart_device.write 5 65 uart) empty_bus)
map_device-access_example =
    map_device-access 0x8000 8 5 65 uart empty_bus (omega arith) (omega arith) refl
