-- ===== src/I386/Cr0.antt =====
-- x86_32/registers.rs, `cr0`: the bits of the control register.
use remu.Prelude.{ℕ}

abbrev pub pe : ℕ
pe = 0x1

abbrev pub mp : ℕ
mp = 0x2

abbrev pub em : ℕ
em = 0x4

abbrev pub ts : ℕ
ts = 0x8

abbrev pub et : ℕ
et = 0x10

abbrev pub pg : ℕ
pg = 0x80000000
