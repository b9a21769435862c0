-- ===== src/I386/Pte.antt =====
-- x86_32/paging.rs, `pte`: the bits of the entries of both levels.
use remu.Prelude.{ℕ}

abbrev pub p : ℕ
p = 0x1

abbrev pub rw : ℕ
rw = 0x2

abbrev pub us : ℕ
us = 0x4

abbrev pub a : ℕ
a = 0x20

abbrev pub d : ℕ
d = 0x40
