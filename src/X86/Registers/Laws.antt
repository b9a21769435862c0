-- ===== src/X86/Registers/Laws.antt =====
-- FLAGS as a word, and the register file.
use remu.Prelude.{
  ℕ, ◌+◌, ◌/◌, ◌%◌, ◌<◌, ◌≡◌, arith, Bool, of_bool, of_bool-lt, of_bool-eq_one, ◌==◌,
}
use remu.Prelude.Bits.{bit_or_step, bit_or_sum, bit_or_comm}
use remu.X86.Registers.{Flags, bits, to_word, from_word}

bits_parts : (f : Flags) → (bits f < 4096) × (bits f / 2 % 2 ≡ 0)
unfolding bits
bits_parts f = (
  omega (
    arith,
    of_bool-lt f.cf,
    of_bool-lt f.pf,
    of_bool-lt f.af,
    of_bool-lt f.zf,
    of_bool-lt f.sf,
    of_bool-lt f.tf,
    of_bool-lt f.iflag,
    of_bool-lt f.df,
    of_bool-lt f.oflag,
  ),
  omega (
    arith,
    of_bool-lt f.cf,
    of_bool-lt f.pf,
    of_bool-lt f.af,
    of_bool-lt f.zf,
    of_bool-lt f.sf,
    of_bool-lt f.tf,
    of_bool-lt f.iflag,
    of_bool-lt f.df,
    of_bool-lt f.oflag,
  ),
)

-- The reserved bits of the word are set.
pub to_word_sum : (f : Flags) → to_word f ≡ bits f + 0xF002
unfolding to_word
to_word_sum f =
    let (h, d) = bits_parts f in
    omega (
      arith,
      h,
      d,
      bit_or_step (bits f) 0xF002,
      bit_or_step (bits f / 2) 0x7801,
      bit_or_comm (bits f / 2 / 2) 0x3C00,
      bit_or_sum 10 15 (bits f / 2 / 2) (omega (arith, h)),
    )

pub to_word-lt : (f : Flags) → to_word f < 65536
to_word-lt f = let (h, d) = bits_parts f in omega (arith, to_word_sum f, h)

-- Each flag is a digit of the word.
digits_to_word :
    (f : Flags)
    → (to_word f % 2 ≡ of_bool f.cf)
      × (to_word f / 4 % 2 ≡ of_bool f.pf)
      × (to_word f / 16 % 2 ≡ of_bool f.af)
      × (to_word f / 64 % 2 ≡ of_bool f.zf)
      × (to_word f / 128 % 2 ≡ of_bool f.sf)
      × (to_word f / 256 % 2 ≡ of_bool f.tf)
      × (to_word f / 512 % 2 ≡ of_bool f.iflag)
      × (to_word f / 1024 % 2 ≡ of_bool f.df)
      × (to_word f / 2048 % 2 ≡ of_bool f.oflag)
unfolding bits
digits_to_word f = omega (
  arith,
  to_word_sum f,
  of_bool-lt f.cf,
  of_bool-lt f.pf,
  of_bool-lt f.af,
  of_bool-lt f.zf,
  of_bool-lt f.sf,
  of_bool-lt f.tf,
  of_bool-lt f.iflag,
  of_bool-lt f.df,
  of_bool-lt f.oflag,
)

flag_of_digit : (n : ℕ) (b : Bool) → n ≡ of_bool b → (n == 1) ≡ b
flag_of_digit n b h = rw h (of_bool-eq_one b)

-- The flags are read back from the word that they make.
pub from_word-to_word : (f : Flags) → from_word (to_word f) ≡ f
unfolding from_word
from_word-to_word f =
    let h = digits_to_word f in
    λ k. record {
      cf = flag_of_digit _ f.cf h.0 k;
      pf = flag_of_digit _ f.pf h.1 k;
      af = flag_of_digit _ f.af h.2 k;
      zf = flag_of_digit _ f.zf h.3 k;
      sf = flag_of_digit _ f.sf h.4 k;
      tf = flag_of_digit _ f.tf h.5 k;
      iflag = flag_of_digit _ f.iflag h.6 k;
      df = flag_of_digit _ f.df h.7 k;
      oflag = flag_of_digit _ f.oflag h.8 k;
    }
