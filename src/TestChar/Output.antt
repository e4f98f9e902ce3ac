-- ===== src/TestChar/Output.antt =====
-- What the loops of `read_device` in tutorial-02/test_char.c print.
use utsavbalar_linux_kernel.Base.{
  ℕ, suc, ◌+◌, ◌*◌, ◌/◌, ◌≤◌, ◌<◌, ◌≡◌, refl, ◌⊎◌, List, [], ◌∷◌, arith, length,
}
use utsavbalar_linux_kernel.TestChar.{
  Token, hex, newline, as_text, hex_dump, count_printable, dump_from, text_of, display,
}

-- The bytes of a dump.
abbrev pub dumped : List Token → List ℕ
dumped [] = []
dumped (hex b ∷ ts) = b ∷ dumped ts
dumped (newline ∷ ts) = dumped ts

dumped-dump_from : (i : ℕ) (bytes : List ℕ) → dumped (dump_from i bytes) ≡ bytes
unfolding dump_from
dumped-dump_from i [] = refl
dumped-dump_from i (b ∷ bytes) = ground (arith, dumped-dump_from (i + 1) bytes)

abbrev pub newlines : List Token → ℕ
newlines [] = 0
newlines (hex b ∷ ts) = newlines ts
newlines (newline ∷ ts) = suc (newlines ts)

newlines-dump_from :
    (i : ℕ) (bytes : List ℕ) → newlines (dump_from i bytes) + i / 16 ≡ (i + length bytes) / 16
unfolding dump_from
newlines-dump_from i [] = omega arith
newlines-dump_from i (b ∷ bytes) = ground (arith, newlines-dump_from (i + 1) bytes)

-- Every display is of one of two kinds: a text, where more than four fifths of the data are
-- printable, or a dump that has each byte of the data once, in order, in rows of 16.
pub display_lem :
    (bytes : List ℕ)
    → ((display bytes ≡ as_text (text_of bytes)) × (4 * length bytes < 5 * count_printable bytes))
      ⊎ ((display bytes ≡ hex_dump (dump_from 0 bytes))
          × (5 * count_printable bytes ≤ 4 * length bytes)
          × (dumped (dump_from 0 bytes) ≡ bytes)
          × (newlines (dump_from 0 bytes) ≡ length bytes / 16))
unfolding display
display_lem bytes = ground (arith, dumped-dump_from 0 bytes, newlines-dump_from 0 bytes)
