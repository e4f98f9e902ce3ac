-- ===== src/Text/Decimal.antt =====
-- `%d` of an `int`, the codes of a literal, and what `snprintf` leaves in a buffer.
use utsavbalar_linux_kernel.Base.{
  ℕ, zero, suc, ◌+◌, ◌-◌, ◌*◌, ◌/◌, ◌%◌, ◌^◌, ◌≤◌, ◌<◌, ◌≡◌, refl, inl, inr, List, [], ◌∷◌, ◌++◌,
  arith, ltb, if◌then◌else◌, Bool-cases, length, take, length-append, ℤ, pos, negsuc,
}
use Prim.Native.Char.{code}
use Prim.Native.String.{String}
use native.Mathlib.Nat.{pow-suc}

-- The bytes of an ASCII literal.
abbrev pub codes : String → List ℕ
codes String.[] = []
codes (String.◌∷◌ c s) = code c ∷ codes s

-- At most `fuel` digits; an `int` has at most 10.
unfoldable pub show_nat : ℕ → ℕ → List ℕ
show_nat zero n = []
show_nat (suc fuel) n =
    let rest = show_nat fuel (n / 10) in
    if ltb n 10 then (48 + n) ∷ [] else rest ++ ((48 + n % 10) ∷ [])

unfoldable pub show_int : ℤ → List ℕ
unfolding show_nat
show_int (pos n) = show_nat 10 n
show_int (negsuc n) = b'-' ∷ show_nat 10 (n + 1)

-- The number that a row of digits stands for.
abbrev pub value_from : ℕ → List ℕ → ℕ
value_from acc [] = acc
value_from acc (d ∷ ds) = value_from (acc * 10 + (d - 48)) ds

value_from-append :
    (acc : ℕ) (ds es : List ℕ) → value_from acc (ds ++ es) ≡ value_from (value_from acc ds) es
value_from-append acc [] es = refl
value_from-append acc (d ∷ ds) es = value_from-append (acc * 10 + (d - 48)) ds es

-- Enough digits give the number back.
pub value_from-show_nat : (fuel n : ℕ) → n < 10 ^ fuel → value_from 0 (show_nat fuel n) ≡ n
unfolding show_nat
value_from-show_nat zero n h = omega arith
value_from-show_nat (suc fuel) n h = elim (Bool-cases (ltb n 10)) [
  | inl small ↦ rw small (ground arith)
  | inr big ↦
      let h' : n < 10 ^ fuel * 10 = rw (← pow-suc) h in
      rw big (
        ground (
          arith,
          value_from-append 0 (show_nat fuel (n / 10)) ((48 + n % 10) ∷ []),
          value_from-show_nat fuel (n / 10) (omega arith),
        ))
]

length-show_nat : (fuel n : ℕ) → length (show_nat fuel n) ≤ fuel
unfolding show_nat
length-show_nat zero n = omega arith
length-show_nat (suc fuel) n = ground (
  arith,
  length-show_nat fuel (n / 10),
  length-append (show_nat fuel (n / 10)) ((48 + n % 10) ∷ []),
)

pub length-show_int : (x : ℤ) → length (show_int x) ≤ 11
unfolding show_int
length-show_int (pos n) = omega (arith, length-show_nat 10 n)
length-show_int (negsuc n) = omega (arith, length-show_nat 10 (n + 1))

-- What a call with room for `size` bytes stores: the text, cut to leave room for the terminator.
abbrev pub snprintf_bytes : ℕ → List ℕ → List ℕ
snprintf_bytes size text = take (size - 1) text ++ (0 ∷ [])
