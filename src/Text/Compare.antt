-- ===== src/Text/Compare.antt =====
-- `strncmp(s, literal, n) == 0`.
use utsavbalar_linux_kernel.Base.{
  ℕ, zero, suc, ◌<◌, ◌≡◌, refl, Bool, true, false, ◌&&◌, ◌||◌, List, [], ◌∷◌, ◌++◌, arith, ◌==◌,
  length,
}

-- The end of a list stands for the terminator.
unfoldable pub strncmp_eq : ℕ → List ℕ → List ℕ → Bool
strncmp_eq zero s t = true
strncmp_eq (suc n) [] [] = true
strncmp_eq (suc n) [] (y ∷ t) = y == 0
strncmp_eq (suc n) (x ∷ s) [] = x == 0
strncmp_eq (suc n) (x ∷ s) (y ∷ t) = x == y && (x == 0 || strncmp_eq n s t)

abbrev pub starts_with : List ℕ → List ℕ → Bool
starts_with [] bytes = true
starts_with (y ∷ word) [] = false
starts_with (y ∷ word) (x ∷ bytes) = x == y && starts_with word bytes

abbrev pub NoZero : List ℕ → Type 0
NoZero [] = Unit
NoZero (x ∷ xs) = (0 < x) × NoZero xs

-- Over a buffer that the driver has terminated, the comparison with a word asks whether the bytes
-- begin with it.
pub strncmp_eq-starts_with :
    (word bytes : List ℕ)
    → NoZero word
    → strncmp_eq (length word) (bytes ++ (0 ∷ [])) word ≡ starts_with word bytes
unfolding strncmp_eq
strncmp_eq-starts_with [] bytes h = refl
strncmp_eq-starts_with (y ∷ word) [] h = ground arith
strncmp_eq-starts_with (y ∷ word) (x ∷ bytes) h =
    ground (arith, strncmp_eq-starts_with word bytes h.1)
