-- ===== src/TestSync/StatusText.antt =====
-- The status text of tutorial-04/sync_demo.c has no terminator inside, so `%s` prints all of it.
use utsavbalar_linux_kernel.Base.{
  ℕ, zero, suc, ◌+◌, ◌/◌, ◌≡◌, refl, ap, inl, inr, List, [], ◌∷◌, ◌++◌, arith, ltb, Bool-cases, ℤ,
  pos, negsuc, signed32,
}
use utsavbalar_linux_kernel.Text.{codes, show_nat, show_int}
use utsavbalar_linux_kernel.TestChar.{text_of}
use utsavbalar_linux_kernel.SyncDemo.{Counters, status}

text_of-append :
    (xs ys : List ℕ) → text_of xs ≡ xs → text_of ys ≡ ys → text_of (xs ++ ys) ≡ xs ++ ys
unfolding text_of
text_of-append [] ys h h' = h'
text_of-append (zero ∷ xs) ys h h' = ground arith
text_of-append (suc x ∷ xs) ys h h' =
    let tail : text_of xs ≡ xs = ground arith in ground (arith, text_of-append xs ys tail h')

text_of-show_nat : (fuel n : ℕ) → text_of (show_nat fuel n) ≡ show_nat fuel n
unfolding show_nat text_of
text_of-show_nat zero n = refl
text_of-show_nat (suc fuel) n = elim (Bool-cases (ltb n 10)) [
  | inl small ↦ rw small (ground arith)
  | inr big ↦
      rw big
        (text_of-append (show_nat fuel (n / 10)) _ (text_of-show_nat fuel (n / 10)) (ground arith))
]

text_of-show_int : (x : ℤ) → text_of (show_int x) ≡ show_int x
unfolding show_int text_of
text_of-show_int (pos n) = text_of-show_nat 10 n
text_of-show_int (negsuc n) = ap (λ l. b'-' ∷ l) (text_of-show_nat 10 (n + 1))

pub text_of-status : (c : Counters) → text_of (status c) ≡ status c
unfolding status text_of
text_of-status c =
    ap (λ l. codes "Atomic counter: " ++ l)
      (text_of-append _ _ (text_of-show_int (signed32 c.atomic_counter)) (
        ap (λ l. codes "\nSpinlock counter: " ++ l)
          (text_of-append _ _ (text_of-show_int (signed32 c.value1)) (
            ap (λ l. codes "\nMutex counter: " ++ l)
              (text_of-append _ _ (text_of-show_int (signed32 c.value2)) (
                ap (λ l. codes "\nSemaphore counter: " ++ l)
                  (text_of-append _ _ (text_of-show_int (signed32 c.value3)) refl)))))))
