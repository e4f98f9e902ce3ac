-- ===== src/Kernel/User.antt =====
-- Access to user memory, which the kernel implements: the operations are a parameter of every
-- handler that copies, and their documented behaviour is a record of laws.
use utsavbalar_linux_kernel.Base.{
  ℕ, zero, suc, ◌+◌, ◌-◌, ◌≤◌, ◌<◌, ◌≡◌, refl, sym, ap, ◌∙◌, List, [], ◌∷◌, arith, length, get_or,
  eq_of_get_or,
}

-- `copy_to_user to bytes` and `copy_from_user from n` give the number of bytes that could not be
-- copied; the second also gives the n bytes that stand in the destination afterwards.
pub record UserAccess : Type 0 where
  pub user_byte : ℕ → ℕ
  pub copy_to_user : ℕ → List ℕ → ℕ
  pub copy_from_user : ℕ → ℕ → List ℕ × ℕ

-- A copy stops at the first byte that faults, and a read from user memory fills the rest of its
-- destination with zeros.
pub record IsUserAccess (k : UserAccess) : Type 0 where
  pub to-le : (to : ℕ) (bytes : List ℕ) → k.copy_to_user to bytes ≤ length bytes
  pub length-from : (from n : ℕ) → length (k.copy_from_user from n).0 ≡ n
  pub from-le : (from n : ℕ) → (k.copy_from_user from n).1 ≤ n
  pub copied :
      (from n i : ℕ)
      → i < n - (k.copy_from_user from n).1
      → get_or (k.copy_from_user from n).0 i 0 ≡ k.user_byte (from + i)
  pub padded :
      (from n i : ℕ)
      → n - (k.copy_from_user from n).1 ≤ i
      → get_or (k.copy_from_user from n).0 i 0 ≡ 0

-- The n bytes of user memory from an address on.
unfoldable pub user_bytes : UserAccess → ℕ → ℕ → List ℕ
user_bytes k from zero = []
user_bytes k from (suc n) = k.user_byte from ∷ user_bytes k (from + 1) n

pub length-user_bytes : (k : UserAccess) (from n : ℕ) → length (user_bytes k from n) ≡ n
unfolding user_bytes
length-user_bytes k from zero = refl
length-user_bytes k from (suc n) = ap suc (length-user_bytes k (from + 1) n)

pub get_or-user_bytes :
    (k : UserAccess) (from n i : ℕ)
    → i < n
    → get_or (user_bytes k from n) i 0 ≡ k.user_byte (from + i)
unfolding user_bytes
get_or-user_bytes k from zero i h = elim h [ ]
get_or-user_bytes k from (suc n) zero h = ap k.user_byte (omega arith)
get_or-user_bytes k from (suc n) (suc i) h =
    let e : from + 1 + i ≡ from + suc i = omega arith in
    get_or-user_bytes k (from + 1) n i (omega arith) ∙ ap k.user_byte e

-- A copy with no fault brings exactly the user's bytes.
pub copy_from_user_all :
    (k : UserAccess)
    → IsUserAccess k
    → (from n : ℕ) → (k.copy_from_user from n).1 ≡ 0
    → (k.copy_from_user from n).0 ≡ user_bytes k from n
copy_from_user_all k lawful from n none_left =
    eq_of_get_or 0 (k.copy_from_user from n).0 (user_bytes k from n)
      (omega (arith, lawful.length-from from n, length-user_bytes k from n))
      (λ i lt.
        let small : i < n = omega (arith, lawful.length-from from n) in
        lawful.copied from n i (omega arith) ∙ sym (get_or-user_bytes k from n i small))

-- Memory that holds some bytes from the address 0 on.
pub user_bytes_of :
    (k : UserAccess) (bytes : List ℕ)
    → ((i : ℕ) → k.user_byte i ≡ get_or bytes i 0)
    → user_bytes k 0 (length bytes) ≡ bytes
user_bytes_of k bytes holds =
    let n = length bytes in
    eq_of_get_or 0 (user_bytes k 0 n) bytes (length-user_bytes k 0 n) (λ i lt.
      get_or-user_bytes k 0 n i (omega (arith, length-user_bytes k 0 n))
      ∙ (let e : 0 + i ≡ i = omega arith in ap k.user_byte e ∙ holds i))
