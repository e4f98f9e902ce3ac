-- ===== src/Kernel/Sample.antt =====
-- Two concrete user memories for the tests: one that never faults, and one that faults after three
-- bytes.
use utsavbalar_linux_kernel.Base.{
  ℕ, zero, suc, ◌+◌, ◌-◌, ◌%◌, ◌≤◌, ◌<◌, min, ◌≡◌, refl, List, [], ◌++◌, arith, length, get_or,
  replicate, length-append, length-replicate, get_or-append,
}
use utsavbalar_linux_kernel.Kernel.User.{
  UserAccess, IsUserAccess, user_bytes, length-user_bytes, get_or-user_bytes,
}

-- `byte` is what user memory holds.
abbrev pub holding : (ℕ → ℕ) → UserAccess
holding byte = record {
  user_byte = byte;
  copy_to_user = λ to bytes. 0;
  copy_from_user = λ from n. ([], 0);
}

unfoldable pub limited_bytes : (ℕ → ℕ) → ℕ → ℕ → ℕ → List ℕ
unfolding user_bytes
limited_bytes byte limit from n =
    user_bytes (holding byte) from (min n limit) ++ replicate (n - limit) 0

length-limited_bytes :
    (byte : ℕ → ℕ) (limit from n : ℕ) → length (limited_bytes byte limit from n) ≡ n
unfolding limited_bytes
length-limited_bytes byte limit from n = omega (
  arith,
  length-append (user_bytes (holding byte) from (min n limit)) (replicate (n - limit) 0),
  length-user_bytes (holding byte) from (min n limit),
  length-replicate {A = ℕ} (n - limit) 0,
)

copied_limited :
    (byte : ℕ → ℕ) (limit from n i : ℕ)
    → i < n - (n - limit)
    → get_or (limited_bytes byte limit from n) i 0 ≡ byte (from + i)
unfolding limited_bytes
copied_limited byte limit from n i h = ground (
  arith,
  length-user_bytes (holding byte) from (min n limit),
  get_or-append (user_bytes (holding byte) from (min n limit)) (replicate (n - limit) 0) i 0,
  get_or-user_bytes (holding byte) from (min n limit) i (omega arith),
)

get_or-replicate_self : (n i a : ℕ) → get_or (replicate n a) i a ≡ a
get_or-replicate_self zero i a = refl
get_or-replicate_self (suc n) zero a = refl
get_or-replicate_self (suc n) (suc i) a = get_or-replicate_self n i a

padded_limited :
    (byte : ℕ → ℕ) (limit from n i : ℕ)
    → n - (n - limit) ≤ i
    → get_or (limited_bytes byte limit from n) i 0 ≡ 0
unfolding limited_bytes
padded_limited byte limit from n i h = ground (
  arith,
  length-user_bytes (holding byte) from (min n limit),
  get_or-append (user_bytes (holding byte) from (min n limit)) (replicate (n - limit) 0) i 0,
  get_or-replicate_self (n - limit) (i - length (user_bytes (holding byte) from (min n limit))) 0,
)

-- At most `limit` bytes of each copy go through.
abbrev pub limited_over : (ℕ → ℕ) → ℕ → UserAccess
limited_over byte limit = record {
  user_byte = byte;
  copy_to_user = λ to bytes. length bytes - limit;
  copy_from_user = λ from n. (limited_bytes byte limit from n, n - limit);
}

pub limited_over-IsUserAccess : (byte : ℕ → ℕ) (limit : ℕ) → IsUserAccess (limited_over byte limit)
limited_over-IsUserAccess byte limit = record {
  to-le = λ to bytes. omega arith;
  length-from = λ from n. length-limited_bytes byte limit from n;
  from-le = λ from n. omega arith;
  copied = λ from n i h. copied_limited byte limit from n i h;
  padded = λ from n i h. padded_limited byte limit from n i h;
}

-- Memory where each address holds itself, modulo 256.
abbrev pub addresses : ℕ → ℕ
addresses i = i % 256

abbrev pub cells : UserAccess
cells = holding addresses

abbrev pub limited : ℕ → UserAccess
limited = limited_over addresses

pub limited-IsUserAccess : (limit : ℕ) → IsUserAccess (limited limit)
limited-IsUserAccess limit = limited_over-IsUserAccess addresses limit

-- Memory that holds some bytes, takes every copy, and faults where a program reads past its bytes.
abbrev pub memory_of : List ℕ → UserAccess
memory_of bytes = record (limited_over (λ i. get_or bytes i 0) (length bytes)) {
  copy_to_user = λ to sent. 0;
}

pub memory_of-IsUserAccess : (bytes : List ℕ) → IsUserAccess (memory_of bytes)
memory_of-IsUserAccess bytes =
    let lawful = limited_over-IsUserAccess (λ i. get_or bytes i 0) (length bytes) in
    record {
      to-le = λ to sent. omega arith;
      length-from = lawful.length-from;
      from-le = lawful.from-le;
      copied = lawful.copied;
      padded = lawful.padded;
    }
