-- ===== src/Kernel/Bytes.antt =====
-- Reads and writes of a range of a static array, `array + offset` for `n` bytes: an access that
-- leaves the array is `none`.
use utsavbalar_linux_kernel.Base.{
  ℕ, ◌+◌, ◌-◌, ◌≤◌, ◌<◌, ◌≡◌, List, ◌++◌, length, take, drop, get_or, drop-take-append,
  take-length-append, Option, none, some, ℤ, pos, negsuc, leb, ltb, if◌then◌else◌, arith,
  length-append, length-take, length-drop, get_or-append, get_or-take, get_or-drop,
}

unfoldable pub bytes_at : List ℕ → ℤ → ℕ → Option (List ℕ)
bytes_at array (pos o) n = if leb (o + n) (length array) then some (take n (drop o array)) else none
bytes_at array (negsuc _) n = none

abbrev pub splice : List ℕ → ℕ → List ℕ → List ℕ
splice array o bytes = take o array ++ (bytes ++ drop (o + length bytes) array)

unfoldable pub store_at : List ℕ → ℤ → List ℕ → Option (List ℕ)
store_at array (pos o) bytes =
    if leb (o + length bytes) (length array) then some (splice array o bytes) else none
store_at array (negsuc _) bytes = none

pub length-splice :
    (array : List ℕ) (o : ℕ) (bytes : List ℕ)
    → o + length bytes ≤ length array
    → length (splice array o bytes) ≡ length array
length-splice array o bytes h = omega (
  arith,
  length-append (take o array) (bytes ++ drop (o + length bytes) array),
  length-append bytes (drop (o + length bytes) array),
  length-take o array,
  length-drop (o + length bytes) array,
)

-- Byte by byte: the new bytes in their range, the old ones elsewhere.
pub get_or-splice :
    (array : List ℕ) (o : ℕ) (bytes : List ℕ) (i : ℕ)
    → o + length bytes ≤ length array
    → get_or (splice array o bytes) i 0 ≡ (
        if ltb i o
        then get_or array i 0
        else if ltb i (o + length bytes)
        then get_or bytes (i - o) 0
        else get_or array i 0)
get_or-splice array o bytes i h =
    let head = take o array in
    let n = length bytes in
    let j = i - length head in
    ground (
      arith,
      length-take o array,
      get_or-append head (bytes ++ drop (o + n) array) i 0,
      get_or-append bytes (drop (o + n) array) j 0,
      get_or-drop (o + n) array (j - n) 0,
      get_or-take o array i 0,
    )

-- Reading the range that was written gives the bytes back.
pub take-drop-splice :
    (array : List ℕ) (o : ℕ) (bytes : List ℕ)
    → o + length bytes ≤ length array
    → take (length bytes) (drop o (splice array o bytes)) ≡ bytes
take-drop-splice array o bytes h =
    rw (drop-take-append o array (bytes ++ drop (o + length bytes) array) (omega arith))
      (take-length-append bytes (drop (o + length bytes) array))

-- A range inside the array is read, and a range that ends beyond it is not.
pub bytes_at_inside :
    (array : List ℕ) (o n : ℕ)
    → o + n ≤ length array
    → bytes_at array (pos o) n ≡ some (take n (drop o array))
unfolding bytes_at
bytes_at_inside array o n h = ground arith

pub bytes_at_outside :
    (array : List ℕ) (o n : ℕ) → length array < o + n → bytes_at array (pos o) n ≡ none
unfolding bytes_at
bytes_at_outside array o n h = ground arith

pub store_at_inside :
    (array : List ℕ) (o : ℕ) (bytes : List ℕ)
    → o + length bytes ≤ length array
    → store_at array (pos o) bytes ≡ some (splice array o bytes)
unfolding store_at
store_at_inside array o bytes h = ground arith

pub store_at_outside :
    (array : List ℕ) (o : ℕ) (bytes : List ℕ)
    → length array < o + length bytes
    → store_at array (pos o) bytes ≡ none
unfolding store_at
store_at_outside array o bytes h = ground arith
