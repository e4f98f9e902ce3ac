-- ===== src/SimpleChar/Bounds.antt =====
-- How many bytes `char_read` and `char_write` move, and that they stay inside `device_buffer`.
use utsavbalar_linux_kernel.Base.{
  ℕ, ◌+◌, ◌-◌, ◌^◌, ◌≤◌, ◌<◌, min, ◌≡◌, none, some, List, arith, length, take, drop, take-take,
  ◌+ℤ◌, ◌-ℤ◌, pos,
}
use utsavbalar_linux_kernel.Kernel.{
  enospc, UserAccess, IsUserAccess, splice, bytes_at_inside, bytes_at_outside, store_at_inside,
  store_at_outside,
}
use utsavbalar_linux_kernel.SimpleChar.{buffer_size, bytes_to_move, char_read, char_write}

-- The room from position o to the end of the buffer, or the count if that is less.
abbrev pub moved : ℕ → ℕ → ℕ
moved o count = min (buffer_size - o) count

pub bytes_to_move_inside :
    (o count : ℕ) → o ≤ buffer_size → bytes_to_move (pos o) count ≡ pos (moved o count)
unfolding bytes_to_move ◌-ℤ◌
bytes_to_move_inside o count h = ground arith

-- Past the end the difference wraps to a huge `size_t`, and nothing limits the count.
pub bytes_to_move_beyond :
    (o count : ℕ)
    → buffer_size < o
    → o < 2 ^ 63
    → count < 2 ^ 31
    → bytes_to_move (pos o) count ≡ pos count
unfolding bytes_to_move ◌-ℤ◌
bytes_to_move_beyond o count h small c = ground arith

module _ (k : UserAccess) where
  -- The bytes of a read at o that reach the user: all but those that `copy_to_user` leaves out.
  abbrev pub sent : List ℕ → ℕ → ℕ → ℕ → ℕ
  sent device_buffer user_buffer count o =
      let n = moved o count in n - k.copy_to_user user_buffer (take n (drop o device_buffer))

  -- For a position inside the buffer the read stays inside it: it sends the bytes from the position
  -- on, as many as the room and the count allow less those that fault, moves the position by their
  -- number and returns it. At the end of the buffer, and for a count of 0, it returns 0.
  pub char_read_lem :
      (device_buffer : List ℕ) (user_buffer count o : ℕ)
      → length device_buffer ≡ buffer_size
      → o ≤ buffer_size
      → let n = sent device_buffer user_buffer count o in
        char_read k device_buffer user_buffer count (pos o)
        ≡ some (record {
          delivered = take n (drop o device_buffer);
          offset = pos (o + n);
          ret = pos n;
        })
  unfolding char_read ◌+ℤ◌
  char_read_lem device_buffer user_buffer count o len h =
      let m = moved o count in
      let bytes = take m (drop o device_buffer) in
      ground (
        arith,
        bytes_to_move_inside o count h,
        bytes_at_inside device_buffer o m (omega arith),
        take-take (m - k.copy_to_user user_buffer bytes) m (drop o device_buffer) (omega arith),
      )

  -- The bytes of a write at o that arrive from the user.
  abbrev pub taken : ℕ → ℕ → ℕ → ℕ
  taken user_buffer count o = let n = moved o count in n - (k.copy_from_user user_buffer n).1

  -- What a write at o leaves in the buffer: the n bytes of `copy_from_user` over the old ones.
  abbrev pub written : List ℕ → ℕ → ℕ → ℕ → List ℕ
  written device_buffer user_buffer count o =
      splice device_buffer o (k.copy_from_user user_buffer (moved o count)).0

  -- With room for at least one byte a write stays inside the buffer too: it puts the copied bytes at
  -- the position and returns how many came from the user, by which it moves the position.
  pub char_write_lem :
      IsUserAccess k
      → (device_buffer : List ℕ) (user_buffer count o : ℕ) → length device_buffer ≡ buffer_size
      → o < buffer_size
      → 0 < count
      → let n = taken user_buffer count o in
        char_write k device_buffer user_buffer count (pos o)
        ≡ some (record {
          device_buffer = written device_buffer user_buffer count o;
          offset = pos (o + n);
          ret = pos n;
        })
  unfolding char_write ◌+ℤ◌
  char_write_lem lawful device_buffer user_buffer count o len h some_bytes =
      let m = moved o count in
      let bytes = (k.copy_from_user user_buffer m).0 in
      ground (
        arith,
        bytes_to_move_inside o count (omega arith),
        lawful.length-from user_buffer m,
        store_at_inside device_buffer o bytes (omega (arith, lawful.length-from user_buffer m)),
      )

  -- With no room, or with nothing to write, a write changes nothing and returns -ENOSPC.
  pub char_write_full :
      (device_buffer : List ℕ) (user_buffer count o : ℕ)
      → o ≤ buffer_size
      → moved o count ≡ 0
      → char_write k device_buffer user_buffer count (pos o)
        ≡ some (record { device_buffer = device_buffer; offset = pos o; ret = enospc })
  unfolding char_write
  char_write_full device_buffer user_buffer count o h full =
      ground (arith, bytes_to_move_inside o count h)

  -- Past the end both handlers leave the buffer, whatever the count, up to the largest int.
  pub char_read_beyond :
      (device_buffer : List ℕ) (user_buffer count o : ℕ)
      → length device_buffer ≡ buffer_size
      → buffer_size < o
      → o < 2 ^ 63
      → 0 < count
      → count < 2 ^ 31
      → char_read k device_buffer user_buffer count (pos o) ≡ none
  unfolding char_read
  char_read_beyond device_buffer user_buffer count o len h small some_bytes c = ground (
    arith,
    bytes_to_move_beyond o count h small c,
    bytes_at_outside device_buffer o count (omega arith),
  )

  pub char_write_beyond :
      IsUserAccess k
      → (device_buffer : List ℕ) (user_buffer count o : ℕ) → length device_buffer ≡ buffer_size
      → buffer_size < o
      → o < 2 ^ 63
      → 0 < count
      → count < 2 ^ 31
      → char_write k device_buffer user_buffer count (pos o) ≡ none
  unfolding char_write
  char_write_beyond lawful device_buffer user_buffer count o len h small some_bytes c =
      let bytes = (k.copy_from_user user_buffer count).0 in
      ground (
        arith,
        bytes_to_move_beyond o count h small c,
        store_at_outside device_buffer o bytes (omega arith),
      )
