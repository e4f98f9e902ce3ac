-- ===== src/SimpleChar/Contents.antt =====
-- What `char_write` leaves in the buffer, byte by byte, and that `char_read` gives it back.
use utsavbalar_linux_kernel.Base.{
  ℕ, ◌+◌, ◌-◌, ◌≤◌, ◌<◌, ◌≡◌, refl, sym, ap, ◌∙◌, inl, inr, Option, none, some, List, arith, ltb,
  ◌==◌, if◌then◌else◌, Bool-cases, length, get_or, take, drop, pos,
}
use utsavbalar_linux_kernel.Kernel.{
  enospc, user_bytes, length-user_bytes, copy_from_user_all, UserAccess, IsUserAccess, splice,
  length-splice, get_or-splice, take-drop-splice,
}
use utsavbalar_linux_kernel.SimpleChar.{
  buffer_size, ReadResult, seek_set, char_read, char_write, char_llseek, WriteResult,
}
use utsavbalar_linux_kernel.SimpleChar.Bounds.{
  moved, taken, written, char_read_lem, char_write_lem, char_write_full,
}

module _ (k : UserAccess) (lawful : IsUserAccess k) where
  pub length-written :
      (device_buffer : List ℕ) (user_buffer count o : ℕ)
      → length device_buffer ≡ buffer_size
      → o ≤ buffer_size
      → length (written k device_buffer user_buffer count o) ≡ buffer_size
  length-written device_buffer user_buffer count o len h =
      let m = moved o count in
      omega (
        arith,
        lawful.length-from user_buffer m,
        length-splice device_buffer o (k.copy_from_user user_buffer m).0
            (omega (arith, lawful.length-from user_buffer m)),
      )

  -- Each byte of the buffer after a write at o: in the part that was copied it is the user's, in the
  -- part that faulted it is 0, and everywhere else it is the old one.
  pub get_or-written :
      (device_buffer : List ℕ) (user_buffer count o i : ℕ)
      → length device_buffer ≡ buffer_size
      → o ≤ buffer_size
      → get_or (written k device_buffer user_buffer count o) i 0 ≡ (
          if ltb i o
          then get_or device_buffer i 0
          else if ltb i (o + taken k user_buffer count o)
          then k.user_byte (user_buffer + (i - o))
          else if ltb i (o + moved o count)
          then 0
          else get_or device_buffer i 0)
  get_or-written device_buffer user_buffer count o i len h =
      let m = moved o count in
      ground (
        arith,
        lawful.length-from user_buffer m,
        lawful.from-le user_buffer m,
        lawful.copied user_buffer m (i - o),
        lawful.padded user_buffer m (i - o),
        get_or-splice device_buffer o (k.copy_from_user user_buffer m).0 i,
      )

  -- A write at o, a seek back to o and a read of the same count.
  abbrev pub write_seek_read : List ℕ → ℕ → ℕ → ℕ → ℕ → Option ReadResult
  write_seek_read device_buffer from to count o =
      elim (char_write k device_buffer from count (pos o)) [
        | none ↦ none
        | some w ↦ char_read k w.device_buffer to count (char_llseek w.offset (pos o) seek_set).0
      ]

  -- Where nothing faults, the read delivers the bytes that the write was given, as many as fit.
  pub char_read-char_write :
      (device_buffer : List ℕ) (from to count o : ℕ)
      → length device_buffer ≡ buffer_size
      → o < buffer_size
      → 0 < count
      → (k.copy_from_user from (moved o count)).1 ≡ 0
      → k.copy_to_user to (user_bytes k from (moved o count)) ≡ 0
      → write_seek_read device_buffer from to count o
        ≡ some (record {
          delivered = user_bytes k from (moved o count);
          offset = pos (o + moved o count);
          ret = pos (moved o count);
        })
  unfolding char_llseek
  char_read-char_write device_buffer from to count o len h some_bytes all_in all_out =
      let m = moved o count in
      let bytes = user_bytes k from m in
      let full : o + length bytes ≤ length device_buffer =
        omega (arith, length-user_bytes k from m) in
      let back : take m (drop o (splice device_buffer o bytes)) ≡ bytes =
        ap (λ n. take n (drop o (splice device_buffer o bytes))) (sym (length-user_bytes k from m))
        ∙ take-drop-splice device_buffer o bytes full in
      ground (
        arith,
        char_write_lem k lawful device_buffer from count o len h some_bytes,
        copy_from_user_all k lawful from m all_in,
        length-splice device_buffer o bytes full,
        back,
        char_read_lem k (splice device_buffer o bytes) to count o
            (length-splice device_buffer o bytes full ∙ len) (omega arith),
      )

  abbrev refused_write : List ℕ → ℕ → WriteResult
  refused_write device_buffer o = record {
    device_buffer = device_buffer;
    offset = pos o;
    ret = enospc;
  }

  abbrev accepted_write : List ℕ → ℕ → ℕ → ℕ → WriteResult
  accepted_write device_buffer from count o = record {
    device_buffer = written k device_buffer from count o;
    offset = pos (o + taken k from count o);
    ret = pos (taken k from count o);
  }

  -- A write at every position of the file, its end included, gives a result: no write from there
  -- leaves the buffer. It returns -ENOSPC if there is no room or nothing to write, and otherwise the
  -- number of bytes that came from the user; the position moves by that number. The buffer keeps its
  -- size, and each byte of it is then the user's in the part that was copied, 0 in the part that
  -- faulted, and the old one elsewhere.
  pub char_write_bytes :
      (device_buffer : List ℕ) (from count o : ℕ)
      → length device_buffer ≡ buffer_size
      → o ≤ buffer_size
      → (r : WriteResult) × (char_write k device_buffer from count (pos o) ≡ some r)
        × (r.ret ≡ (if moved o count == 0 then enospc else pos (taken k from count o)))
        × (r.offset ≡ pos (o + taken k from count o))
        × (length r.device_buffer ≡ buffer_size)
        × ((i : ℕ)
            → get_or r.device_buffer i 0 ≡ (
                if ltb i o
                then get_or device_buffer i 0
                else if ltb i (o + taken k from count o)
                then k.user_byte (from + (i - o))
                else if ltb i (o + moved o count)
                then 0
                else get_or device_buffer i 0))
  char_write_bytes device_buffer from count o len h = elim (Bool-cases (moved o count == 0)) [
    | inl full ↦ (
      refused_write device_buffer o,
      char_write_full k device_buffer from count o h (ground arith),
      ground arith,
      ground arith,
      len,
      λ i. ground arith,
    )
    | inr room ↦ (
      accepted_write device_buffer from count o,
      char_write_lem k lawful device_buffer from count o len (ground arith) (ground arith),
      ground arith,
      refl,
      length-written device_buffer from count o len h,
      λ i. get_or-written device_buffer from count o i len h,
    )
  ]
