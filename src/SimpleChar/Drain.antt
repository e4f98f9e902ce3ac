-- ===== src/SimpleChar/Drain.antt =====
-- Reading the device to its end, as `cat /dev/simple_char` does: the calls of `char_read` that a
-- loop makes until one returns 0.
use utsavbalar_linux_kernel.Base.{
  zero, suc, ◌+◌, ◌-◌, ◌≤◌, ◌<◌, ◌≡◌, inl, inr, some, [], ◌++◌, arith, ◌==◌, if◌then◌else◌,
  Bool-cases, length, take, drop, length-drop, take-append-drop, drop-drop, eq_nil, leb_ℤ, pos,
}
use utsavbalar_linux_kernel.SimpleChar.{
  buffer_size, char_read, UserAccess, List, ℕ, ℤ, Option, none,
}
use utsavbalar_linux_kernel.SimpleChar.Bounds.{moved, char_read_lem}

-- `while ((n = read(fd, b, count)) > 0)`, with the bytes that the calls deliver; `none` is an access
-- outside the buffer, or no more fuel.
pub drain : UserAccess → List ℕ → ℕ → ℕ → ℕ → ℤ → Option (List ℕ)
drain k device_buffer to count zero offset = none
drain k device_buffer to count (suc fuel) offset =
    elim (char_read k device_buffer to count offset) [
      | none ↦ none
      | some r ↦
          let rest = drain k device_buffer to count fuel r.offset in
          if leb_ℤ r.ret (pos 0)
          then some []
          else elim rest [ none ↦ none | some bytes ↦ some (r.delivered ++ bytes) ]
    ]

-- Where no copy faults, reads of any count above 0 deliver the rest of the buffer in order and come
-- to an end, in one call more than the bytes that are left.
pub drain_all :
    (k : UserAccess) (device_buffer : List ℕ) (to count fuel o : ℕ)
    → length device_buffer ≡ buffer_size
    → o ≤ buffer_size
    → 0 < count
    → ((bytes : List ℕ) → k.copy_to_user to bytes ≡ 0)
    → buffer_size - o < fuel
    → drain k device_buffer to count fuel (pos o) ≡ some (drop o device_buffer)
unfolding drain
drain_all k device_buffer to count zero o len h some_bytes all_out enough = elim enough [ ]
drain_all k device_buffer to count (suc fuel) o len h some_bytes all_out enough =
    let m = moved o count in
    let whole = drop o device_buffer in
    elim (Bool-cases (m == 0)) [
      | inl done ↦ ground (
        arith,
        all_out (take m whole),
        char_read_lem k device_buffer to count o len h,
        length-drop o device_buffer,
        eq_nil whole,
      )
      | inr more ↦ ground (
        arith,
        all_out (take m whole),
        char_read_lem k device_buffer to count o len h,
        drain_all k device_buffer to count fuel (o + m) len (omega arith) some_bytes all_out,
        drop-drop m o device_buffer,
        take-append-drop m whole,
      )
    ]
