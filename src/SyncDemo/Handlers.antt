-- ===== src/SyncDemo/Handlers.antt =====
-- The handlers of tutorial-04/sync_demo.c, each run alone.
use utsavbalar_linux_kernel.Base.{
  ℕ, suc, ◌+◌, ◌%◌, ◌^◌, ◌≤◌, ◌<◌, min, ◌≡◌, ap, ◌∙◌, inl, inr, Bool, ◌&&◌, not, some, List, [],
  ◌∷◌, arith, ◌==◌, if◌then◌else◌, Bool-cases, length, length-append, inc32, pos,
}
use utsavbalar_linux_kernel.Kernel.{
  efault, user_bytes, copy_from_user_all, UserAccess, IsUserAccess,
}
use utsavbalar_linux_kernel.Text.{starts_with, strncmp_eq-starts_with, length-show_int}
use utsavbalar_linux_kernel.Status.{buffer_size, answer, serve_lem}
use utsavbalar_linux_kernel.SyncDemo.{
  Counters, all_equal_to, zeros, demo_thread_round, demo_thread_fn, status, sync_demo_read,
  command_room, reset_word, sync_demo_write,
}

-- The longest status text is far from the size of the buffer.
pub length-status : (c : Counters) → length (status c) ≤ 116
unfolding status
length-status c = omega (arith, length-append {0}, length-show_int)

-- Whatever the counters are, a read of the device at any position stays inside its buffer and sends
-- the status text from there on, uncut, as many bytes as the count asks for less those that fault.
pub sync_demo_read_lem :
    (k : UserAccess) (c : Counters) (device_buffer : List ℕ) (user_buffer count o : ℕ)
    → length device_buffer ≡ buffer_size
    → sync_demo_read k c device_buffer user_buffer count (pos o)
      ≡ some (answer k (status c) device_buffer user_buffer count o)
unfolding sync_demo_read
sync_demo_read_lem k c device_buffer user_buffer count o len =
    serve_lem k (status c) device_buffer user_buffer count o len (omega (arith, length-status c))

-- A write that faults returns -EFAULT and changes nothing. Any other returns the number of bytes
-- taken, 15 at most, and clears every counter exactly when those bytes begin with "reset".
pub sync_demo_write_lem :
    (k : UserAccess) (c : Counters) (user_buffer count : ℕ)
    → IsUserAccess k
    → let n = min count command_room in
      sync_demo_write k c user_buffer count ≡ (
        if not ((k.copy_from_user user_buffer n).1 == 0)
        then (c, efault)
        else if starts_with reset_word (user_bytes k user_buffer n)
        then (zeros, pos n)
        else (c, pos n))
unfolding sync_demo_write
sync_demo_write_lem k c user_buffer count lawful =
    let n = min count command_room in
    elim (Bool-cases ((k.copy_from_user user_buffer n).1 == 0)) [
      | inl all_in ↦ ground (
        arith,
        copy_from_user_all k lawful user_buffer n (ground arith),
        strncmp_eq-starts_with reset_word (user_bytes k user_buffer n) (omega arith),
      )
      | inr fault ↦ ground arith
    ]

-- The rounds that the loop makes: it ends at the first test that sees a reason to stop.
abbrev pub rounds : List (Bool × Bool) → ℕ
rounds [] = 0
rounds ((should_stop, flag) ∷ tests) = if not should_stop && not flag then suc (rounds tests) else 0

-- From equal counters the thread keeps the counters equal, and has counted its rounds modulo 2^32.
pub demo_thread_fn_lem :
    (tests : List (Bool × Bool)) (n : ℕ)
    → n < 2 ^ 32
    → demo_thread_fn tests (all_equal_to n) ≡ all_equal_to ((n + rounds tests) % 2 ^ 32)
unfolding demo_thread_fn demo_thread_round
demo_thread_fn_lem [] n h = ap all_equal_to (omega arith)
demo_thread_fn_lem ((should_stop, flag) ∷ tests) n h =
    elim (Bool-cases (not should_stop && not flag)) [
      | inl go ↦
          rw go (demo_thread_fn_lem tests (inc32 n) (omega arith) ∙ ap all_equal_to (omega arith))
      | inr halt ↦ rw halt (ap all_equal_to (omega arith))
    ]
