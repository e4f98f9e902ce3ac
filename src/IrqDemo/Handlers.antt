-- ===== src/IrqDemo/Handlers.antt =====
-- The device and the proc file of tutorial-05/irq_demo.c, each handler run alone.
use utsavbalar_linux_kernel.Base.{
  ℕ, ◌≤◌, min, ◌≡◌, inl, inr, not, some, List, arith, ◌==◌, if◌then◌else◌, Bool-cases, length,
  length-append, pos,
}
use utsavbalar_linux_kernel.Kernel.{
  efault, user_bytes, copy_from_user_all, UserAccess, IsUserAccess,
}
use utsavbalar_linux_kernel.Text.{starts_with, strncmp_eq-starts_with, length-show_int}
use utsavbalar_linux_kernel.Status.{buffer_size, answer, serve_lem}
use utsavbalar_linux_kernel.IrqDemo.{
  Stats, button_irq_handler, status, irq_demo_read, command_room, trigger_word, reset_word,
  reset_counters, irq_demo_write,
}

pub length-status : (s : Stats) → length (status s) ≤ 86
unfolding status
length-status s = omega (arith, length-append {0}, length-show_int)

-- Whatever the statistics are, a read of the device at any position stays inside its buffer and
-- sends the status text from there on, uncut, as many bytes as the count asks for less those that
-- fault.
pub irq_demo_read_lem :
    (k : UserAccess) (s : Stats) (device_buffer : List ℕ) (user_buffer count o : ℕ)
    → length device_buffer ≡ buffer_size
    → irq_demo_read k s device_buffer user_buffer count (pos o)
      ≡ some (answer k (status s) device_buffer user_buffer count o)
unfolding irq_demo_read
irq_demo_read_lem k s device_buffer user_buffer count o len =
    serve_lem k (status s) device_buffer user_buffer count o len (omega (arith, length-status s))

-- A write that faults returns -EFAULT and changes nothing. Any other returns the number of bytes
-- taken, 15 at most: bytes that begin with "trigger" run the interrupt handler, bytes that begin
-- with "reset" clear the three counters and leave the times and the queues, and all others change
-- nothing.
pub irq_demo_write_lem :
    (k : UserAccess) (now : ℕ) (s : Stats) (user_buffer count : ℕ)
    → IsUserAccess k
    → let n = min count command_room in
      let bytes = user_bytes k user_buffer n in
      irq_demo_write k now s user_buffer count ≡ (
        if not ((k.copy_from_user user_buffer n).1 == 0)
        then (s, efault)
        else if starts_with trigger_word bytes
        then (button_irq_handler now s, pos n)
        else if starts_with reset_word bytes
        then (reset_counters s, pos n)
        else (s, pos n))
unfolding irq_demo_write
irq_demo_write_lem k now s user_buffer count lawful =
    let n = min count command_room in
    let bytes = user_bytes k user_buffer n in
    elim (Bool-cases ((k.copy_from_user user_buffer n).1 == 0)) [
      | inl all_in ↦ ground (
        arith,
        copy_from_user_all k lawful user_buffer n (ground arith),
        strncmp_eq-starts_with trigger_word bytes (omega arith),
        strncmp_eq-starts_with reset_word bytes (omega arith),
      )
      | inr fault ↦ ground arith
    ]
