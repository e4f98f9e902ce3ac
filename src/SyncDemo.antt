-- ===== src/SyncDemo.antt =====
-- tutorial-04/sync_demo.c: counters behind five synchronization primitives, a thread that counts, a
-- status device and a reset command. A counter is the pattern of its 32 bits; here each handler runs
-- alone, and SyncDemo/Threads has the interleavings.
pub mod Handlers
pub mod Calls
pub mod Threads
pub mod Race
pub mod Setup
mod Tests
use utsavbalar_linux_kernel.Base.{
  ℕ, min, Bool, ◌&&◌, not, Option, List, [], ◌∷◌, ◌++◌, ◌==◌, if◌then◌else◌, signed32, inc32, ℤ,
  pos,
}
use utsavbalar_linux_kernel.Kernel.{efault, UserAccess}
use Prim.Native.String.{String}
use utsavbalar_linux_kernel.Text.{codes, show_int, strncmp_eq}
use utsavbalar_linux_kernel.Status.{StatusResult, serve}

-- `atomic_counter`, and the elements of `counter_values` with their index.
pub record Counters : Type 0 where
  pub atomic_counter : ℕ
  pub value0 : ℕ
  pub value1 : ℕ
  pub value2 : ℕ
  pub value3 : ℕ

abbrev pub all_equal_to : ℕ → Counters
all_equal_to n = record { atomic_counter = n; value0 = n; value1 = n; value2 = n; value3 = n }

abbrev pub zeros : Counters
zeros = all_equal_to 0

-- The lines with a value, in order; each value is read under its lock.
pub sync_proc_show : Counters → List (String × ℤ)
sync_proc_show c =
    ("1. Atomic counter: %d\n", signed32 c.atomic_counter)
    ∷ ("2. Spinlock counter: %d\n", signed32 c.value1)
    ∷ ("3. Mutex counter: %d\n", signed32 c.value2)
    ∷ ("4. Semaphore counter: %d\n", signed32 c.value3)
    ∷ ("5. RW Semaphore counter: %d (shared with atomic)\n", signed32 c.value0)
    ∷ []

-- One round of the loop in `demo_thread_fn`.
unfoldable pub demo_thread_round : Counters → Counters
demo_thread_round c =
    let a = inc32 c.atomic_counter in
    record {
      atomic_counter = a;
      value0 = a;
      value1 = inc32 c.value1;
      value2 = inc32 c.value2;
      value3 = inc32 c.value3;
    }

-- The loop, over the answers of `kthread_should_stop()` and the values of `thread_should_stop` that
-- its test reads, one pair a round. The list ends where the thread has not come yet.
unfoldable pub demo_thread_fn : List (Bool × Bool) → Counters → Counters
demo_thread_fn [] c = c
demo_thread_fn ((should_stop, flag) ∷ tests) c =
    let rest = demo_thread_fn tests (demo_thread_round c) in
    if not should_stop && not flag then rest else c

pub sync_demo_open : ℤ
sync_demo_open = pos 0

pub sync_demo_release : ℤ
sync_demo_release = pos 0

-- The format of the `snprintf` in `sync_demo_read`.
unfoldable pub status : Counters → List ℕ
status c =
    codes "Atomic counter: "
    ++ (show_int (signed32 c.atomic_counter)
        ++ (codes "\nSpinlock counter: "
            ++ (show_int (signed32 c.value1)
                ++ (codes "\nMutex counter: "
                    ++ (show_int (signed32 c.value2)
                        ++ (codes "\nSemaphore counter: "
                            ++ (show_int (signed32 c.value3) ++ codes "\n")))))))

pub sync_demo_read : UserAccess → Counters → List ℕ → ℕ → ℕ → ℤ → Option StatusResult
sync_demo_read k c device_buffer user_buffer count offset =
    serve k (status c) device_buffer user_buffer count offset

-- `sizeof(buffer) - 1` for `char buffer[16]`.
abbrev pub command_room : ℕ
command_room = 15

abbrev pub reset_word : List ℕ
reset_word = codes "reset"

-- The counters and the return value; `offset` is not used.
unfoldable pub sync_demo_write : UserAccess → Counters → ℕ → ℕ → Counters × ℤ
sync_demo_write k c user_buffer count =
    let bytes_to_copy = min count command_room in
    let (bytes, bytes_not_copied) = k.copy_from_user user_buffer bytes_to_copy in
    if not (bytes_not_copied == 0)
    then (c, efault)
    else let buffer = bytes ++ (0 ∷ []) in
      (if strncmp_eq 5 buffer reset_word then zeros else c, pos bytes_to_copy)
