-- ===== src/IrqDemo.antt =====
-- tutorial-05/irq_demo.c: an interrupt handler, its bottom half on a workqueue, delayed work, a timer
-- that stands in for the interrupt, and a device that reports and controls them. A counter is the
-- pattern of its 32 bits, a time is a number of nanoseconds. Here each handler runs alone;
-- IrqDemo/Order has the interleavings.
pub mod Handlers
pub mod Calls
pub mod Order
pub mod Setup
pub mod Lifetime
mod Tests
use utsavbalar_linux_kernel.Base.{
  ℕ, min, Bool, true, not, Option, List, [], ◌∷◌, ◌++◌, ◌==◌, if◌then◌else◌, ◌-ℤ◌, signed32, inc32,
  ℤ, pos,
}
use utsavbalar_linux_kernel.Kernel.{efault, UserAccess}
use Prim.Native.String.{String}
use utsavbalar_linux_kernel.Text.{codes, show_int, strncmp_eq}
use utsavbalar_linux_kernel.Status.{StatusResult, serve}

-- TIMER_PERIOD_NS, and BUTTON_GPIO.
abbrev pub timer_period_ns : ℕ
timer_period_ns = 1_000_000_000

abbrev pub button_gpio : ℕ
button_gpio = 17

-- The statistics, and what is queued on `demo_wq`: queueing work that is queued already does nothing.
pub record Stats : Type 0 where
  pub irq_count : ℕ
  pub bottom_half_count : ℕ
  pub delayed_work_count : ℕ
  pub last_irq_time : ℕ
  pub last_bh_time : ℕ
  pub regular_queued : Bool
  pub delayed_queued : Bool

-- The accesses of the handlers to what they share, one by one. `queue_work` on a work that is queued
-- has no effect.
abbrev pub count_irq : Stats → Stats
count_irq s = record s { irq_count = inc32 s.irq_count }

abbrev pub store_irq_time : ℕ → Stats → Stats
store_irq_time now s = record s { last_irq_time = now }

abbrev pub queue_regular : Stats → Stats
queue_regular s = record s { regular_queued = true }

abbrev pub count_bottom_half : Stats → Stats
count_bottom_half s = record s { bottom_half_count = inc32 s.bottom_half_count }

abbrev pub store_bh_time : ℕ → Stats → Stats
store_bh_time now s = record s { last_bh_time = now }

abbrev pub count_delayed_work : Stats → Stats
count_delayed_work s = record s { delayed_work_count = inc32 s.delayed_work_count }

abbrev pub queue_delayed : Stats → Stats
queue_delayed s = record s { delayed_queued = true }

abbrev pub clear_irq_count : Stats → Stats
clear_irq_count s = record s { irq_count = 0 }

abbrev pub clear_bottom_half_count : Stats → Stats
clear_bottom_half_count s = record s { bottom_half_count = 0 }

abbrev pub clear_delayed_work_count : Stats → Stats
clear_delayed_work_count s = record s { delayed_work_count = 0 }

-- `now` is what `ktime_get` returns at the start of the handler.
unfoldable pub demo_work_handler : ℕ → Stats → Stats
demo_work_handler now s = store_bh_time now (count_bottom_half s)

-- The delayed work queues itself again.
pub demo_delayed_work_handler : Stats → Stats
demo_delayed_work_handler s = queue_delayed (count_delayed_work s)

unfoldable pub button_irq_handler : ℕ → Stats → Stats
button_irq_handler now s = queue_regular (store_irq_time now (count_irq s))

pub data Restart : Type 0 where
  norestart restart : Restart

-- `forward` is `hrtimer_forward_now`: from the period, the new expiry of the timer.
pub demo_timer_callback : (ℕ → ℕ) → ℕ → Stats → Stats × ℕ × Restart
unfolding button_irq_handler
demo_timer_callback forward now s = (button_irq_handler now s, forward timer_period_ns, restart)

pub irq_demo_open : ℤ
irq_demo_open = pos 0

pub irq_demo_release : ℤ
irq_demo_release = pos 0

-- The format of the `snprintf` in `irq_demo_read`.
pub status : Stats → List ℕ
status s =
    codes "IRQ count: "
    ++ (show_int (signed32 s.irq_count)
        ++ (codes "\nBottom-half count: "
            ++ (show_int (signed32 s.bottom_half_count)
                ++ (codes "\nDelayed work count: "
                    ++ (show_int (signed32 s.delayed_work_count) ++ codes "\n")))))

pub irq_demo_read : UserAccess → Stats → List ℕ → ℕ → ℕ → ℤ → Option StatusResult
irq_demo_read k s device_buffer user_buffer count offset =
    serve k (status s) device_buffer user_buffer count offset

-- `sizeof(buffer) - 1` for `char buffer[16]`.
abbrev pub command_room : ℕ
command_room = 15

abbrev pub trigger_word : List ℕ
trigger_word = codes "trigger"

abbrev pub reset_word : List ℕ
reset_word = codes "reset"

-- The reset of a write: the counters alone.
abbrev pub reset_counters : Stats → Stats
reset_counters s = clear_delayed_work_count (clear_bottom_half_count (clear_irq_count s))

-- The commands of a write, at the time `now`.
run_command : ℕ → List ℕ → Stats → Stats
unfolding button_irq_handler
run_command now buffer s =
    if strncmp_eq 7 buffer trigger_word
    then button_irq_handler now s
    else if strncmp_eq 5 buffer reset_word
    then reset_counters s
    else s

unfoldable pub irq_demo_write : UserAccess → ℕ → Stats → ℕ → ℕ → Stats × ℤ
unfolding run_command
irq_demo_write k now s user_buffer count =
    let bytes_to_copy = min count command_room in
    let (bytes, bytes_not_copied) = k.copy_from_user user_buffer bytes_to_copy in
    if not (bytes_not_copied == 0)
    then (s, efault)
    else (run_command now (bytes ++ (0 ∷ [])) s, pos bytes_to_copy)

-- The lines of the proc file that print a value, each with its format; `using_gpio` and `using_timer` are the settings of
-- the module.
unfoldable pub irq_proc_show : Bool → Bool → Stats → List (String × ℤ)
irq_proc_show using_gpio using_timer s =
    ("Top-half (IRQ) count: %d\n", signed32 s.irq_count)
    ∷ ("Bottom-half (work) count: %d\n", signed32 s.bottom_half_count)
    ∷ ("Delayed work count: %d\n", signed32 s.delayed_work_count)
    ∷ ((if using_gpio
          then ("Using GPIO %d for hardware interrupts\n", pos button_gpio) ∷ []
          else [])
        ++ ((if using_timer
              then ("Using timer to simulate interrupts (period: %ld ns)\n", pos timer_period_ns)
                ∷ []
              else [])
            ++ ((if s.last_irq_time == 0
                  then []
                  else ("Last IRQ time: %lld ns\n", pos s.last_irq_time) ∷ [])
                ++ (if s.last_bh_time == 0
                    then []
                    else ("Last bottom-half time: %lld ns\n", pos s.last_bh_time)
                      ∷ (if s.last_irq_time == 0
                          then []
                          else (
                            "IRQ to bottom-half latency: %lld ns\n",
                            pos s.last_bh_time -ℤ pos s.last_irq_time,
                          )
                            ∷ [])))))
