-- ===== src/TestIrq/Tests.antt =====
-- The test program over the driver alone: a file layer that hands each call to the handlers, and a
-- bottom half that runs in the pauses.
use utsavbalar_linux_kernel.Base.{
  ℕ, ◌≡◌, refl, inl, inr, ◌+◌, ◌≤◌, ◌<◌, true, false, some, List, [], ◌∷◌, arith, length,
  if◌then◌else◌, pos,
}
use utsavbalar_linux_kernel.Kernel.Sample.{memory_of, memory_of-IsUserAccess, limited_bytes}
use utsavbalar_linux_kernel.Process.{Syscalls}
use utsavbalar_linux_kernel.TestStatus.{Around, display_proc_info, send_command}
use utsavbalar_linux_kernel.IrqDemo.Order.{count_of}
use utsavbalar_linux_kernel.IrqDemo.{Stats, demo_work_handler, irq_demo_write}
use utsavbalar_linux_kernel.TestIrq.{
  number, word, newline, menu, run_latency_test, latency_rounds, trigger_interrupt, reset_counters,
}
use utsavbalar_linux_kernel.TestIrq.Menu.{
  menu_never_ends, menu_ends, Entry, show, trigger_once, test, test_zero, test_negative, test_word,
  above_five, zero_choice, negative, junk, typed, perform_all,
}
use utsavbalar_linux_kernel.TestIrq.OverDriver.{
  IsQuietDevice, run_latency_test_lem, seen_in, settled,
}

abbrev now : ℕ
now = 1000

abbrev device : Syscalls Stats
device = record {
  sys_open = λ m s. (pos 3, s);
  sys_lseek = λ fd offset s. (offset, s);
  sys_read = λ fd n s. ((pos 0, []), s);
  sys_write = λ fd bytes s.
      let (s', ret) = irq_demo_write (memory_of bytes) now s 0 (length bytes) in (ret, s');
  sys_close = λ fd s. (tt, s);
}

abbrev after_pause : Stats → Stats
after_pause s =
    if s.regular_queued then record (demo_work_handler now s) { regular_queued = false } else s

abbrev around : Around Stats
around = record { proc_lines = λ s. (some [], s); pause = λ n s. (tt, after_pause s) }

after_pause-settled : (s : Stats) → seen_in (after_pause s) ≡ settled (seen_in s)
unfolding demo_work_handler
after_pause-settled s = ground arith

device-IsQuietDevice : IsQuietDevice device around
device-IsQuietDevice = record {
  stats = λ s. s;
  clock = λ s. now;
  memory = memory_of;
  memory-IsUserAccess = λ bytes. memory_of-IsUserAccess bytes;
  holds = λ bytes i. refl;
  no_fault_in = λ bytes n h. omega arith;
  opens = λ m s. (refl, inl refl);
  writes = λ fd bytes s. (refl, inl refl);
  closes = λ fd s. inl refl;
  shows = λ s. inl refl;
  pauses = λ n s. inr (after_pause-settled s);
}

-- Statistics with something counted before.
abbrev stale : Stats
stale = record {
  irq_count = 7;
  bottom_half_count = 5;
  delayed_work_count = 3;
  last_irq_time = 90;
  last_bh_time = 91;
  regular_queued = false;
  delayed_queued = true;
}

counted_in_test : (run_latency_test device around 3 stale).1.irq_count ≡ 3
unfolding run_latency_test latency_rounds trigger_interrupt reset_counters send_command
    display_proc_info irq_demo_write utsavbalar_linux_kernel.Text.strncmp_eq limited_bytes
    demo_work_handler
counted_in_test = refl

abbrev after_test : Stats
after_test = (run_latency_test device around 20 stale).1

run_latency_test_lem_example :
    (after_test.irq_count ≡ 20)
    × (after_test.bottom_half_count + count_of after_test.regular_queued ≤ 20 + count_of false)
    × (0 < 20 → 0 < after_test.bottom_half_count + count_of after_test.regular_queued)
unfolding device-IsQuietDevice
run_latency_test_lem_example =
    run_latency_test_lem device around device-IsQuietDevice 20 stale (omega arith)

-- A word, then the end of the input.
menu_never_ends_example :
    (menu device around 100 (word ∷ newline ∷ number (pos 2) ∷ []) stale).0 ≡ false
menu_never_ends_example =
    menu_never_ends device around 100 (word ∷ newline ∷ number (pos 2) ∷ []) stale refl

abbrev entries : List Entry
entries =
    junk
    ∷ trigger_once
    ∷ above_five 3
    ∷ zero_choice
    ∷ negative 0
    ∷ test_word
    ∷ test_zero
    ∷ test_negative 2
    ∷ test 4
    ∷ show
    ∷ []

menu_ends_example :
    menu device around 12 (typed entries (number (pos 5) ∷ [])) stale
    ≡ (true, perform_all device around entries stale)
menu_ends_example = menu_ends device around entries [] stale
