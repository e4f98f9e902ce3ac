-- ===== src/IrqDemo/Tests.antt =====
-- tutorial-05/irq_demo.c at concrete inputs.
use utsavbalar_linux_kernel.Base.{
  ℕ, ◌∷◌, ◌++◌, take, ◌≤◌, ◌≡◌, refl, true, false, some, List, [], arith, get_or, replicate,
  eq_zero, pos, negsuc,
}
use utsavbalar_linux_kernel.Kernel.{
  ptr, user_bytes, settle, account, irq, gpio, workqueue, released,
}
use utsavbalar_linux_kernel.Kernel.Sample.{
  cells, limited_over, limited_over-IsUserAccess, limited_bytes,
}
use utsavbalar_linux_kernel.Text.{codes}
use utsavbalar_linux_kernel.Status.{buffer_size, answer}
use utsavbalar_linux_kernel.IrqDemo.{
  button_gpio, Stats, button_irq_handler, status, irq_demo_read, irq_demo_write, irq_proc_show,
}
use utsavbalar_linux_kernel.IrqDemo.Handlers.{irq_demo_read_lem, irq_demo_write_lem}
use utsavbalar_linux_kernel.IrqDemo.Order.{
  Machine, start, Reach, here, next, tick, enter, count, store, queue, take_off, read_time,
  count_work, store_work, timed,
}
use utsavbalar_linux_kernel.IrqDemo.Order.Times.{last_value, latency_nonneg}
use utsavbalar_linux_kernel.IrqDemo.Setup.{shipped, Answers, Globals, irq_demo_init, irq_demo_exit}
use utsavbalar_linux_kernel.IrqDemo.Lifetime.{
  irq_demo_init_lem, irq_demo_exit-irq_demo_init, irq_demo_exit-with_pin, with_pin, whole_life,
  until_destroyed, from_destroyed, device_held,
}

abbrev stats : Stats
stats = record {
  irq_count = 3;
  bottom_half_count = 2;
  delayed_work_count = 1;
  last_irq_time = 500;
  last_bh_time = 400;
  regular_queued = true;
  delayed_queued = true;
}

abbrev empty_buffer : List ℕ
empty_buffer = replicate buffer_size 0

sent_status :
    irq_demo_read cells stats empty_buffer 0 9 (pos 4)
    ≡ some (answer cells (status stats) empty_buffer 0 9 4)
sent_status = irq_demo_read_lem cells stats empty_buffer 0 9 4 refl

abbrev trigger_memory : ℕ → ℕ
trigger_memory i = get_or (codes "trigger") i 0

taken_trigger :
    irq_demo_write (limited_over trigger_memory 15) 900 stats 0 7
    ≡ (button_irq_handler 900 stats, pos 7)
unfolding user_bytes limited_bytes
taken_trigger =
    irq_demo_write_lem (limited_over trigger_memory 15) 900 stats 0 7
      (limited_over-IsUserAccess trigger_memory 15)

five_to_nine : 5 ≤ 9
five_to_nine = omega arith

-- One interrupt at time 5 and its bottom half at time 9, which has not counted yet when a second top
-- half enters and counts.
abbrev overlapped : Machine
overlapped = record start {
  stats = record (start.stats) { irq_count = 2; last_irq_time = 5 };
  now = 9;
  counted = 9 ∷ [];
  work = timed 9;
}

-- One interrupt at time 5 whose bottom half has stored its time, 9.
abbrev answered : Machine
answered = record start {
  stats = record (start.stats) {
    irq_count = 1;
    bottom_half_count = 1;
    last_irq_time = 5;
    last_bh_time = 9;
  };
  now = 9;
}

answered-Reach : Reach false 10 answered
answered-Reach =
    let top_half = next (next (next here (tick 5 (omega arith))) enter) (count [] [] 5 refl) in
    let queued = next (next top_half (store [] [] 5 refl)) (queue 0 refl) in
    let runs = next (next queued (take_off refl refl)) (tick 9 five_to_nine) in
    next (next (next runs (read_time refl)) (count_work 9 refl)) (store_work 9 refl)

latency_nonneg_example : last_value (irq_proc_show false true answered.stats) ≡ some (pos 4)
latency_nonneg_example = latency_nonneg false true answered-Reach refl refl refl (omega arith)

abbrev granted : Answers
granted = record {
  create_workqueue = 9;
  gpio_request = pos 0;
  gpio_direction_input = pos 0;
  gpio_to_irq = pos 40;
  request_irq = pos 0;
  register_chrdev = pos 240;
  class_create = ptr 17;
  device_create = ptr 18;
  cdev_add = pos 0;
  proc_create = 19;
}

abbrev busy_irq : Answers
busy_irq = record granted { request_irq = negsuc 15 }

abbrev unloaded : Globals
unloaded = record {
  demo_wq = 0;
  button_irq = pos 0;
  major_number = pos 0;
  irq_class = ptr 0;
  irq_device = ptr 0;
}

irq_demo_init_lem_example :
    (eq_zero (irq_demo_init (with_pin true) busy_irq unloaded).ret ≡ false)
    × (settle (irq_demo_init (with_pin true) busy_irq unloaded).events [] ≡ some [])
irq_demo_init_lem_example = irq_demo_init_lem (with_pin true) busy_irq unloaded

irq_demo_exit-irq_demo_init_example : account (whole_life shipped granted unloaded) [] ≡ some []
unfolding irq_demo_init
irq_demo_exit-irq_demo_init_example = irq_demo_exit-irq_demo_init true granted unloaded refl

irq_demo_exit-with_pin_example :
    let r = irq_demo_init (with_pin true) granted unloaded in
    let exit_events = (irq_demo_exit (with_pin true) r.state).events in
    (account (r.events ++ until_destroyed exit_events) []
      ≡ some (device_held granted ((irq, 40) ∷ (gpio, button_gpio) ∷ (workqueue, 9) ∷ [])))
    × (take 2 (from_destroyed exit_events) ≡ released workqueue 9 ∷ released irq 40 ∷ [])
unfolding irq_demo_init
irq_demo_exit-with_pin_example = irq_demo_exit-with_pin true granted unloaded refl
