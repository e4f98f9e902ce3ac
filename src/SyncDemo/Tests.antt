-- ===== src/SyncDemo/Tests.antt =====
-- tutorial-04/sync_demo.c at concrete inputs.
use utsavbalar_linux_kernel.Base.{
  ℕ, ◌+◌, ◌-◌, ◌^◌, ◌≤◌, ◌≡◌, refl, ◌⊎◌, true, false, none, some, List, [], ◌∷◌, ◌++◌, arith,
  get_or, replicate, is_neg, inc32, pos,
}
use utsavbalar_linux_kernel.Kernel.{ptr, err, user_bytes, settle}
use utsavbalar_linux_kernel.SyncDemo.Threads.Show.{InSteps, numbers, locals, printed_in_step}
use utsavbalar_linux_kernel.SyncDemo.Threads.Quiet.{Quiet}
use utsavbalar_linux_kernel.SyncDemo.Threads.Progress.{AtRest, work_ends}
use utsavbalar_linux_kernel.SyncDemo.Threads.Work.{left, total, WorksTo, done, more, bounded_work}
use utsavbalar_linux_kernel.Kernel.Sample.{
  cells, limited_over, limited_over-IsUserAccess, limited_bytes,
}
use utsavbalar_linux_kernel.Text.{show_int, codes}
use utsavbalar_linux_kernel.Status.{buffer_size, answer}
use utsavbalar_linux_kernel.SyncDemo.{
  Counters, all_equal_to, zeros, demo_thread_fn, status, sync_demo_read, sync_demo_write,
  sync_proc_show,
}
use utsavbalar_linux_kernel.Status.Calls.{
  Call, open_file, read, write, others, State, File, run_calls, spec_calls,
}
use utsavbalar_linux_kernel.Status.Calls.Refines.{Represents, run_calls_lem}
use utsavbalar_linux_kernel.SyncDemo.Calls.{sync_fops, sync_fops-IsStatus}
use utsavbalar_linux_kernel.SyncDemo.Handlers.{
  sync_demo_read_lem, sync_demo_write_lem, demo_thread_fn_lem,
}
use utsavbalar_linux_kernel.SyncDemo.Setup.{
  Answers, Globals, sync_demo_init, sync_demo_exit, sync_demo_init_lem,
  sync_demo_exit-sync_demo_init,
}
use utsavbalar_linux_kernel.SyncDemo.Threads.{
  spin, demo, at, System, testing, has, Reach, here, next, go_on, count, take, load, everywhere,
  start, Wc, Actor, mutex, store, release, Pc, sem, rwsem, printing, show_begin, show_atomic,
  show_take, show_load, show_release,
}
use utsavbalar_linux_kernel.SyncDemo.Threads.Exclusion.{mutual_exclusion, no_lost_update, IsSharing}
use utsavbalar_linux_kernel.SyncDemo.Threads.Drift.{Runs, reset_drift}
use utsavbalar_linux_kernel.SyncDemo.Race.{Life, returned, returned_before_kthread_stop}
use utsavbalar_linux_kernel.SyncDemo.Race

abbrev some_counters : Counters
some_counters = record {
  atomic_counter = 7;
  value0 = 6;
  value1 = 7;
  value2 = 2 ^ 32 - 1;
  value3 = 2 ^ 31;
}

-- `%d` of the largest and of the smallest patterns.
status_text :
    status some_counters
    ≡ codes
        "Atomic counter: 7\nSpinlock counter: 7\nMutex counter: -1\nSemaphore counter: -2147483648\n"
unfolding status show_int
status_text = refl

abbrev empty_buffer : List ℕ
empty_buffer = replicate buffer_size 0

sent_status :
    sync_demo_read cells some_counters empty_buffer 0 9 (pos 500)
    ≡ some (answer cells (status some_counters) empty_buffer 0 9 500)
sent_status = sync_demo_read_lem cells some_counters empty_buffer 0 9 500 refl

-- Two files, a round of the thread in between, and a write.
abbrev two_readers : List (Call Counters)
two_readers =
    open_file 3
    ∷ read 3 0 40
    ∷ others (λ c. demo_thread_fn ((false, false) ∷ []) c)
    ∷ open_file 4
    ∷ read 4 0 1000
    ∷ read 3 0 1000
    ∷ write 0 0 5
    ∷ read 4 0 1
    ∷ []

abbrev never_read : State Counters
never_read = record {
  kept = some_counters;
  device_buffer = replicate 1024 255;
  f_pos = λ fd. pos 0;
}

abbrev status_file : File Counters
status_file = record { kept = some_counters; at = λ fd. 0 }

run_calls_lem_example :
    let (g, os) = spec_calls status sync_fops cells two_readers status_file in
    (t : State Counters) × (run_calls sync_fops cells two_readers never_read ≡ some (t, os))
    × Represents t g
run_calls_lem_example =
    run_calls_lem sync_fops status sync_fops-IsStatus cells two_readers never_read status_file
      (record { same_kept = refl; size = refl; same_at = λ fd. refl })

-- User memory that holds "reset!" from address 0 on.
abbrev reset_memory : ℕ → ℕ
reset_memory i = get_or (codes "reset!") i 0

sync_demo_write_lem_example :
    sync_demo_write (limited_over reset_memory 15) some_counters 0 40 ≡ (zeros, pos 15)
unfolding user_bytes limited_bytes
sync_demo_write_lem_example =
    sync_demo_write_lem (limited_over reset_memory 15) some_counters 0 40
      (limited_over-IsUserAccess reset_memory 15)

three_rounds :
    demo_thread_fn ((false, false) ∷ (false, false) ∷ (false, true) ∷ []) (all_equal_to 5)
    ≡ all_equal_to 7
three_rounds =
    demo_thread_fn_lem ((false, false) ∷ (false, false) ∷ (false, true) ∷ []) 5 (omega arith)

abbrev granted : Answers
granted = record {
  register_chrdev = pos 240;
  class_create = ptr 17;
  device_create = ptr 18;
  cdev_add = pos 0;
  proc_create = 19;
  kthread_run = ptr 20;
}

abbrev no_thread : Answers
no_thread = record granted { kthread_run = err 11 }

abbrev unloaded : Globals
unloaded = record {
  counters = zeros;
  major_number = pos 0;
  sync_class = ptr 0;
  sync_device = ptr 0;
  demo_thread = ptr 0;
  thread_should_stop = false;
}

sync_demo_init_lem_example :
    (is_neg (sync_demo_init no_thread unloaded).ret ≡ true)
    × (settle (sync_demo_init no_thread unloaded).events [] ≡ some [])
sync_demo_init_lem_example = sync_demo_init_lem no_thread unloaded

sync_demo_exit-sync_demo_init_example :
    (settle
        ((sync_demo_init granted unloaded).events
          ++ (sync_demo_exit (sync_demo_init granted unloaded).state).events)
        []
      ≡ some [])
    × ((sync_demo_exit (sync_demo_init granted unloaded).state).state.thread_should_stop ≡ true)
unfolding sync_demo_init
sync_demo_exit-sync_demo_init_example =
    sync_demo_exit-sync_demo_init granted unloaded refl (ground arith)

-- The thread inside the spinlock, with its value computed.
abbrev in_spin : System
in_spin = record start {
  atomic = 1;
  owners = record (everywhere none) { of_spin = some demo };
  thread = has spin 1;
}

in_spin-Reach : Reach in_spin
in_spin-Reach =
    next (next (next (next here (go_on refl)) (count refl)) (take spin refl refl (λ j. refl)))
      (load spin refl)

mutual_exclusion_example :
    ◌≡◌ {A = Actor} demo demo ⊎ (IsSharing in_spin demo spin × IsSharing in_spin demo spin)
mutual_exclusion_example = mutual_exclusion in_spin-Reach spin demo demo refl refl

no_lost_update_example : 1 ≡ inc32 (at spin in_spin.values)
no_lost_update_example = no_lost_update in_spin-Reach spin 1 (ground arith) refl

reset_drift_example :
    (s : System) × Runs 1 s
    × (s.thread ≡ testing)
    × ((i : ℕ) → s.calls i ≡ Wc.idle)
    × (s.owners ≡ everywhere none)
    × (s.atomic ≡ 3)
    × (s.values ≡ everywhere 0)
reset_drift_example = reset_drift 3 (omega arith)

returned_before_kthread_stop_example :
    (t : Life) × Race.From Race.start t
    × (t.exit ≡ Race.flagged)
    × (t.stop_bit ≡ false)
    × (t.place ≡ returned)
returned_before_kthread_stop_example = returned_before_kthread_stop Race.here refl

-- The thread has left the spinlock.
abbrev left_spin : System
left_spin = record start {
  atomic = 1;
  values = record (everywhere 0) { of_spin = 1 };
  thread = Pc.wants mutex;
}

stored_and_released : WorksTo left_spin 2 in_spin
stored_and_released = more (store spin 1 refl) tt (more (release spin refl) tt done)

bounded_work_example : 2 + left 1 left_spin ≡ left 1 in_spin
bounded_work_example = bounded_work 1 stored_and_released (λ i h. (refl, refl))

work_ends_example : (u : System) × WorksTo u 14 in_spin × AtRest u × (14 ≤ 44)
unfolding total
work_ends_example = work_ends 1 in_spin-Reach (λ i h. (refl, refl))

-- A reader that the thread overtakes: it reads the atomic counter before the thread begins a round,
-- and the spinlock counter before the thread has incremented it.
printing_run : (s : System) × Quiet 1 s × ((s.readers 0).place ≡ printing)
printing_run =
    let q0 =
      Quiet.next (Quiet.next Quiet.here (show_begin 0 refl) tt refl) (show_atomic 0 refl) tt refl in
    let q1 = Quiet.next (Quiet.next q0 (go_on refl) tt refl) (count refl) tt refl in
    let q2 =
      Quiet.next
        (Quiet.next (Quiet.next q1 (show_take 0 spin refl refl) tt refl) (show_load 0 spin refl) tt
          refl)
        (show_release 0 spin refl) tt refl in
    let q3 =
      Quiet.next
        (Quiet.next (Quiet.next q2 (show_take 0 mutex refl refl) tt refl) (show_load 0 mutex refl)
          tt refl)
        (show_release 0 mutex refl) tt refl in
    let q4 =
      Quiet.next
        (Quiet.next (Quiet.next q3 (show_take 0 sem refl refl) tt refl) (show_load 0 sem refl) tt
          refl)
        (show_release 0 sem refl) tt refl in
    let q5 =
      Quiet.next
        (Quiet.next (Quiet.next q4 (show_take 0 rwsem refl refl) tt refl) (show_load 0 rwsem refl)
          tt refl)
        (show_release 0 rwsem refl) tt refl in
    (_, q5, refl)

printed_in_step_example : InSteps (numbers (sync_proc_show (locals (printing_run.0.readers 0))))
printed_in_step_example = printed_in_step printing_run.1 (omega arith) 0 printing_run.2
