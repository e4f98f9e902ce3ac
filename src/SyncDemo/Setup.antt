-- ===== src/SyncDemo/Setup.antt =====
-- tutorial-04/sync_demo.c: loading and unloading the module.
use utsavbalar_linux_kernel.Base.{
  ℕ, ◌≡◌, ◌≢◌, Bool, true, false, ◌&&◌, not, some, [], ◌∷◌, ◌++◌, arith, ◌==◌, if◌then◌else◌,
  pos_part, is_neg, ℤ, pos,
}
use utsavbalar_linux_kernel.Kernel.{
  enomem, efault, is_err, ptr_err, address, ErrPtr, ptr, err, stop, emit, emit_if, Run, chrdev,
  class, device, cdev, proc, thread, obtained, refused, released, Held, settle,
}
use utsavbalar_linux_kernel.SyncDemo.{Counters}

-- The answers of the kernel during one load.
pub record Answers : Type 0 where
  pub register_chrdev : ℤ
  pub class_create : ErrPtr
  pub device_create : ErrPtr
  pub cdev_add : ℤ
  pub proc_create : ℕ
  pub kthread_run : ErrPtr

-- The static variables; the locks have no state while nobody runs.
pub record Globals : Type 0 where
  pub counters : Counters
  pub major_number : ℤ
  pub sync_class : ErrPtr
  pub sync_device : ErrPtr
  pub demo_thread : ErrPtr
  pub thread_should_stop : Bool

abbrev pub major : Globals → ℕ
major g = pos_part g.major_number

-- A device and a cdev are named by the major number, and the proc file by its name, here 0. What a
-- failure releases is written out at each of them, as in the source.
-- From `kthread_run` on; `m` is the major number and `c` the class.
start_thread : Answers → Globals → ℕ → ℕ → Run Globals
start_thread k g0 m c =
    let g = record g0 { demo_thread = k.kthread_run } in
    elim k.kthread_run [
      | err e ↦
          stop
            (refused thread
              ∷ released proc 0
              ∷ released cdev m
              ∷ released device m
              ∷ released class c
              ∷ released chrdev m
              ∷ [])
            g (ptr_err (err e))
      | ptr t ↦ stop (obtained thread t ∷ []) g k.cdev_add
    ]

-- From `proc_create` on.
create_proc : Answers → Globals → ℕ → ℕ → Run Globals
unfolding start_thread
create_proc k g m c =
    if k.proc_create == 0
    then stop
        (refused proc
          ∷ released cdev m
          ∷ released device m
          ∷ released class c
          ∷ released chrdev m
          ∷ [])
        g enomem
    else emit (obtained proc 0) (start_thread k g m c)

-- From `cdev_add` on.
add_cdev : Answers → Globals → ℕ → ℕ → Run Globals
unfolding create_proc
add_cdev k g m c =
    if is_neg k.cdev_add
    then stop (refused cdev ∷ released device m ∷ released class c ∷ released chrdev m ∷ []) g
        efault
    else emit (obtained cdev m) (create_proc k g m c)

-- From `device_create` on.
create_device : Answers → Globals → ℕ → ℕ → Run Globals
unfolding add_cdev
create_device k g0 m c =
    let g = record g0 { sync_device = k.device_create } in
    elim k.device_create [
      | err e ↦
          stop (refused device ∷ released class c ∷ released chrdev m ∷ []) g (ptr_err (err e))
      | ptr d ↦ emit (obtained device m) (add_cdev k g m c)
    ]

-- From `class_create` on.
create_class : Answers → Globals → ℕ → Run Globals
unfolding create_device
create_class k g0 m =
    let g = record g0 { sync_class = k.class_create } in
    elim k.class_create [
      | err e ↦ stop (refused class ∷ released chrdev m ∷ []) g (ptr_err (err e))
      | ptr c ↦ emit (obtained class c) (create_device k g m c)
    ]

-- `memset` of `counter_values` leaves `atomic_counter` alone.
unfoldable pub sync_demo_init : Answers → Globals → Run Globals
unfolding create_class
sync_demo_init k g0 =
    let cleared = record (g0.counters) { value0 = 0; value1 = 0; value2 = 0; value3 = 0 } in
    let g = record g0 { counters = cleared; major_number = k.register_chrdev } in
    if is_neg k.register_chrdev
    then stop (refused chrdev ∷ []) g k.register_chrdev
    else emit (obtained chrdev (pos_part k.register_chrdev))
        (create_class k g (pos_part k.register_chrdev))

-- The test `demo_thread` of the unload.
abbrev is_null : ErrPtr → Bool
is_null (ptr p) = p == 0
is_null (err e) = false

unfoldable pub sync_demo_exit : Globals → Run Globals
sync_demo_exit g0 =
    let g = record g0 { thread_should_stop = true } in
    let m = major g in
    emit_if (not (is_null g.demo_thread)) (released thread (address g.demo_thread)) (
      stop
        (released proc 0
          ∷ released cdev m
          ∷ released device m
          ∷ released class (address g.sync_class)
          ∷ released chrdev m
          ∷ [])
        g (pos 0))

-- Every call of the load succeeds.
abbrev pub all_granted : Answers → Bool
all_granted k =
    not (is_neg k.register_chrdev)
    && not (is_err k.class_create)
    && not (is_err k.device_create)
    && not (is_neg k.cdev_add)
    && not (k.proc_create == 0)
    && not (is_err k.kthread_run)

abbrev pub loaded : Answers → Held
loaded k =
    let m = pos_part k.register_chrdev in
    (thread, address k.kthread_run)
    ∷ (proc, 0)
    ∷ (cdev, m)
    ∷ (device, m)
    ∷ (class, address k.class_create)
    ∷ (chrdev, m)
    ∷ []

-- If every call of it succeeds, a load returns the answer of `cdev_add` and holds the thread, the
-- proc file and the device; otherwise it returns a negative number and has released, in reverse
-- order, all that it obtained.
pub sync_demo_init_lem :
    (k : Answers) (g : Globals)
    → let r = sync_demo_init k g in
      if all_granted k
      then (r.ret ≡ k.cdev_add) × (settle r.events [] ≡ some (loaded k))
      else (is_neg r.ret ≡ true) × (settle r.events [] ≡ some [])
unfolding sync_demo_init settle
sync_demo_init_lem k g = ground arith

-- A load that returns no error and the unload after it release everything, each thing once and in
-- reverse order, where the thread that `kthread_run` gave is not NULL; and the unload has told the
-- thread to stop.
pub sync_demo_exit-sync_demo_init :
    (k : Answers) (g : Globals)
    → is_neg (sync_demo_init k g).ret ≡ false
    → k.kthread_run ≢ ptr 0
    → (settle ((sync_demo_init k g).events ++ (sync_demo_exit (sync_demo_init k g).state).events) []
        ≡ some [])
      × ((sync_demo_exit (sync_demo_init k g).state).state.thread_should_stop ≡ true)
unfolding sync_demo_init sync_demo_exit settle
sync_demo_exit-sync_demo_init k g h live = ground arith
