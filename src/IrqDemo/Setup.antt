-- ===== src/IrqDemo/Setup.antt =====
-- tutorial-05/irq_demo.c: `irq_demo_init` with its labels, and `irq_demo_exit`.
use utsavbalar_linux_kernel.Base.{
  ℕ, Bool, true, false, not, [], ◌∷◌, ◌==◌, if◌then◌else◌, pos_part, is_neg, eq_zero, ℤ, pos,
}
use utsavbalar_linux_kernel.Kernel.{
  enomem, ptr_err, address, ErrPtr, ptr, err, stop, emit, emit_if, Run, chrdev, class, device, cdev,
  proc, workqueue, timer, delayed, gpio, irq, obtained, refused, released, flushed,
}
use utsavbalar_linux_kernel.IrqDemo.{button_gpio}

-- The static flags that choose the source of interrupts.
pub record Config : Type 0 where
  pub using_gpio : Bool
  pub using_timer : Bool

-- The flags as the source sets them.
abbrev pub shipped : Config
shipped = record { using_gpio = false; using_timer = true }

-- The answers of the kernel during one load.
pub record Answers : Type 0 where
  pub create_workqueue : ℕ
  pub gpio_request : ℤ
  pub gpio_direction_input : ℤ
  pub gpio_to_irq : ℤ
  pub request_irq : ℤ
  pub register_chrdev : ℤ
  pub class_create : ErrPtr
  pub device_create : ErrPtr
  pub cdev_add : ℤ
  pub proc_create : ℕ

pub record Globals : Type 0 where
  pub demo_wq : ℕ
  pub button_irq : ℤ
  pub major_number : ℤ
  pub irq_class : ErrPtr
  pub irq_device : ErrPtr

abbrev pub major : Globals → ℕ
major g = pos_part g.major_number

-- The timer, the delayed work and the proc file are static or named, and have the handle 0.
module _ (config : Config) where
  open config use {using_gpio, using_timer}

  -- The labels, each falling through to the next, with the value that `ret` has.
  fail_gpio : Globals → ℤ → Run Globals
  fail_gpio g ret =
      emit_if using_timer (released timer 0)
        (stop (released delayed 0 ∷ flushed g.demo_wq ∷ released workqueue g.demo_wq ∷ []) g ret)

  -- `fail_request_irq`, `fail_gpio_to_irq` and `fail_gpio_direction` stand at one place.
  fail_request_irq : Globals → ℤ → Run Globals
  unfolding fail_gpio
  fail_request_irq g ret = emit_if using_gpio (released gpio button_gpio) (fail_gpio g ret)

  fail_register_chrdev : Globals → ℤ → Run Globals
  unfolding fail_request_irq
  fail_register_chrdev g ret =
      emit_if using_gpio (released irq (pos_part g.button_irq)) (fail_request_irq g ret)

  fail_class_create : Globals → ℤ → Run Globals
  unfolding fail_register_chrdev
  fail_class_create g ret = emit (released chrdev (major g)) (fail_register_chrdev g ret)

  fail_device_create : Globals → ℤ → Run Globals
  unfolding fail_class_create
  fail_device_create g ret = emit (released class (address g.irq_class)) (fail_class_create g ret)

  fail_cdev_add : Globals → ℤ → Run Globals
  unfolding fail_device_create
  fail_cdev_add g ret = emit (released device (major g)) (fail_device_create g ret)

  fail_proc_create : Globals → ℤ → Run Globals
  unfolding fail_cdev_add
  fail_proc_create g ret = emit (released cdev (major g)) (fail_cdev_add g ret)

  -- From `cdev_add` on.
  add_cdev : Answers → Globals → Run Globals
  unfolding fail_proc_create
  add_cdev k g =
      if is_neg k.cdev_add
      then emit (refused cdev) (fail_cdev_add g k.cdev_add)
      else emit (obtained cdev (major g)) (
          if k.proc_create == 0
          then emit (refused proc) (fail_proc_create g enomem)
          else stop (obtained proc 0 ∷ []) g (pos 0))

  -- From `class_create` on.
  create_class : Answers → Globals → Run Globals
  unfolding add_cdev
  create_class k g0 =
      let g = record g0 { irq_class = k.class_create } in
      let g' = record g { irq_device = k.device_create } in
      elim k.class_create [
        | err e ↦ emit (refused class) (fail_class_create g (ptr_err (err e)))
        | ptr c ↦ emit (obtained class c) (elim k.device_create [
          | err e ↦ emit (refused device) (fail_device_create g' (ptr_err (err e)))
          | ptr d ↦ emit (obtained device (major g')) (add_cdev k g')
        ])
      ]

  -- From `register_chrdev` on.
  register : Answers → Globals → Run Globals
  unfolding create_class
  register k g0 =
      let g = record g0 { major_number = k.register_chrdev } in
      if is_neg k.register_chrdev
      then emit (refused chrdev) (fail_register_chrdev g k.register_chrdev)
      else emit (obtained chrdev (pos_part k.register_chrdev)) (create_class k g)

  -- The block under `if (using_gpio)`, and what follows it.
  request_gpio : Answers → Globals → Run Globals
  unfolding register
  request_gpio k g0 =
      let g = record g0 { button_irq = k.gpio_to_irq } in
      let with_irq =
        if not (eq_zero k.request_irq)
        then emit (refused irq) (fail_request_irq g k.request_irq)
        else emit (obtained irq (pos_part k.gpio_to_irq)) (register k g) in
      let with_pin =
        if not (eq_zero k.gpio_direction_input)
        then fail_request_irq g0 k.gpio_direction_input
        else if is_neg k.gpio_to_irq
        then fail_request_irq g k.gpio_to_irq
        else with_irq in
      if not (eq_zero k.gpio_request)
      then emit (refused gpio) (fail_gpio g0 k.gpio_request)
      else emit (obtained gpio button_gpio) with_pin

  unfoldable pub irq_demo_init : Answers → Globals → Run Globals
  unfolding request_gpio
  irq_demo_init k g0 =
      let g = record g0 { demo_wq = k.create_workqueue } in
      if k.create_workqueue == 0
      then stop (refused workqueue ∷ []) g enomem
      else emit (obtained workqueue k.create_workqueue) (
          emit (obtained delayed 0) (
            emit_if using_timer (obtained timer 0)
              (if using_gpio then request_gpio k g else register k g)))

  unfoldable pub irq_demo_exit : Globals → Run Globals
  irq_demo_exit g = emit_if using_timer (released timer 0) (
      emit (released delayed 0) (
        emit (flushed g.demo_wq) (
          emit (released workqueue g.demo_wq) (
            emit_if using_gpio (released irq (pos_part g.button_irq)) (
              emit_if using_gpio (released gpio button_gpio) (
                stop
                  (released proc 0
                    ∷ released cdev (major g)
                    ∷ released device (major g)
                    ∷ released class (address g.irq_class)
                    ∷ released chrdev (major g)
                    ∷ [])
                  g (pos 0)))))))
