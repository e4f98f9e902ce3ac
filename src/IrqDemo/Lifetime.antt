-- ===== src/IrqDemo/Lifetime.antt =====
-- What a load of tutorial-05/irq_demo.c holds, and what the unload does with it.
use utsavbalar_linux_kernel.Base.{
  ◌≡◌, Bool, true, false, ◌&&◌, ◌||◌, not, some, List, [], ◌∷◌, ◌++◌, arith, ◌==◌, if◌then◌else◌,
  take, pos_part, is_neg, eq_zero, pos,
}
use utsavbalar_linux_kernel.Kernel.{
  is_err, address, Event, chrdev, class, device, cdev, proc, workqueue, timer, delayed, gpio, irq,
  Held, settle, account, same, released,
}
use utsavbalar_linux_kernel.IrqDemo.{button_gpio}
use utsavbalar_linux_kernel.IrqDemo.Setup.{Config, Answers, Globals, irq_demo_init, irq_demo_exit}

-- The calls under `if (using_gpio)` all succeed.
abbrev pub pin_granted : Answers → Bool
pin_granted k =
    eq_zero k.gpio_request
    && eq_zero k.gpio_direction_input
    && not (is_neg k.gpio_to_irq)
    && eq_zero k.request_irq

abbrev pub device_granted : Answers → Bool
device_granted k =
    not (is_neg k.register_chrdev)
    && not (is_err k.class_create)
    && not (is_err k.device_create)
    && not (is_neg k.cdev_add)
    && not (k.proc_create == 0)

-- Every call that the load makes succeeds.
abbrev pub all_granted : Config → Answers → Bool
all_granted config k =
    not (k.create_workqueue == 0) && (not config.using_gpio || pin_granted k) && device_granted k

abbrev pub device_held : Answers → Held → Held
device_held k below =
    let m = pos_part k.register_chrdev in
    (proc, 0) ∷ (cdev, m) ∷ (device, m) ∷ (class, address k.class_create) ∷ (chrdev, m) ∷ below

abbrev pub sources_held : Config → Answers → Held
sources_held config k =
    (if config.using_gpio then (irq, pos_part k.gpio_to_irq) ∷ (gpio, button_gpio) ∷ [] else [])
    ++ ((if config.using_timer then (timer, 0) ∷ [] else [])
        ++ ((delayed, 0) ∷ (workqueue, k.create_workqueue) ∷ []))

-- For every setting of the two flags, a load returns 0 exactly when every call that it makes
-- succeeds, and then holds the device, the proc file, the sources of interrupts and the workqueue;
-- otherwise it returns another number and has released, in reverse order, all that it obtained.
pub irq_demo_init_lem :
    (config : Config) (k : Answers) (g : Globals)
    → let r = irq_demo_init config k g in
      if all_granted config k
      then (r.ret ≡ pos 0) × (settle r.events [] ≡ some (device_held k (sources_held config k)))
      else (eq_zero r.ret ≡ false) × (settle r.events [] ≡ some [])
unfolding irq_demo_init settle
irq_demo_init_lem config k g = ground arith

abbrev pub timer_only : Bool → Config
timer_only using_timer = record { using_gpio = false; using_timer = using_timer }

abbrev pub with_pin : Bool → Config
with_pin using_timer = record { using_gpio = true; using_timer = using_timer }

-- A load and the unload after it.
abbrev pub whole_life : Config → Answers → Globals → List Event
whole_life config k g =
    let r = irq_demo_init config k g in r.events ++ (irq_demo_exit config r.state).events

-- With interrupts from the timer, as the module is shipped, or from nothing, a load that returns 0
-- and the unload after it release everything, each thing once, and the workqueue only after the
-- timer and the delayed work that queue onto it.
pub irq_demo_exit-irq_demo_init :
    (using_timer : Bool) (k : Answers) (g : Globals)
    → (irq_demo_init (timer_only using_timer) k g).ret ≡ pos 0
    → account (whole_life (timer_only using_timer) k g) [] ≡ some []
unfolding irq_demo_init irq_demo_exit account
irq_demo_exit-irq_demo_init using_timer k g h = ground arith

abbrev destroys_workqueue : Event → Bool
destroys_workqueue (released r h) = same r workqueue
destroys_workqueue _ = false

-- A trace up to the moment when the workqueue is destroyed, and from that moment on.
abbrev pub until_destroyed : List Event → List Event
until_destroyed [] = []
until_destroyed (e ∷ es) = if destroys_workqueue e then [] else e ∷ until_destroyed es

abbrev pub from_destroyed : List Event → List Event
from_destroyed [] = []
from_destroyed (e ∷ es) = if destroys_workqueue e then e ∷ es else from_destroyed es

-- With interrupts from the pin, after every load that returned 0 the unload comes to destroy the
-- workqueue while the interrupt, whose handler queues onto it, is still requested, and its pin and
-- the devices are still held; it frees the interrupt right after the workqueue.
pub irq_demo_exit-with_pin :
    (using_timer : Bool) (k : Answers) (g : Globals)
    → (irq_demo_init (with_pin using_timer) k g).ret ≡ pos 0
    → let r = irq_demo_init (with_pin using_timer) k g in
      let exit_events = (irq_demo_exit (with_pin using_timer) r.state).events in
      let line = pos_part k.gpio_to_irq in
      (account (r.events ++ until_destroyed exit_events) []
        ≡ some (
            device_held k
              ((irq, line) ∷ (gpio, button_gpio) ∷ (workqueue, k.create_workqueue) ∷ [])))
      × (take 2 (from_destroyed exit_events)
          ≡ released workqueue k.create_workqueue ∷ released irq line ∷ [])
unfolding irq_demo_init irq_demo_exit account
irq_demo_exit-with_pin using_timer k g h = ground arith
