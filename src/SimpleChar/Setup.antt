-- ===== src/SimpleChar/Setup.antt =====
-- tutorial-02/simple_char.c: loading and unloading the module.
use utsavbalar_linux_kernel.Base.{
  ℕ, ◌≡◌, Bool, true, ◌&&◌, not, some, List, [], ◌∷◌, ◌++◌, arith, if◌then◌else◌, replicate,
  pos_part, is_neg, ℤ, pos,
}
use utsavbalar_linux_kernel.Kernel.{
  efault, is_err, ptr_err, address, ErrPtr, ptr, err, stop, emit, Run, chrdev, class, device, cdev,
  obtained, refused, released, Held, settle,
}
use utsavbalar_linux_kernel.SimpleChar.{buffer_size}

-- The answers of the kernel during one load.
pub record Answers : Type 0 where
  pub register_chrdev : ℤ
  pub class_create : ErrPtr
  pub device_create : ErrPtr
  pub cdev_add : ℤ

-- The static variables.
pub record Globals : Type 0 where
  pub major_number : ℤ
  pub simple_class : ErrPtr
  pub simple_device : ErrPtr
  pub device_buffer : List ℕ

-- A device and a cdev are named by `MKDEV(major_number, 0)`, here by the major number.
abbrev pub major : Globals → ℕ
major g = pos_part g.major_number

-- From `class_create` on.
create_class : Answers → Globals → Run Globals
create_class k g =
    let m = major g in
    let with_class = record g { simple_class = k.class_create } in
    elim k.class_create [
      | err e ↦ stop (refused class ∷ released chrdev m ∷ []) with_class (ptr_err (err e))
      | ptr c ↦
          let with_device = record with_class { simple_device = k.device_create } in
          emit (obtained class c) (elim k.device_create [
            | err e ↦
                stop (refused device ∷ released class c ∷ released chrdev m ∷ []) with_device
                  (ptr_err (err e))
            | ptr d ↦ emit (obtained device m) (
                if is_neg k.cdev_add
                then stop
                    (refused cdev ∷ released device m ∷ released class c ∷ released chrdev m ∷ [])
                    with_device efault
                else stop (obtained cdev m ∷ [])
                    (record with_device { device_buffer = replicate buffer_size 0 }) (pos 0))
          ])
    ]

unfoldable pub simple_char_init : Answers → Globals → Run Globals
unfolding create_class
simple_char_init k g =
    let registered = record g { major_number = k.register_chrdev } in
    if is_neg k.register_chrdev
    then stop (refused chrdev ∷ []) registered k.register_chrdev
    else emit (obtained chrdev (pos_part k.register_chrdev)) (create_class k registered)

unfoldable pub simple_char_exit : Globals → Run Globals
simple_char_exit g =
    let m = major g in
    stop
      (released cdev m
        ∷ released device m
        ∷ released class (address g.simple_class)
        ∷ released chrdev m
        ∷ [])
      g (pos 0)

-- Every call of the load succeeds.
abbrev pub all_granted : Answers → Bool
all_granted k =
    not (is_neg k.register_chrdev)
    && not (is_err k.class_create)
    && not (is_err k.device_create)
    && not (is_neg k.cdev_add)

abbrev pub loaded : Globals → Held
loaded g =
    (cdev, major g) ∷ (device, major g) ∷ (class, address g.simple_class) ∷ (chrdev, major g) ∷ []

-- A load returns 0 exactly when every call succeeds, and then holds the four things that it
-- obtained, with a buffer of zeros; otherwise it returns a negative number and has released, in
-- reverse order, all that it obtained.
pub simple_char_init_lem :
    (k : Answers) (g : Globals)
    → let r = simple_char_init k g in
      if all_granted k
      then (r.ret ≡ pos 0)
        × (settle r.events [] ≡ some (loaded r.state))
        × (r.state.device_buffer ≡ replicate buffer_size 0)
      else (is_neg r.ret ≡ true) × (settle r.events [] ≡ some [])
unfolding simple_char_init settle
simple_char_init_lem k g = ground arith

-- A load that returns 0 and the unload after it release everything, last obtained first released.
pub simple_char_exit-simple_char_init :
    (k : Answers) (g : Globals)
    → (simple_char_init k g).ret ≡ pos 0
    → settle
        ((simple_char_init k g).events ++ (simple_char_exit (simple_char_init k g).state).events)
        []
      ≡ some []
unfolding simple_char_init simple_char_exit settle
simple_char_exit-simple_char_init k g h = ground arith
