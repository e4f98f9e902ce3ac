-- ===== src/Kernel/Trace.antt =====
-- What a module asks of the kernel while it is loaded and unloaded: the calls that obtain and
-- release something, in order, with the handle that each of them names.
use utsavbalar_linux_kernel.Base.{ℕ, Bool, List, ◌∷◌, ◌++◌, if◌then◌else◌, ℤ}

pub data Resource : Type 0 where
  chrdev class device cdev proc thread : Resource
  workqueue timer delayed gpio irq : Resource
  kmalloc vmalloc pages cache object : Resource

pub data Event : Type 0 where
  obtained : Resource → ℕ → Event  -- the call succeeded, with this handle
  allocated : Resource → ℕ → ℕ → Event  -- the same, for a block of so many bytes
  filled : Resource → ℕ → ℕ → Event  -- `memset` of so many bytes from the handle on
  refused : Resource → Event  -- the call failed
  released : Resource → ℕ → Event
  flushed : ℕ → Event  -- `flush_workqueue`

-- What a function leaves: its calls, the module's static variables, and its return value.
pub record Run (S : Type 0) : Type 0 where
  pub events : List Event
  pub state : S
  pub ret : ℤ

module _ {S : Type 0} where
  abbrev pub stop : List Event → S → ℤ → Run S
  stop es s z = record { events = es; state = s; ret = z }

  abbrev pub emit : Event → Run S → Run S
  emit e r = record { events = e ∷ r.events; state = r.state; ret = r.ret }

  abbrev pub emit_if : Bool → Event → Run S → Run S
  emit_if b e r = if b then emit e r else r

  -- One function after another.
  abbrev pub followed_by : Run S → (S → Run S) → Run S
  followed_by r f =
      let r' = f r.state in
      record { events = r.events ++ r'.events; state = r'.state; ret = r'.ret }
