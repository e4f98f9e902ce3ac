-- ===== src/SyncDemo/Threads.antt =====
-- tutorial-04/sync_demo.c with its interleavings: the demo thread, any number of calls that write
-- "reset", and any number of readers of the proc file, one shared access at a time.
pub mod Locking
pub mod Exclusion
pub mod Owners
pub mod Work
pub mod Progress
pub mod Quiet
pub mod ReaderSteps
pub mod Show
pub mod Drift
use utsavbalar_linux_kernel.Base.{
  ℕ, ◌≡◌, Bool, true, false, Option, none, some, ◌==◌, if◌then◌else◌, inc32,
}
use utsavbalar_linux_kernel.Kernel.{thread}

-- The four locks; each guards one element of `counter_values`, in this order 1, 2, 3 and 0.
pub data Lock : Type 0 where
  spin mutex sem rwsem : Lock

pub data Actor : Type 0 where
  demo : Actor
  call : ℕ → Actor
  reader : ℕ → Actor

-- One thing for each lock.
pub record ByLock (A : Type 0) : Type 0 where
  pub of_spin : A
  pub of_mutex : A
  pub of_sem : A
  pub of_rwsem : A

module _ {A : Type 0} where
  abbrev pub at : Lock → ByLock A → A
  at spin b = b.of_spin
  at mutex b = b.of_mutex
  at sem b = b.of_sem
  at rwsem b = b.of_rwsem

  abbrev pub put : Lock → A → ByLock A → ByLock A
  put spin a b = record b { of_spin = a }
  put mutex a b = record b { of_mutex = a }
  put sem a b = record b { of_sem = a }
  put rwsem a b = record b { of_rwsem = a }

  abbrev pub everywhere : A → ByLock A
  everywhere a = record { of_spin = a; of_mutex = a; of_sem = a; of_rwsem = a }

-- Where `demo_thread_fn` stands; a value is the one that it is about to store.
pub data Pc : Type 0 where
  testing : Pc  -- the test of the loop
  counting : Pc  -- before `atomic_inc`
  wants : Lock → Pc
  holds : Lock → Pc
  has : Lock → ℕ → Pc
  leaves : Lock → Pc  -- before the unlock
  sleeping : Pc
  ended : Pc

-- Where the reset of a `sync_demo_write` stands.
pub data Wc : Type 0 where
  idle : Wc
  clearing : Wc  -- before `atomic_set`
  wants : Lock → Wc
  holds : Lock → Wc
  leaves : Lock → Wc

-- Where a `sync_proc_show` stands.
pub data Rc : Type 0 where
  idle : Rc
  reading : Rc  -- before `atomic_read`
  wants : Lock → Rc
  holds : Lock → Rc
  leaves : Lock → Rc
  printing : Rc  -- all values are read

-- A run of `sync_proc_show` with its local variables.
pub record Reader : Type 0 where
  pub place : Rc
  pub atomic_value : ℕ
  pub seen : ByLock ℕ

-- `owners` has who holds a lock alone; a reader holds the read-write semaphore with others.
pub record System : Type 0 where
  pub atomic : ℕ
  pub values : ByLock ℕ
  pub owners : ByLock (Option Actor)
  pub thread : Pc
  pub calls : ℕ → Wc
  pub readers : ℕ → Reader

-- All take the locks in one order.
abbrev pub after : Lock → Pc
after spin = Pc.wants mutex
after mutex = Pc.wants sem
after sem = Pc.wants rwsem
after rwsem = sleeping

abbrev pub call_after : Lock → Wc
call_after spin = Wc.wants mutex
call_after mutex = Wc.wants sem
call_after sem = Wc.wants rwsem
call_after rwsem = Wc.idle

abbrev pub show_after : Lock → Rc
show_after spin = Rc.wants mutex
show_after mutex = Rc.wants sem
show_after sem = Rc.wants rwsem
show_after rwsem = printing

-- `down_read` and `up_read` leave the owner alone.
abbrev pub show_lock : Lock → ℕ → ByLock (Option Actor) → ByLock (Option Actor)
show_lock rwsem i owners = owners
show_lock spin i owners = put spin (some (reader i)) owners
show_lock mutex i owners = put mutex (some (reader i)) owners
show_lock sem i owners = put sem (some (reader i)) owners

abbrev pub show_unlock : Lock → ByLock (Option Actor) → ByLock (Option Actor)
show_unlock rwsem owners = owners
show_unlock spin owners = put spin none owners
show_unlock mutex owners = put mutex none owners
show_unlock sem owners = put sem none owners

-- A reader shares the lock.
abbrev pub shares : Rc → Lock → Bool
shares (Rc.holds rwsem) rwsem = true
shares (Rc.leaves rwsem) rwsem = true
shares _ _ = false

abbrev pub Unshared : Lock → System → Type 0
Unshared l s = (j : ℕ) → shares (s.readers j).place l ≡ false

-- What the thread stores under a lock: one more, and under the last one the atomic counter.
abbrev pub next_value : Lock → System → ℕ
next_value rwsem s = s.atomic
next_value spin s = inc32 s.values.of_spin
next_value mutex s = inc32 s.values.of_mutex
next_value sem s = inc32 s.values.of_sem

abbrev pub set_at : {A : Type 0} → (ℕ → A) → ℕ → A → ℕ → A
set_at f i a j = if i == j then a else f j

abbrev pub at_place : System → ℕ → Rc → ℕ → Reader
at_place s i p = set_at s.readers i (record (s.readers i) { place = p })

-- A step of the thread, of one call or of one reader. A lock is taken only while nobody owns it, and
-- by one that writes, only while nobody shares it.
pub data Step (s : System) : System → Type 0 where
  go_on : s.thread ≡ testing → Step s (record s { thread = counting })
  stop : s.thread ≡ testing → Step s (record s { thread = ended })
  count :
      s.thread ≡ counting → Step s (record s { atomic = inc32 s.atomic; thread = Pc.wants spin })
  take :
      (l : Lock)
      → s.thread ≡ Pc.wants l
      → at l s.owners ≡ none
      → Unshared l s
      → Step s (record s { owners = put l (some demo) s.owners; thread = Pc.holds l })
  load : (l : Lock) → s.thread ≡ Pc.holds l → Step s (record s { thread = has l (next_value l s) })
  store :
      (l : Lock) (v : ℕ)
      → s.thread ≡ has l v
      → Step s (record s { values = put l v s.values; thread = Pc.leaves l })
  release :
      (l : Lock)
      → s.thread ≡ Pc.leaves l
      → Step s (record s { owners = put l none s.owners; thread = after l })
  wake : s.thread ≡ sleeping → Step s (record s { thread = testing })
  call_begin :
      (i : ℕ) → s.calls i ≡ Wc.idle → Step s (record s { calls = set_at s.calls i clearing })
  call_clear :
      (i : ℕ)
      → s.calls i ≡ clearing
      → Step s (record s { atomic = 0; calls = set_at s.calls i (Wc.wants spin) })
  call_take :
      (i : ℕ) (l : Lock)
      → s.calls i ≡ Wc.wants l
      → at l s.owners ≡ none
      → Unshared l s
      → Step s (record s {
        owners = put l (some (call i)) s.owners;
        calls = set_at s.calls i (Wc.holds l);
      })
  call_store :
      (i : ℕ) (l : Lock)
      → s.calls i ≡ Wc.holds l
      → Step s (record s { values = put l 0 s.values; calls = set_at s.calls i (Wc.leaves l) })
  call_release :
      (i : ℕ) (l : Lock)
      → s.calls i ≡ Wc.leaves l
      → Step s (record s { owners = put l none s.owners; calls = set_at s.calls i (call_after l) })
  show_begin :
      (i : ℕ) → (s.readers i).place ≡ Rc.idle → Step s (record s { readers = at_place s i reading })
  show_atomic :
      (i : ℕ)
      → (s.readers i).place ≡ reading
      → Step s (record s {
        readers =
            set_at s.readers i
              (record (s.readers i) { place = Rc.wants spin; atomic_value = s.atomic });
      })
  show_take :
      (i : ℕ) (l : Lock)
      → (s.readers i).place ≡ Rc.wants l
      → at l s.owners ≡ none
      → Step s (record s { owners = show_lock l i s.owners; readers = at_place s i (Rc.holds l) })
  show_load :
      (i : ℕ) (l : Lock)
      → (s.readers i).place ≡ Rc.holds l
      → Step s (record s {
        readers = set_at s.readers i (record (s.readers i) {
          place = Rc.leaves l;
          seen = put l (at l s.values) (s.readers i).seen;
        });
      })
  show_release :
      (i : ℕ) (l : Lock)
      → (s.readers i).place ≡ Rc.leaves l
      → Step s (record s { owners = show_unlock l s.owners; readers = at_place s i (show_after l) })
  show_end :
      (i : ℕ)
      → (s.readers i).place ≡ printing
      → Step s (record s { readers = at_place s i Rc.idle })

-- The loaded module: everything is 0 and free, the thread is at its loop, no call and no reader is
-- running.
abbrev pub start : System
start = record {
  atomic = 0;
  values = everywhere 0;
  owners = everywhere none;
  thread = testing;
  calls = λ _. Wc.idle;
  readers = λ _. record { place = Rc.idle; atomic_value = 0; seen = everywhere 0 };
}

pub data Reach : System → Type 0 where
  here : Reach start
  next : {s t : System} → Reach s → Step s t → Reach t
