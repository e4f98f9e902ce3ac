-- ===== src/SyncDemo/Race.antt =====
-- tutorial-04/sync_demo.c: the end of the thread and the unload of the module, in any order.
use utsavbalar_linux_kernel.Base.{◌≡◌, refl, ◌≢◌, Bool, true, false, ◌||◌, arith}

-- Where `demo_thread_fn` stands in its loop.
pub data Place : Type 0 where
  at_test working returned : Place

-- Where `sync_demo_exit` stands: before its first line, between the store to `thread_should_stop`
-- and the call of `kthread_stop`, and waiting in that call.
pub data Exit : Type 0 where
  before flagged stopping : Exit

pub record Life : Type 0 where
  pub thread_should_stop : Bool
  pub stop_bit : Bool  -- what `kthread_should_stop` returns
  pub place : Place
  pub exit : Exit

-- `kthread_stop` sets the bit and waits; its caller vouches that the thread is still there.
pub data Step (s : Life) : Life → Type 0 where
  another_round :
      s.place ≡ at_test
      → s.stop_bit ≡ false
      → s.thread_should_stop ≡ false
      → Step s (record s { place = working })
  back_to_test : s.place ≡ working → Step s (record s { place = at_test })
  return :
      s.place ≡ at_test
      → s.stop_bit || s.thread_should_stop ≡ true
      → Step s (record s { place = returned })
  set_flag : s.exit ≡ before → Step s (record s { thread_should_stop = true; exit = flagged })
  call_kthread_stop : s.exit ≡ flagged → Step s (record s { stop_bit = true; exit = stopping })

-- The loaded module.
abbrev pub start : Life
start = record { thread_should_stop = false; stop_bit = false; place = at_test; exit = before }

pub data Reach : Life → Type 0 where
  here : Reach start
  next : {s t : Life} → Reach s → Step s t → Reach t

-- What can come after s.
pub data From (s : Life) : Life → Type 0 where
  stays : From s s
  then : {t u : Life} → From s t → Step t u → From s u

abbrev flag_at : Exit → Bool
flag_at before = false
flag_at flagged = true
flag_at stopping = true

abbrev bit_at : Exit → Bool
bit_at before = false
bit_at flagged = false
bit_at stopping = true

record Inv (s : Life) : Type 0 where
  flag : s.thread_should_stop ≡ flag_at s.exit
  bit : s.stop_bit ≡ bit_at s.exit
  told : s.place ≡ returned → flag_at s.exit ≡ true

Step-Inv : {s t : Life} → Step s t → Inv s → Inv t
Step-Inv (another_round e f g) v = ground arith
Step-Inv (back_to_test e) v = ground arith
Step-Inv (return e f) v = ground arith
Step-Inv (set_flag e) v = ground arith
Step-Inv (call_kthread_stop e) v = ground arith

Reach-Inv : {s : Life} → Reach s → Inv s
Reach-Inv here = ground arith
Reach-Inv (next r st) = Step-Inv st (Reach-Inv r)

-- The thread does not return before the unload begins: in every interleaving in which it has
-- returned, the unload has set `thread_should_stop`.
pub returned_after_flag :
    {s : Life} → Reach s → s.place ≡ returned → (s.thread_should_stop ≡ true) × (s.exit ≢ before)
returned_after_flag r h = ground (arith, Reach-Inv r)

-- Every reachable state in which the unload has not begun can go on to one in which the thread has
-- returned, because it saw `thread_should_stop`, before the unload calls `kthread_stop` on it.
pub returned_before_kthread_stop :
    {s : Life}
    → Reach s
    → s.exit ≡ before
    → (t : Life) × From s t × (t.exit ≡ flagged) × (t.stop_bit ≡ false) × (t.place ≡ returned)
returned_before_kthread_stop {s} r h = from s.place refl
  where
    quiet : s.stop_bit ≡ false
    quiet = ground (arith, Reach-Inv r)

    not_yet : s.place ≢ returned
    not_yet e = ground (arith, Reach-Inv r)

    from :
        (p : Place)
        → s.place ≡ p
        → (t : Life) × From s t × (t.exit ≡ flagged) × (t.stop_bit ≡ false) × (t.place ≡ returned)
    from at_test e = (
      record s { thread_should_stop = true; exit = flagged; place = returned },
      then (then stays (set_flag h)) (return e (ground arith)),
      refl,
      quiet,
      refl,
    )
    from working e = (
      record s { thread_should_stop = true; exit = flagged; place = returned },
      then (then (then stays (back_to_test e)) (set_flag h)) (return refl (ground arith)),
      refl,
      quiet,
      refl,
    )
    from returned e = absurd (not_yet e)
