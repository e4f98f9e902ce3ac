-- ===== src/IrqDemo/Order.antt =====
-- tutorial-05/irq_demo.c with its interleavings: top halves, the works of the queue and the resets of
-- users, one access to what they share at a time, in any order.
pub mod Times
use utsavbalar_linux_kernel.Base.{
  ℕ, zero, suc, ◌+◌, ◌^◌, ◌≤◌, ◌<◌, ◌≡◌, ap, ◌∙◌, Bool, true, false, List, [], ◌∷◌, ◌++◌, arith,
  length, length-append,
}
use utsavbalar_linux_kernel.IrqDemo.{
  Stats, count_irq, store_irq_time, queue_regular, count_bottom_half, store_bh_time,
  count_delayed_work, queue_delayed, clear_irq_count, clear_bottom_half_count,
  clear_delayed_work_count,
}

-- Where `demo_work_handler` stands: it has been taken off the queue, has read its time, or has
-- counted as well.
pub data Work : Type 0 where
  idle taken_off : Work
  timed counted_at : ℕ → Work

-- Where `demo_delayed_work_handler` stands.
pub data Delayed : Type 0 where
  idle taken_off counted : Delayed

-- Any number of top halves run at once, on several processors: those that have read their time, those
-- that have counted as well, with their times, and the number of those that have stored it and have
-- not queued the work yet. The last two are the resets before their second and third `atomic_set`.
pub record Machine : Type 0 where
  pub stats : Stats
  pub now : ℕ
  pub entered : List ℕ
  pub counted : List ℕ
  pub stored : ℕ
  pub work : Work
  pub delayed : Delayed
  pub resets_at_bh : ℕ
  pub resets_at_delayed : ℕ

-- A top half runs for the timer, for the pin and for a "trigger" command. The queue takes a work off
-- before it runs it, and runs a work once at a time. `resets` says whether users may write "reset".
pub data Step (resets : Bool) (m : Machine) : Machine → Type 0 where
  tick : (t : ℕ) → m.now ≤ t → Step resets m (record m { now = t })
  enter : Step resets m (record m { entered = m.now ∷ m.entered })
  count :
      (xs ys : List ℕ) (t : ℕ)
      → m.entered ≡ xs ++ (t ∷ ys)
      → Step resets m
          (record m { stats = count_irq m.stats; entered = xs ++ ys; counted = t ∷ m.counted })
  store :
      (xs ys : List ℕ) (t : ℕ)
      → m.counted ≡ xs ++ (t ∷ ys)
      → Step resets m
          (record m { stats = store_irq_time t m.stats; counted = xs ++ ys; stored = suc m.stored })
  queue :
      (n : ℕ)
      → m.stored ≡ suc n
      → Step resets m (record m { stats = queue_regular m.stats; stored = n })
  take_off :
      m.work ≡ Work.idle
      → (m.stats).regular_queued ≡ true
      → Step resets m
          (record m { stats = record (m.stats) { regular_queued = false }; work = Work.taken_off })
  read_time : m.work ≡ Work.taken_off → Step resets m (record m { work = timed m.now })
  count_work :
      (t : ℕ)
      → m.work ≡ timed t
      → Step resets m (record m { stats = count_bottom_half m.stats; work = counted_at t })
  store_work :
      (t : ℕ)
      → m.work ≡ counted_at t
      → Step resets m (record m { stats = store_bh_time t m.stats; work = Work.idle })
  take_off_delayed :
      m.delayed ≡ Delayed.idle
      → (m.stats).delayed_queued ≡ true
      → Step resets m (record m {
        stats = record (m.stats) { delayed_queued = false };
        delayed = Delayed.taken_off;
      })
  count_delayed :
      m.delayed ≡ Delayed.taken_off
      → Step resets m (record m { stats = count_delayed_work m.stats; delayed = Delayed.counted })
  requeue_delayed :
      m.delayed ≡ Delayed.counted
      → Step resets m (record m { stats = queue_delayed m.stats; delayed = Delayed.idle })
  reset_irqs :
      resets ≡ true
      → Step resets m
          (record m { stats = clear_irq_count m.stats; resets_at_bh = suc m.resets_at_bh })
  reset_bottom_halves :
      (n : ℕ)
      → m.resets_at_bh ≡ suc n
      → Step resets m (record m {
        stats = clear_bottom_half_count m.stats;
        resets_at_bh = n;
        resets_at_delayed = suc m.resets_at_delayed;
      })
  reset_delayed :
      (n : ℕ)
      → m.resets_at_delayed ≡ suc n
      → Step resets m (record m { stats = clear_delayed_work_count m.stats; resets_at_delayed = n })

-- `irq_demo_init` has queued the delayed work.
abbrev pub start : Machine
start = record {
  stats = record {
    irq_count = 0;
    bottom_half_count = 0;
    delayed_work_count = 0;
    last_irq_time = 0;
    last_bh_time = 0;
    regular_queued = false;
    delayed_queued = true;
  };
  now = 0;
  entered = [];
  counted = [];
  stored = 0;
  work = Work.idle;
  delayed = Delayed.idle;
  resets_at_bh = 0;
  resets_at_delayed = 0;
}

-- What n steps reach.
pub data Reach (resets : Bool) : ℕ → Machine → Type 0 where
  here : Reach resets zero start
  next : {n : ℕ} {m m' : Machine} → Reach resets n m → Step resets m m' → Reach resets (suc n) m'

-- What can come after m.
pub data From (resets : Bool) (m : Machine) : Machine → Type 0 where
  stays : From resets m m
  then : {m' m'' : Machine} → From resets m m' → Step resets m' m'' → From resets m m''

abbrev pub count_of : Bool → ℕ
count_of true = 1
count_of false = 0

-- A bottom half that runs and is not counted yet.
abbrev pub uncounted : Work → ℕ
uncounted Work.idle = 0
uncounted Work.taken_off = 1
uncounted (timed t) = 1
uncounted (counted_at t) = 0

-- The bottom halves that run uncounted or are queued, and the top halves that are still to queue one
-- for an interrupt that they have counted.
abbrev pub pending : Machine → ℕ
pending m = uncounted m.work + count_of (m.stats).regular_queued + m.stored + length m.counted

record Inv (n : ℕ) (m : Machine) : Type 0 where
  few_irqs : (m.stats).irq_count ≤ n
  few_works : (m.stats).bottom_half_count ≤ n
  no_reset : m.resets_at_bh ≡ 0
  behind : (m.stats).bottom_half_count + pending m ≤ (m.stats).irq_count

length-moved :
    {zs : List ℕ} (xs ys : List ℕ) (t : ℕ)
    → zs ≡ xs ++ (t ∷ ys)
    → length zs ≡ suc (length (xs ++ ys))
length-moved xs ys t e = ap length e ∙ omega (arith, length-append xs (t ∷ ys), length-append xs ys)

Step-Inv : {n : ℕ} {m m' : Machine} → suc n < 2 ^ 32 → Step false m m' → Inv n m → Inv (suc n) m'
Step-Inv h (tick t le) v = ground arith
Step-Inv h enter v = ground arith
Step-Inv h (count xs ys t e) v = ground arith
Step-Inv h (store xs ys t e) v = ground (arith, length-moved xs ys t e)
Step-Inv h (queue k e) v = ground arith
Step-Inv h (take_off e q) v = ground arith
Step-Inv h (read_time e) v = ground arith
Step-Inv h (count_work t e) v = ground arith
Step-Inv h (store_work t e) v = ground arith
Step-Inv h (take_off_delayed e q) v = ground arith
Step-Inv h (count_delayed e) v = ground arith
Step-Inv h (requeue_delayed e) v = ground arith
Step-Inv h (reset_irqs e) v = ground arith
Step-Inv h (reset_bottom_halves k e) v = ground arith
Step-Inv h (reset_delayed k e) v = ground arith

Reach-Inv : {n : ℕ} {m : Machine} → n < 2 ^ 32 → Reach false n m → Inv n m
Reach-Inv h here = ground arith
Reach-Inv h (next r st) = Step-Inv h st (Reach-Inv (omega arith) r)
