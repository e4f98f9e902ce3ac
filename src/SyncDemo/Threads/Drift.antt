-- ===== src/SyncDemo/Threads/Drift.antt =====
-- A reset of tutorial-04/sync_demo.c that the thread overtakes leaves the counters apart.
use utsavbalar_linux_kernel.Base.{ℕ, zero, suc, ◌+◌, ◌^◌, ◌<◌, ◌≡◌, refl, subst, none, arith, inc32}
use utsavbalar_linux_kernel.SyncDemo.Threads.{
  spin, mutex, sem, rwsem, ByLock, everywhere, testing, Wc, System, go_on, count, take, load, store,
  release, wake, Step, set_at, Lock, call_take, call_after, clearing, call_store, call_release,
  call_begin, call_clear, start,
}

-- The resets that a step begins.
abbrev pub begun : {s t : System} → Step s t → ℕ
begun (call_begin i e) = 1
begun _ = 0

-- Runs from the loaded module on in which so many resets begin.
pub data Runs : ℕ → System → Type 0 where
  loaded : Runs 0 start
  on : {n : ℕ} {s t : System} → Runs n s → (st : Step s t) → Runs (n + begun st) t

-- The thread at the test of its loop, with every lock free.
abbrev at_test : ℕ → ByLock ℕ → (ℕ → Wc) → System
at_test a values calls = record {
  atomic = a;
  values = values;
  owners = everywhere none;
  thread = testing;
  calls = calls;
  readers = start.readers;
}

abbrev round_values : ℕ → ByLock ℕ → ByLock ℕ
round_values a b = record {
  of_spin = inc32 b.of_spin;
  of_mutex = inc32 b.of_mutex;
  of_sem = inc32 b.of_sem;
  of_rwsem = inc32 a;
}

-- One round with no reset in between.
round :
    (a : ℕ) (values : ByLock ℕ) (calls : ℕ → Wc)
    → Runs 1 (at_test a values calls)
    → Runs 1 (at_test (inc32 a) (round_values a values) calls)
round a b calls r0 =
    let r1 = on (on r0 (go_on refl)) (count refl) in
    let r2 =
      on
        (on (on (on r1 (take spin refl refl (λ j. refl))) (load spin refl))
          (store spin (inc32 b.of_spin) refl))
        (release spin refl) in
    let r3 =
      on
        (on (on (on r2 (take mutex refl refl (λ j. refl))) (load mutex refl))
          (store mutex (inc32 b.of_mutex) refl))
        (release mutex refl) in
    let r4 =
      on
        (on (on (on r3 (take sem refl refl (λ j. refl))) (load sem refl))
          (store sem (inc32 b.of_sem) refl))
        (release sem refl) in
    let r5 =
      on
        (on (on (on r4 (take rwsem refl refl (λ j. refl))) (load rwsem refl))
          (store rwsem (inc32 a) refl))
        (release rwsem refl) in
    on r5 (wake refl)

rounds :
    (n : ℕ) (values : ByLock ℕ) (calls : ℕ → Wc)
    → n < 2 ^ 32
    → Runs 1 (at_test 0 values calls)
    → (later : ByLock ℕ) × Runs 1 (at_test n later calls)
rounds zero values calls h r = (values, r)
rounds (suc n) values calls h r =
    let (b, r') = rounds n values calls (omega arith) r in
    let e : inc32 n ≡ suc n = omega arith in
    (
      round_values n b,
      subst (λ (a : ℕ). Runs 1 (at_test a (round_values n b) calls)) e (round n b calls r'),
    )

-- A call that has cleared the atomic counter, and what it does from there to its end.
abbrev cleared : ℕ → Wc
cleared = set_at (set_at (λ _. Wc.idle) 0 clearing) 0 (Wc.wants spin)

abbrev under : Lock → (ℕ → Wc) → ℕ → Wc
under l calls = set_at (set_at (set_at calls 0 (Wc.holds l)) 0 (Wc.leaves l)) 0 (call_after l)

abbrev finished : ℕ → Wc
finished = under rwsem (under sem (under mutex (under spin cleared)))

finish :
    (a : ℕ) (b : ByLock ℕ)
    → Runs 1 (at_test a b cleared)
    → Runs 1 (at_test a (everywhere 0) finished)
finish a b r0 =
    let r1 =
      on (on (on r0 (call_take 0 spin refl refl (λ j. refl))) (call_store 0 spin refl))
        (call_release 0 spin refl) in
    let r2 =
      on (on (on r1 (call_take 0 mutex refl refl (λ j. refl))) (call_store 0 mutex refl))
        (call_release 0 mutex refl) in
    let r3 =
      on (on (on r2 (call_take 0 sem refl refl (λ j. refl))) (call_store 0 sem refl))
        (call_release 0 sem refl) in
    on (on (on r3 (call_take 0 rwsem refl refl (λ j. refl))) (call_store 0 rwsem refl))
      (call_release 0 rwsem refl)

-- A reset is not one step: for every n below 2^32 there is a run from the loaded module on in which
-- exactly one reset begins, and at the end that reset has returned, the thread is at its loop, nobody
-- owns a lock, and the atomic counter is n while the other four counters are 0.
pub reset_drift :
    (n : ℕ)
    → n < 2 ^ 32
    → (s : System) × Runs 1 s
      × (s.thread ≡ testing)
      × ((i : ℕ) → s.calls i ≡ Wc.idle)
      × (s.owners ≡ everywhere none)
      × (s.atomic ≡ n)
      × (s.values ≡ everywhere 0)
reset_drift n h =
    let begun = on (on loaded (call_begin 0 refl)) (call_clear 0 refl) in
    let (b, r) = rounds n (everywhere 0) cleared h begun in
    (at_test n (everywhere 0) finished, finish n b r, refl, λ i. ground arith, refl, refl, refl)
