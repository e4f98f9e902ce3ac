-- ===== src/SyncDemo/Threads/Show.antt =====
-- What a reader of the proc file of tutorial-04/sync_demo.c prints while the thread counts.
use utsavbalar_linux_kernel.Base.{
  ℕ, ◌+◌, ◌^◌, ◌≤◌, ◌<◌, ◌≡◌, refl, sym, ap, subst, List, [], ◌∷◌, arith, ◌-ℤ◌, ◌≤ℤ◌, signed32, ℤ,
  pos,
}
use utsavbalar_linux_kernel.SyncDemo.{Counters, sync_proc_show, String}
use utsavbalar_linux_kernel.SyncDemo.Threads.{
  at, Lock, spin, mutex, sem, rwsem, Reader, printing, System, Step,
}
use utsavbalar_linux_kernel.SyncDemo.Threads.Locking.{rank_lock}
use utsavbalar_linux_kernel.SyncDemo.Threads.Quiet.{
  ticks, IsQuiet, Quiet, here, next, read_atomic, has_read, Inv, values-Step, carried-Step,
  no_calls-Step, atomic-Step,
}
use utsavbalar_linux_kernel.SyncDemo.Threads.ReaderSteps.{InStep-le, readers-Step}

Step-Inv :
    {m n : ℕ} {s t : System}
    → (st : Step s t) → Inv m s
    → IsQuiet st
    → n ≡ m + ticks st
    → n < 2 ^ 32
    → Inv n t
Step-Inv {m} {n} {t = t} st v q e b =
    subst (λ k. Inv k t) (sym e)
      (record {
        no_calls = no_calls-Step st v q;
        atomic = atomic-Step st v q (omega arith);
        values = values-Step st v q (omega arith);
        carried = carried-Step st v q (omega arith);
        readers = λ j. InStep-le m (m + ticks st) _ (omega arith) (readers-Step st v q j);
      })

Quiet-Inv : {n : ℕ} {s : System} → Quiet n s → n < 2 ^ 32 → Inv n s
Quiet-Inv here b = record {
  no_calls = λ i. refl;
  atomic = refl;
  values = λ l. ground arith;
  carried = tt;
  readers = λ i. record { atomic_past = λ e. cc; past = λ l e. cc; in_order = λ l m e lt. cc };
}
Quiet-Inv (next r st q e) b = Step-Inv st (Quiet-Inv r (omega arith)) q e b

-- The local variables of a reader, by the index of the counter.
abbrev pub locals : Reader → Counters
locals r = record {
  atomic_counter = r.atomic_value;
  value0 = r.seen.of_rwsem;
  value1 = r.seen.of_spin;
  value2 = r.seen.of_mutex;
  value3 = r.seen.of_sem;
}

-- The printed values.
abbrev pub numbers : List (String × ℤ) → List ℤ
numbers [] = []
numbers ((label, x) ∷ lines) = x ∷ numbers lines

abbrev pub AtMostEach : ℤ → List ℤ → Type 0
AtMostEach x [] = Unit
AtMostEach x (y ∷ ys) = (x ≤ℤ y) × AtMostEach x ys

-- No value is more than one above any later one.
abbrev pub InSteps : List ℤ → Type 0
InSteps [] = Unit
InSteps (x ∷ xs) = AtMostEach (x -ℤ pos 1) xs × InSteps xs

signed_close : (a b : ℕ) → a < 2 ^ 31 → b < 2 ^ 31 → a ≤ b + 1 → signed32 a -ℤ pos 1 ≤ℤ signed32 b
unfolding ◌-ℤ◌
signed_close a b ha hb h = ground arith

-- While no reset runs, in the first 2^31 - 1 rounds, what any reader of the proc file prints is in
-- step: no printed counter is more than one above a counter that is printed after it, however many
-- rounds the thread does between the reads.
pub printed_in_step :
    {n : ℕ} {s : System}
    → Quiet n s
    → n < 2 ^ 31
    → (i : ℕ) → (s.readers i).place ≡ printing
    → InSteps (numbers (sync_proc_show (locals (s.readers i))))
unfolding sync_proc_show ◌-ℤ◌
printed_in_step {n} {s} q b i e =
    let r = s.readers i in
    let v = (Quiet-Inv q (omega arith)).readers i in
    let all = λ (l : Lock). ap (λ p. has_read p l) e in
    let after_atomic = λ (l : Lock).
      signed_close r.atomic_value (at l r.seen) (omega (arith, v.atomic_past (ap read_atomic e)))
        (omega (arith, v.past l (all l))) (v.past l (all l)).1 in
    let after_lock = λ (l m : Lock) (lt : rank_lock l < rank_lock m).
      signed_close (at l r.seen) (at m r.seen) (omega (arith, v.past l (all l)))
        (omega (arith, v.past m (all m))) (v.in_order l m (all m) lt) in
    (
      (after_atomic spin, (after_atomic mutex, (after_atomic sem, (after_atomic rwsem, tt)))),
      (
        (
          after_lock spin mutex (omega arith),
          (after_lock spin sem (omega arith), (after_lock spin rwsem (omega arith), tt)),
        ),
        (
          (after_lock mutex sem (omega arith), (after_lock mutex rwsem (omega arith), tt)),
          ((after_lock sem rwsem (omega arith), tt), (tt, tt)),
        ),
      ),
    )
