-- ===== src/SyncDemo/Threads/ReaderSteps.antt =====
-- What a reader of the proc file of tutorial-04/sync_demo.c has read stays in step.
use utsavbalar_linux_kernel.Base.{ℕ, ◌+◌, ◌≤◌, ◌≡◌, inl, inr, true, arith, ◌==◌, Bool-cases}
use utsavbalar_linux_kernel.SyncDemo.Threads.{
  at, Lock, spin, Pc, Rc, Reader, reading, System, Step, go_on, stop, count, take, load, store,
  release, wake, call_begin, call_clear, call_take, call_store, call_release, show_begin,
  show_atomic, show_take, show_load, show_release, show_end, put, set_at, show_after,
}
use utsavbalar_linux_kernel.SyncDemo.Threads.Quiet.{
  IsQuiet, behind, read_atomic, has_read, InStep, Inv,
}

pub InStep-le : (m n : ℕ) (r : Reader) → m ≤ n → InStep m r → InStep n r
InStep-le m n r h v = record {
  atomic_past = λ e. omega (arith, v.atomic_past e);
  past = λ l e. omega (arith, v.past l e);
  in_order = v.in_order;
}

-- A reader that moves on without reading.
InStep-place :
    (n : ℕ) (r : Reader) (p : Rc)
    → InStep n r
    → (read_atomic p ≡ true → read_atomic r.place ≡ true)
    → ((l : Lock) → has_read p l ≡ true → has_read r.place l ≡ true)
    → InStep n (record r { place = p })
InStep-place n r p v earlier_atomic earlier = record {
  atomic_past = λ e. v.atomic_past (earlier_atomic e);
  past = λ l e. v.past l (earlier l e);
  in_order = λ l m e lt. v.in_order l m (earlier m e) lt;
}

InStep-atomic :
    (n : ℕ) (r : Reader) → InStep n (record r { place = Rc.wants spin; atomic_value = n })
InStep-atomic n r = record {
  atomic_past = λ e. omega arith;
  past = λ l e. ground arith;
  in_order = λ l m e lt. ground arith;
}

InStep-load :
    (n : ℕ) (r : Reader) (k : Lock) (x : ℕ)
    → InStep n r
    → r.place ≡ Rc.holds k
    → x ≤ n
    → n ≤ x + 1
    → InStep n (record r { place = Rc.leaves k; seen = put k x r.seen })
InStep-load n r k x v e below close = record {
  atomic_past = λ h. ground (arith, v.atomic_past);
  past = λ l h. ground (arith, v.past l, v.atomic_past);
  in_order = λ l m h lt. ground (arith, v.past l, v.in_order l m);
}

InStep-set_at :
    (n i j : ℕ) (f : ℕ → Reader) (r : Reader)
    → InStep n r
    → InStep n (f j)
    → InStep n (set_at f i r j)
InStep-set_at n i j f r new old = elim (Bool-cases (i == j)) [ inl e ↦ rw e new | inr e ↦ rw e old ]

behind-le : (p : Pc) (l : Lock) → behind p l ≤ 1
behind-le p l = ground arith

-- The new state of the reader that a step moves.
module _ {n : ℕ} {s : System} (v : Inv n s) (i : ℕ) where
  abbrev r : Reader
  r = s.readers i

  begin-InStep : InStep n (record r { place = reading })
  begin-InStep = InStep-place n r reading (v.readers i) (λ e. cc) (λ l e. cc)

  atomic-InStep : InStep n (record r { place = Rc.wants spin; atomic_value = s.atomic })
  atomic-InStep = rw v.atomic (InStep-atomic n r)

  take-InStep : (k : Lock) → r.place ≡ Rc.wants k → InStep n (record r { place = Rc.holds k })
  take-InStep k e =
      InStep-place n r (Rc.holds k) (v.readers i) (λ h. ground arith) (λ l h. ground arith)

  load-InStep :
      (k : Lock)
      → r.place ≡ Rc.holds k
      → InStep n (record r { place = Rc.leaves k; seen = put k (at k s.values) r.seen })
  load-InStep k e =
      InStep-load n r k (at k s.values) (v.readers i) e (omega (arith, v.values k))
        (omega (arith, v.values k, behind-le s.thread k))

  release-InStep : (k : Lock) → r.place ≡ Rc.leaves k → InStep n (record r { place = show_after k })
  release-InStep k e =
      InStep-place n r (show_after k) (v.readers i) (λ h. ground arith) (λ l h. ground arith)

  end-InStep : InStep n (record r { place = Rc.idle })
  end-InStep = InStep-place n r Rc.idle (v.readers i) (λ e. cc) (λ l e. cc)

pub readers-Step :
    {n : ℕ} {s t : System}
    → (st : Step s t) → Inv n s
    → IsQuiet st
    → (j : ℕ) → InStep n (t.readers j)
readers-Step (go_on e) v q j = v.readers j
readers-Step (stop e) v q j = v.readers j
readers-Step (count e) v q j = v.readers j
readers-Step (take m e f g) v q j = v.readers j
readers-Step (load m e) v q j = v.readers j
readers-Step (store m x e) v q j = v.readers j
readers-Step (release m e) v q j = v.readers j
readers-Step (wake e) v q j = v.readers j
readers-Step (call_begin i e) v q j = elim q [ ]
readers-Step (call_clear i e) v q j = v.readers j
readers-Step (call_take i m e f g) v q j = v.readers j
readers-Step (call_store i m e) v q j = v.readers j
readers-Step (call_release i m e) v q j = v.readers j
readers-Step {n} {s} (show_begin i e) v q j =
    InStep-set_at n i j s.readers _ (begin-InStep v i) (v.readers j)
readers-Step {n} {s} (show_atomic i e) v q j =
    InStep-set_at n i j s.readers _ (atomic-InStep v i) (v.readers j)
readers-Step {n} {s} (show_take i m e f) v q j =
    InStep-set_at n i j s.readers _ (take-InStep v i m e) (v.readers j)
readers-Step {n} {s} (show_load i m e) v q j =
    InStep-set_at n i j s.readers _ (load-InStep v i m e) (v.readers j)
readers-Step {n} {s} (show_release i m e) v q j =
    InStep-set_at n i j s.readers _ (release-InStep v i m e) (v.readers j)
readers-Step {n} {s} (show_end i e) v q j =
    InStep-set_at n i j s.readers _ (end-InStep v i) (v.readers j)
