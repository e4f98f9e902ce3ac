-- ===== src/SyncDemo/Threads/Work.antt =====
-- The work that the actors of tutorial-04/sync_demo.c have before them: a measure that each of their
-- steps makes smaller by one.
use utsavbalar_linux_kernel.Base.{
  ℕ, zero, suc, ◌+◌, ◌-◌, ◌*◌, ◌≤◌, ◌<◌, ◌≡◌, refl, inl, inr, arith, ◌==◌, Bool-cases,
}
use utsavbalar_linux_kernel.SyncDemo.Threads.{
  Lock, spin, mutex, sem, rwsem, Pc, has, testing, counting, sleeping, ended, Wc, clearing, System,
  Step, go_on, stop, count, take, load, store, release, wake, call_begin, call_clear, call_take,
  call_store, call_release, call_after, set_at, put, at, Rc, Reader, reading, printing, show_begin,
  show_atomic, show_take, show_load, show_release, show_end, show_after,
}

-- How many locks an actor that wants one still takes, that one included.
abbrev pub locks_left : Lock → ℕ
locks_left spin = 4
locks_left mutex = 3
locks_left sem = 2
locks_left rwsem = 1

-- The steps to the end of a round of the thread, of a reset, and of a read of the proc file.
abbrev pub thread_left : Pc → ℕ
thread_left testing = 0
thread_left counting = 17
thread_left (Pc.wants l) = 4 * locks_left l
thread_left (Pc.holds l) = 4 * locks_left l - 1
thread_left (has l v) = 4 * locks_left l - 2
thread_left (Pc.leaves l) = 4 * locks_left l - 3
thread_left sleeping = 0
thread_left ended = 0

abbrev pub call_left : Wc → ℕ
call_left Wc.idle = 0
call_left clearing = 13
call_left (Wc.wants l) = 3 * locks_left l
call_left (Wc.holds l) = 3 * locks_left l - 1
call_left (Wc.leaves l) = 3 * locks_left l - 2

abbrev pub place_left : Rc → ℕ
place_left Rc.idle = 0
place_left reading = 14
place_left (Rc.wants l) = 3 * locks_left l + 1
place_left (Rc.holds l) = 3 * locks_left l
place_left (Rc.leaves l) = 3 * locks_left l - 1
place_left printing = 1

abbrev pub reader_left : Reader → ℕ
reader_left r = place_left r.place

-- The sum over the first n.
unfoldable pub total : {A : Type 0} → (A → ℕ) → ℕ → (ℕ → A) → ℕ
total weight zero f = 0
total weight (suc n) f = total weight n f + weight (f n)

abbrev pub left : ℕ → System → ℕ
left n s = thread_left s.thread + total call_left n s.calls + total reader_left n s.readers

-- No call and no reader from n on is running.
abbrev pub Below : ℕ → System → Type 0
Below n s = (i : ℕ) → n ≤ i → (s.calls i ≡ Wc.idle) × ((s.readers i).place ≡ Rc.idle)

-- A step that neither begins a round of the thread, a reset or a read, nor wakes or ends the thread.
abbrev pub IsWork : {s t : System} → Step s t → Type 0
IsWork (go_on e) = ⊥
IsWork (stop e) = ⊥
IsWork (wake e) = ⊥
IsWork (call_begin i e) = ⊥
IsWork (show_begin i e) = ⊥
IsWork _ = Unit

-- Runs of so many such steps that end in u.
pub data WorksTo (u : System) : ℕ → System → Type 0 where
  done : WorksTo u zero u
  more : {n : ℕ} {s t : System} → (st : Step s t) → IsWork st → WorksTo u n t → WorksTo u (suc n) s

module _ {A : Type 0} (weight : A → ℕ) where
  total-past :
      (n i : ℕ) (f : ℕ → A) (a : A) → n ≤ i → total weight n (set_at f i a) ≡ total weight n f
  unfolding total
  total-past zero i f a h = refl
  total-past (suc n) i f a h = ground (arith, total-past n i f a (omega arith))

  total-set_at :
      (n i : ℕ) (f : ℕ → A) (a : A)
      → i < n
      → total weight n (set_at f i a) + weight (f i) ≡ total weight n f + weight a
  unfolding total
  total-set_at zero i f a h = elim h [ ]
  total-set_at (suc n) i f a h = elim (Bool-cases (i == n)) [
    | inl last ↦ ground (arith, total-past n i f a)
    | inr other ↦ ground (arith, total-set_at n i f a)
  ]

  pub total-le : (m : ℕ) → ((a : A) → weight a ≤ m) → (n : ℕ) (f : ℕ → A) → total weight n f ≤ m * n
  unfolding total
  total-le m bound zero f = omega arith
  total-le m bound (suc n) f = grind (arith, total-le m bound n f, bound (f n))

-- A call or a reader that runs is one of the first n.
running_call : (n i : ℕ) (s : System) → Below n s → 0 < call_left (s.calls i) → i < n
running_call n i s b h = ground (arith, b i)

running_reader : (n i : ℕ) (s : System) → Below n s → 0 < reader_left (s.readers i) → i < n
running_reader n i s b h = ground (arith, b i)

-- A call moves to place w with one step less before it, and so does a reader.
call_moves :
    (n i : ℕ) (s : System) (w : Wc)
    → Below n s
    → call_left w + 1 ≡ call_left (s.calls i)
    → total call_left n (set_at s.calls i w) + 1 ≡ total call_left n s.calls
call_moves n i s w b e =
    omega (arith, total-set_at call_left n i s.calls w (running_call n i s b (omega arith)))

reader_moves :
    (n i : ℕ) (s : System) (r : Reader)
    → Below n s
    → reader_left r + 1 ≡ reader_left (s.readers i)
    → total reader_left n (set_at s.readers i r) + 1 ≡ total reader_left n s.readers
reader_moves n i s r b e =
    omega (arith, total-set_at reader_left n i s.readers r (running_reader n i s b (omega arith)))

module _ (n : ℕ) where
  pub left-Step : {s t : System} → (st : Step s t) → IsWork st → Below n s → left n t + 1 ≡ left n s
  left-Step (go_on e) w b = elim w [ ]
  left-Step (stop e) w b = elim w [ ]
  left-Step (count e) w b = ground arith
  left-Step (take m e f g) w b = ground arith
  left-Step (load m e) w b = ground arith
  left-Step (store m x e) w b = ground arith
  left-Step (release m e) w b = ground arith
  left-Step (wake e) w b = elim w [ ]
  left-Step (call_begin i e) w b = elim w [ ]
  left-Step {s} (call_clear i e) w b = ground (arith, call_moves n i s (Wc.wants spin) b)
  left-Step {s} (call_take i m e f g) w b = ground (arith, call_moves n i s (Wc.holds m) b)
  left-Step {s} (call_store i m e) w b = ground (arith, call_moves n i s (Wc.leaves m) b)
  left-Step {s} (call_release i m e) w b = ground (arith, call_moves n i s (call_after m) b)
  left-Step (show_begin i e) w b = elim w [ ]
  left-Step {s} (show_atomic i e) w b =
      let r = record (s.readers i) { place = Rc.wants spin; atomic_value = s.atomic } in
      ground (arith, reader_moves n i s r b)
  left-Step {s} (show_take i m e f) w b =
      let r = record (s.readers i) { place = Rc.holds m } in ground (arith, reader_moves n i s r b)
  left-Step {s} (show_load i m e) w b =
      let r = record (s.readers i) {
        place = Rc.leaves m;
        seen = put m (at m s.values) (s.readers i).seen;
      } in
      ground (arith, reader_moves n i s r b)
  left-Step {s} (show_release i m e) w b =
      let r = record (s.readers i) { place = show_after m } in
      ground (arith, reader_moves n i s r b)
  left-Step {s} (show_end i e) w b =
      let r = record (s.readers i) { place = Rc.idle } in ground (arith, reader_moves n i s r b)

  pub Below-Step : {s t : System} → (st : Step s t) → IsWork st → Below n s → Below n t
  Below-Step (go_on e) w b i h = b i h
  Below-Step (stop e) w b i h = b i h
  Below-Step (count e) w b i h = b i h
  Below-Step (take m e f g) w b i h = b i h
  Below-Step (load m e) w b i h = b i h
  Below-Step (store m x e) w b i h = b i h
  Below-Step (release m e) w b i h = b i h
  Below-Step (wake e) w b i h = b i h
  Below-Step (call_begin j e) w b i h = elim w [ ]
  Below-Step (call_clear j e) w b i h = ground (arith, b i, b j)
  Below-Step (call_take j m e f g) w b i h = ground (arith, b i, b j)
  Below-Step (call_store j m e) w b i h = ground (arith, b i, b j)
  Below-Step (call_release j m e) w b i h = ground (arith, b i, b j)
  Below-Step (show_begin j e) w b i h = elim w [ ]
  Below-Step (show_atomic j e) w b i h = ground (arith, b i, b j)
  Below-Step (show_take j m e f) w b i h = ground (arith, b i, b j)
  Below-Step (show_load j m e) w b i h = ground (arith, b i, b j)
  Below-Step (show_release j m e) w b i h = ground (arith, b i, b j)
  Below-Step (show_end j e) w b i h = ground (arith, b i, b j)

  -- However the actors are scheduled: in a run in which no round, no reset and no read begins, and in
  -- which the thread neither wakes from its sleep nor ends, the steps done and those left add up to
  -- those that were left at the start, so no such run is longer than that.
  pub bounded_work :
      {u : System} {m : ℕ} {s : System} → WorksTo u m s → Below n s → m + left n u ≡ left n s
  bounded_work done b = omega arith
  bounded_work (more st k w) b = omega (arith, left-Step st k b, bounded_work w (Below-Step st k b))

thread_left-le : (p : Pc) → thread_left p ≤ 17
thread_left-le p = ground arith

call_left-le : (w : Wc) → call_left w ≤ 13
call_left-le w = ground arith

reader_left-le : (r : Reader) → reader_left r ≤ 14
reader_left-le r = ground arith

pub left-le : (n : ℕ) (s : System) → left n s ≤ 17 + 27 * n
left-le n s = omega (
  arith,
  thread_left-le s.thread,
  total-le call_left 13 call_left-le n s.calls,
  total-le reader_left 14 reader_left-le n s.readers,
)
