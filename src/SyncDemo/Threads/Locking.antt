-- ===== src/SyncDemo/Threads/Locking.antt =====
-- Who owns the locks of tutorial-04/sync_demo.c, and what the thread is about to store: an invariant
-- of the interleavings.
use utsavbalar_linux_kernel.Base.{
  ℕ, ◌≡◌, refl, Bool, true, false, ◌&&◌, not, none, some, arith, ◌==◌, inc32,
}
use utsavbalar_linux_kernel.SyncDemo.Threads.{
  here, demo, call, next, rwsem, Lock, spin, mutex, sem, rwsem, demo, call, at, Pc, has, Wc, System,
  Step, go_on, stop, count, take, load, store, release, wake, call_begin, call_clear, call_take,
  call_store, call_release, start, Reach, next, reader, Rc, shares, show_begin, show_atomic,
  show_take, show_load, show_release, show_end,
}

abbrev pub rank_lock : Lock → ℕ
rank_lock spin = 0
rank_lock mutex = 1
rank_lock sem = 2
rank_lock rwsem = 3

abbrev pub same_lock : Lock → Lock → Bool
same_lock l m = rank_lock l == rank_lock m

-- Between the taking of a lock and its release.
abbrev pub inside : Pc → Lock → Bool
inside (Pc.holds m) l = same_lock m l
inside (has m v) l = same_lock m l
inside (Pc.leaves m) l = same_lock m l
inside _ l = false

abbrev pub call_inside : Wc → Lock → Bool
call_inside (Wc.holds m) l = same_lock m l
call_inside (Wc.leaves m) l = same_lock m l
call_inside _ l = false

abbrev pub show_inside : Rc → Lock → Bool
show_inside (Rc.holds m) l = same_lock m l
show_inside (Rc.leaves m) l = same_lock m l
show_inside _ l = false

-- A reader inside a lock that it does not share.
abbrev pub alone : Rc → Lock → Bool
alone p l = show_inside p l && not (shares p l)

-- A value that the thread has computed is still one more than the counter.
abbrev pub IsFresh : System → Pc → Type 0
IsFresh s (has spin v) = v ≡ inc32 s.values.of_spin
IsFresh s (has mutex v) = v ≡ inc32 s.values.of_mutex
IsFresh s (has sem v) = v ≡ inc32 s.values.of_sem
IsFresh s _ = Unit

pub record Inv (s : System) : Type 0 where
  pub thread_owns : (l : Lock) → inside s.thread l ≡ true → at l s.owners ≡ some demo
  pub call_owns :
      (i : ℕ) (l : Lock) → call_inside (s.calls i) l ≡ true → at l s.owners ≡ some (call i)
  pub reader_owns :
      (i : ℕ) (l : Lock) → alone (s.readers i).place l ≡ true → at l s.owners ≡ some (reader i)
  pub shared_free : (i : ℕ) (l : Lock) → shares (s.readers i).place l ≡ true → at l s.owners ≡ none
  pub fresh : IsFresh s s.thread

Inv-start : Inv start
Inv-start = record {
  thread_owns = λ l h. cc;
  call_owns = λ i l h. cc;
  reader_owns = λ i l h. cc;
  shared_free = λ i l h. cc;
  fresh = tt;
}

thread_owns-Step :
    {s t : System}
    → Step s t
    → Inv s
    → (l : Lock) → inside t.thread l ≡ true
    → at l t.owners ≡ some demo
thread_owns-Step (go_on e) v l h = ground arith
thread_owns-Step (stop e) v l h = ground arith
thread_owns-Step (count e) v l h = ground arith
thread_owns-Step (take m e f g) v l h = ground (arith, v.thread_owns l)
thread_owns-Step (load m e) v l h = ground (arith, v.thread_owns l)
thread_owns-Step (store m x e) v l h = ground (arith, v.thread_owns l)
thread_owns-Step (release m e) v l h = ground (arith, v.thread_owns l)
thread_owns-Step (wake e) v l h = ground arith
thread_owns-Step (call_begin i e) v l h = v.thread_owns l h
thread_owns-Step (call_clear i e) v l h = v.thread_owns l h
thread_owns-Step (call_take i m e f g) v l h = ground (arith, v.thread_owns l)
thread_owns-Step (call_store i m e) v l h = v.thread_owns l h
thread_owns-Step (call_release i m e) v l h = ground (arith, v.thread_owns l, v.call_owns i m)
thread_owns-Step (show_begin i e) v l h = v.thread_owns l h
thread_owns-Step (show_atomic i e) v l h = v.thread_owns l h
thread_owns-Step (show_take i m e f) v l h = ground (arith, v.thread_owns l)
thread_owns-Step (show_load i m e) v l h = v.thread_owns l h
thread_owns-Step (show_release i m e) v l h = ground (arith, v.thread_owns l, v.reader_owns i m)
thread_owns-Step (show_end i e) v l h = v.thread_owns l h

-- What one call's place says of the owners, for the steps that leave that call alone.
module _ {s : System} (v : Inv s) (i : ℕ) (l : Lock) where
  abbrev Owned : System → Type 0
  Owned t = call_inside (t.calls i) l ≡ true → at l t.owners ≡ some (call i)

  call_owns-Step : {t : System} → Step s t → Owned t
  call_owns-Step (go_on e) = v.call_owns i l
  call_owns-Step (stop e) = v.call_owns i l
  call_owns-Step (count e) = v.call_owns i l
  call_owns-Step (take m e f g) = λ h. ground (arith, v.call_owns i l)
  call_owns-Step (load m e) = v.call_owns i l
  call_owns-Step (store m x e) = v.call_owns i l
  call_owns-Step (release m e) = λ h. ground (arith, v.call_owns i l, v.thread_owns m)
  call_owns-Step (wake e) = v.call_owns i l
  call_owns-Step (call_begin j e) = λ h. ground (arith, v.call_owns i l)
  call_owns-Step (call_clear j e) = λ h. ground (arith, v.call_owns i l)
  call_owns-Step (call_take j m e f g) = λ h. ground (arith, v.call_owns i l)
  call_owns-Step (call_store j m e) = λ h. ground (arith, v.call_owns i l)
  call_owns-Step (call_release j m e) = λ h. ground (arith, v.call_owns i l, v.call_owns j m)
  call_owns-Step (show_begin j e) = v.call_owns i l
  call_owns-Step (show_atomic j e) = v.call_owns i l
  call_owns-Step (show_take j m e f) = λ h. ground (arith, v.call_owns i l)
  call_owns-Step (show_load j m e) = v.call_owns i l
  call_owns-Step (show_release j m e) = λ h. ground (arith, v.call_owns i l, v.reader_owns j m)
  call_owns-Step (show_end j e) = v.call_owns i l

  abbrev OwnedByReader : System → Type 0
  OwnedByReader t = alone (t.readers i).place l ≡ true → at l t.owners ≡ some (reader i)

  reader_owns-Step : {t : System} → Step s t → OwnedByReader t
  reader_owns-Step (go_on e) = v.reader_owns i l
  reader_owns-Step (stop e) = v.reader_owns i l
  reader_owns-Step (count e) = v.reader_owns i l
  reader_owns-Step (take m e f g) = λ h. ground (arith, v.reader_owns i l)
  reader_owns-Step (load m e) = v.reader_owns i l
  reader_owns-Step (store m x e) = v.reader_owns i l
  reader_owns-Step (release m e) = λ h. ground (arith, v.reader_owns i l, v.thread_owns m)
  reader_owns-Step (wake e) = v.reader_owns i l
  reader_owns-Step (call_begin j e) = v.reader_owns i l
  reader_owns-Step (call_clear j e) = v.reader_owns i l
  reader_owns-Step (call_take j m e f g) = λ h. ground (arith, v.reader_owns i l)
  reader_owns-Step (call_store j m e) = v.reader_owns i l
  reader_owns-Step (call_release j m e) = λ h. ground (arith, v.reader_owns i l, v.call_owns j m)
  reader_owns-Step (show_begin j e) = λ h. ground (arith, v.reader_owns i l)
  reader_owns-Step (show_atomic j e) = λ h. ground (arith, v.reader_owns i l)
  reader_owns-Step (show_take j m e f) = λ h. ground (arith, v.reader_owns i l)
  reader_owns-Step (show_load j m e) = λ h. ground (arith, v.reader_owns i l)
  reader_owns-Step (show_release j m e) = λ h. ground (arith, v.reader_owns i l, v.reader_owns j m)
  reader_owns-Step (show_end j e) = λ h. ground (arith, v.reader_owns i l)

  abbrev FreeForReaders : System → Type 0
  FreeForReaders t = shares (t.readers i).place l ≡ true → at l t.owners ≡ none

  shared_free-Step : {t : System} → Step s t → FreeForReaders t
  shared_free-Step (go_on e) = v.shared_free i l
  shared_free-Step (stop e) = v.shared_free i l
  shared_free-Step (count e) = v.shared_free i l
  shared_free-Step (take m e f g) = λ h. ground (arith, v.shared_free i l, g i)
  shared_free-Step (load m e) = v.shared_free i l
  shared_free-Step (store m x e) = v.shared_free i l
  shared_free-Step (release m e) = λ h. ground (arith, v.shared_free i l)
  shared_free-Step (wake e) = v.shared_free i l
  shared_free-Step (call_begin j e) = v.shared_free i l
  shared_free-Step (call_clear j e) = v.shared_free i l
  shared_free-Step (call_take j m e f g) = λ h. ground (arith, v.shared_free i l, g i)
  shared_free-Step (call_store j m e) = v.shared_free i l
  shared_free-Step (call_release j m e) = λ h. ground (arith, v.shared_free i l)
  shared_free-Step (show_begin j e) = λ h. ground (arith, v.shared_free i l)
  shared_free-Step (show_atomic j e) = λ h. ground (arith, v.shared_free i l)
  shared_free-Step (show_take j m e f) = λ h. ground (arith, v.shared_free i l)
  shared_free-Step (show_load j m e) = λ h. ground (arith, v.shared_free i l)
  shared_free-Step (show_release j m e) = λ h. ground (arith, v.shared_free i l)
  shared_free-Step (show_end j e) = λ h. ground (arith, v.shared_free i l)

IsFresh-Step : {s t : System} → Step s t → Inv s → IsFresh t t.thread
IsFresh-Step (go_on e) v = tt
IsFresh-Step (stop e) v = tt
IsFresh-Step (count e) v = tt
IsFresh-Step (take m e f g) v = tt
IsFresh-Step (load spin e) v = refl
IsFresh-Step (load mutex e) v = refl
IsFresh-Step (load sem e) v = refl
IsFresh-Step (load rwsem e) v = tt
IsFresh-Step (store m x e) v = tt
IsFresh-Step (release spin e) v = tt
IsFresh-Step (release mutex e) v = tt
IsFresh-Step (release sem e) v = tt
IsFresh-Step (release rwsem e) v = tt
IsFresh-Step (wake e) v = tt
IsFresh-Step (call_begin i e) v = v.fresh
IsFresh-Step (call_clear i e) v = v.fresh
IsFresh-Step (call_take i m e f g) v = v.fresh
IsFresh-Step (call_store i m e) v = ground (arith, v.fresh, v.call_owns i m, v.thread_owns m)
IsFresh-Step (call_release i m e) v = v.fresh
IsFresh-Step (show_begin i e) v = v.fresh
IsFresh-Step (show_atomic i e) v = v.fresh
IsFresh-Step (show_take i m e f) v = v.fresh
IsFresh-Step (show_load i m e) v = v.fresh
IsFresh-Step (show_release i m e) v = v.fresh
IsFresh-Step (show_end i e) v = v.fresh

Step-Inv : {s t : System} → Step s t → Inv s → Inv t
Step-Inv st v = record {
  thread_owns = thread_owns-Step st v;
  call_owns = λ i l. call_owns-Step v i l st;
  reader_owns = λ i l. reader_owns-Step v i l st;
  shared_free = λ i l. shared_free-Step v i l st;
  fresh = IsFresh-Step st v;
}

pub Reach-Inv : {s : System} → Reach s → Inv s
Reach-Inv here = Inv-start
Reach-Inv (next r st) = Step-Inv st (Reach-Inv r)
