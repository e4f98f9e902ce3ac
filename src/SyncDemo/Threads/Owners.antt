-- ===== src/SyncDemo/Threads/Owners.antt =====
-- A lock of tutorial-04/sync_demo.c that is owned has its owner between taking and releasing it.
use utsavbalar_linux_kernel.Base.{◌≡◌, true, some, arith}
use utsavbalar_linux_kernel.SyncDemo.Threads.{
  here, demo, call, Actor, Lock, spin, mutex, sem, rwsem, at, System, Step, go_on, stop, count,
  take, load, store, release, wake, call_begin, call_clear, call_take, call_store, call_release,
  start, Reach, next, reader, show_begin, show_atomic, show_take, show_load, show_release, show_end,
}
use utsavbalar_linux_kernel.SyncDemo.Threads.Locking.{alone, inside, call_inside}

-- Between the taking of a lock and its release, with nobody sharing it.
abbrev pub Holding : System → Actor → Lock → Type 0
Holding s demo l = inside s.thread l ≡ true
Holding s (call i) l = call_inside (s.calls i) l ≡ true
Holding s (reader i) l = alone (s.readers i).place l ≡ true

-- The converse of what `Exclusion` keeps.
abbrev pub OwnersInside : System → Type 0
OwnersInside s = (l : Lock) (a : Actor) → at l s.owners ≡ some a → Holding s a l

OwnersInside-start : OwnersInside start
OwnersInside-start spin a h = cc
OwnersInside-start mutex a h = cc
OwnersInside-start sem a h = cc
OwnersInside-start rwsem a h = cc

OwnersInside-Step : {s t : System} → Step s t → OwnersInside s → OwnersInside t
OwnersInside-Step (go_on e) v l demo h = ground (arith, v l demo)
OwnersInside-Step (go_on e) v l (call j) h = v l (call j) h
OwnersInside-Step (go_on e) v l (reader j) h = v l (reader j) h
OwnersInside-Step (stop e) v l demo h = ground (arith, v l demo)
OwnersInside-Step (stop e) v l (call j) h = v l (call j) h
OwnersInside-Step (stop e) v l (reader j) h = v l (reader j) h
OwnersInside-Step (count e) v l demo h = ground (arith, v l demo)
OwnersInside-Step (count e) v l (call j) h = v l (call j) h
OwnersInside-Step (count e) v l (reader j) h = v l (reader j) h
OwnersInside-Step (take m e f g) v l demo h = ground (arith, v l demo)
OwnersInside-Step (take m e f g) v l (call j) h = ground (arith, v l (call j))
OwnersInside-Step (take m e f g) v l (reader j) h = ground (arith, v l (reader j))
OwnersInside-Step (load m e) v l demo h = ground (arith, v l demo)
OwnersInside-Step (load m e) v l (call j) h = v l (call j) h
OwnersInside-Step (load m e) v l (reader j) h = v l (reader j) h
OwnersInside-Step (store m x e) v l demo h = ground (arith, v l demo)
OwnersInside-Step (store m x e) v l (call j) h = v l (call j) h
OwnersInside-Step (store m x e) v l (reader j) h = v l (reader j) h
OwnersInside-Step (release m e) v l demo h = ground (arith, v l demo)
OwnersInside-Step (release m e) v l (call j) h = ground (arith, v l (call j))
OwnersInside-Step (release m e) v l (reader j) h = ground (arith, v l (reader j))
OwnersInside-Step (wake e) v l demo h = ground (arith, v l demo)
OwnersInside-Step (wake e) v l (call j) h = v l (call j) h
OwnersInside-Step (wake e) v l (reader j) h = v l (reader j) h
OwnersInside-Step (call_begin i e) v l demo h = v l demo h
OwnersInside-Step (call_begin i e) v l (call j) h = ground (arith, v l (call j))
OwnersInside-Step (call_begin i e) v l (reader j) h = v l (reader j) h
OwnersInside-Step (call_clear i e) v l demo h = v l demo h
OwnersInside-Step (call_clear i e) v l (call j) h = ground (arith, v l (call j))
OwnersInside-Step (call_clear i e) v l (reader j) h = v l (reader j) h
OwnersInside-Step (call_take i m e f g) v l demo h = ground (arith, v l demo)
OwnersInside-Step (call_take i m e f g) v l (call j) h = ground (arith, v l (call j))
OwnersInside-Step (call_take i m e f g) v l (reader j) h = ground (arith, v l (reader j))
OwnersInside-Step (call_store i m e) v l demo h = v l demo h
OwnersInside-Step (call_store i m e) v l (call j) h = ground (arith, v l (call j))
OwnersInside-Step (call_store i m e) v l (reader j) h = v l (reader j) h
OwnersInside-Step (call_release i m e) v l demo h = ground (arith, v l demo)
OwnersInside-Step (call_release i m e) v l (call j) h = ground (arith, v l (call j))
OwnersInside-Step (call_release i m e) v l (reader j) h = ground (arith, v l (reader j))
OwnersInside-Step (show_begin i e) v l demo h = v l demo h
OwnersInside-Step (show_begin i e) v l (call j) h = v l (call j) h
OwnersInside-Step (show_begin i e) v l (reader j) h = ground (arith, v l (reader j))
OwnersInside-Step (show_atomic i e) v l demo h = v l demo h
OwnersInside-Step (show_atomic i e) v l (call j) h = v l (call j) h
OwnersInside-Step (show_atomic i e) v l (reader j) h = ground (arith, v l (reader j))
OwnersInside-Step (show_take i m e f) v l demo h = ground (arith, v l demo)
OwnersInside-Step (show_take i m e f) v l (call j) h = ground (arith, v l (call j))
OwnersInside-Step (show_take i m e f) v l (reader j) h = ground (arith, v l (reader j))
OwnersInside-Step (show_load i m e) v l demo h = v l demo h
OwnersInside-Step (show_load i m e) v l (call j) h = v l (call j) h
OwnersInside-Step (show_load i m e) v l (reader j) h = ground (arith, v l (reader j))
OwnersInside-Step (show_release i m e) v l demo h = ground (arith, v l demo)
OwnersInside-Step (show_release i m e) v l (call j) h = ground (arith, v l (call j))
OwnersInside-Step (show_release i m e) v l (reader j) h = ground (arith, v l (reader j))
OwnersInside-Step (show_end i e) v l demo h = v l demo h
OwnersInside-Step (show_end i e) v l (call j) h = v l (call j) h
OwnersInside-Step (show_end i e) v l (reader j) h = ground (arith, v l (reader j))

pub Reach-OwnersInside : {s : System} → Reach s → OwnersInside s
Reach-OwnersInside here = OwnersInside-start
Reach-OwnersInside (next r st) = OwnersInside-Step st (Reach-OwnersInside r)
