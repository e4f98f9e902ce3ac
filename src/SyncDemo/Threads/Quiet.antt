-- ===== src/SyncDemo/Threads/Quiet.antt =====
-- tutorial-04/sync_demo.c while no reset runs: the thread and the readers of the proc file, round by
-- round.
use utsavbalar_linux_kernel.Base.{
  ℕ, zero, ◌+◌, ◌^◌, ◌≤◌, ◌<◌, ◌≡◌, subst, Bool, true, false, arith, ltb, leb, if◌then◌else◌,
}
use utsavbalar_linux_kernel.SyncDemo.Threads.{
  at, Lock, spin, mutex, sem, rwsem, Pc, has, testing, counting, sleeping, ended, Wc, Rc, Reader,
  reading, printing, System, Step, go_on, stop, count, take, load, store, release, wake, call_begin,
  call_clear, call_take, call_store, call_release, show_begin, show_atomic, show_take, show_load,
  show_release, show_end, start,
}
use utsavbalar_linux_kernel.SyncDemo.Threads.Locking.{rank_lock}

-- How often a step begins a round.
abbrev pub ticks : {s t : System} → Step s t → ℕ
ticks (count e) = 1
ticks _ = 0

abbrev pub IsQuiet : {s t : System} → Step s t → Type 0
IsQuiet (call_begin i e) = ⊥
IsQuiet _ = Unit

-- The states that the module reaches without a reset, in so many rounds.
pub data Quiet : ℕ → System → Type 0 where
  here : Quiet zero start
  next :
      {m n : ℕ} {s t : System}
      → Quiet m s
      → (st : Step s t) → IsQuiet st
      → n ≡ m + ticks st
      → Quiet n t

-- How far a counter is behind the atomic counter.
abbrev pub behind : Pc → Lock → ℕ
behind testing l = 0
behind counting l = 0
behind (Pc.wants m) l = if leb (rank_lock m) (rank_lock l) then 1 else 0
behind (Pc.holds m) l = if leb (rank_lock m) (rank_lock l) then 1 else 0
behind (has m v) l = if leb (rank_lock m) (rank_lock l) then 1 else 0
behind (Pc.leaves m) l = if ltb (rank_lock m) (rank_lock l) then 1 else 0
behind sleeping l = 0
behind ended l = 0

abbrev pub Carries : ℕ → Pc → Type 0
Carries n (has l v) = v ≡ n
Carries n _ = Unit

-- What a reader has read at its place.
abbrev pub read_atomic : Rc → Bool
read_atomic Rc.idle = false
read_atomic reading = false
read_atomic _ = true

abbrev pub has_read : Rc → Lock → Bool
has_read Rc.idle l = false
has_read reading l = false
has_read (Rc.wants m) l = ltb (rank_lock l) (rank_lock m)
has_read (Rc.holds m) l = ltb (rank_lock l) (rank_lock m)
has_read (Rc.leaves m) l = leb (rank_lock l) (rank_lock m)
has_read printing l = true

pub record InStep (n : ℕ) (r : Reader) : Type 0 where
  pub atomic_past : read_atomic r.place ≡ true → r.atomic_value ≤ n
  pub past :
      (l : Lock)
      → has_read r.place l ≡ true
      → (at l r.seen ≤ n) × (r.atomic_value ≤ at l r.seen + 1)
  pub in_order :
      (l m : Lock)
      → has_read r.place m ≡ true
      → rank_lock l < rank_lock m
      → at l r.seen ≤ at m r.seen + 1

pub record Inv (n : ℕ) (s : System) : Type 0 where
  pub no_calls : (i : ℕ) → s.calls i ≡ Wc.idle
  pub atomic : s.atomic ≡ n
  pub values : (l : Lock) → at l s.values + behind s.thread l ≡ n
  pub carried : Carries n s.thread
  pub readers : (i : ℕ) → InStep n (s.readers i)

pub values-Step :
    {n : ℕ} {s t : System}
    → (st : Step s t) → Inv n s
    → IsQuiet st
    → n + ticks st < 2 ^ 32
    → (l : Lock) → at l t.values + behind t.thread l ≡ n + ticks st
values-Step (go_on e) v q b l = ground (arith, v.values l)
values-Step (stop e) v q b l = ground (arith, v.values l)
values-Step (count e) v q b l = ground (arith, v.values l)
values-Step (take m e f g) v q b l = ground (arith, v.values l)
values-Step (load m e) v q b l = ground (arith, v.values l)
values-Step {s = s} (store m x e) v q b l =
    ground (arith, v.values l, subst (Carries _) e v.carried)
values-Step (release m e) v q b l = ground (arith, v.values l)
values-Step (wake e) v q b l = ground (arith, v.values l)
values-Step (call_begin i e) v q b l = elim q [ ]
values-Step (call_clear i e) v q b l = ground (arith, v.no_calls i)
values-Step (call_take i m e f g) v q b l = ground (arith, v.no_calls i)
values-Step (call_store i m e) v q b l = ground (arith, v.no_calls i)
values-Step (call_release i m e) v q b l = ground (arith, v.no_calls i)
values-Step (show_begin i e) v q b l = ground (arith, v.values l)
values-Step (show_atomic i e) v q b l = ground (arith, v.values l)
values-Step (show_take i m e f) v q b l = ground (arith, v.values l)
values-Step (show_load i m e) v q b l = ground (arith, v.values l)
values-Step (show_release i m e) v q b l = ground (arith, v.values l)
values-Step (show_end i e) v q b l = ground (arith, v.values l)

pub carried-Step :
    {n : ℕ} {s t : System}
    → (st : Step s t) → Inv n s
    → IsQuiet st
    → n + ticks st < 2 ^ 32
    → Carries (n + ticks st) t.thread
carried-Step (go_on e) v q b = tt
carried-Step (stop e) v q b = tt
carried-Step (count e) v q b = tt
carried-Step (take m e f g) v q b = tt
carried-Step (load m e) v q b = ground (arith, v.values m)
carried-Step (store m x e) v q b = tt
carried-Step (release spin e) v q b = tt
carried-Step (release mutex e) v q b = tt
carried-Step (release sem e) v q b = tt
carried-Step (release rwsem e) v q b = tt
carried-Step (wake e) v q b = tt
carried-Step (call_begin i e) v q b = elim q [ ]
carried-Step _ v q b = ground (arith, v.carried)

pub no_calls-Step :
    {n : ℕ} {s t : System} → (st : Step s t) → Inv n s → IsQuiet st → (j : ℕ) → t.calls j ≡ Wc.idle
no_calls-Step (call_begin i e) v q j = elim q [ ]
no_calls-Step (call_clear i e) v q j = ground (arith, v.no_calls i)
no_calls-Step (call_take i m e f g) v q j = ground (arith, v.no_calls i)
no_calls-Step (call_store i m e) v q j = ground (arith, v.no_calls i)
no_calls-Step (call_release i m e) v q j = ground (arith, v.no_calls i)
no_calls-Step _ v q j = v.no_calls j

pub atomic-Step :
    {n : ℕ} {s t : System}
    → (st : Step s t) → Inv n s
    → IsQuiet st
    → n + ticks st < 2 ^ 32
    → t.atomic ≡ n + ticks st
atomic-Step (count e) v q b = ground (arith, v.atomic)
atomic-Step (call_clear i e) v q b = ground (arith, v.no_calls i)
atomic-Step _ v q b = ground (arith, v.atomic)
