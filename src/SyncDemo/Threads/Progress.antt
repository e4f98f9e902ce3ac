-- ===== src/SyncDemo/Threads/Progress.antt =====
-- The locks of tutorial-04/sync_demo.c block nobody for ever: what has begun comes to its end.
use utsavbalar_linux_kernel.Base.{
  ℕ, zero, suc, ◌+◌, ◌*◌, ◌≤◌, ◌<◌, ◌≡◌, refl, ◌⊎◌, inl, inr, true, false, none, arith, ◌==◌,
  Bool-cases, Option-cases,
}
use native.Mathlib.Decide.{dec_lt}
use utsavbalar_linux_kernel.SyncDemo.Threads.{
  Actor, demo, call, reader, Lock, at, Pc, has, testing, counting, sleeping, ended, Wc, clearing,
  Rc, reading, printing, shares, Unshared, System, Step, count, take, load, store, release,
  call_clear, call_take, call_store, call_release, show_atomic, show_take, show_load, show_release,
  show_end, Reach, next,
}
use utsavbalar_linux_kernel.SyncDemo.Threads.Locking.{inside, call_inside, show_inside}
use utsavbalar_linux_kernel.SyncDemo.Threads.Owners.{OwnersInside, Holding, Reach-OwnersInside}
use utsavbalar_linux_kernel.SyncDemo.Threads.Work.{
  thread_left, call_left, reader_left, place_left, total, left, Below, IsWork, WorksTo, done, more,
  left-Step, Below-Step, left-le,
}

-- Some actor can do a step of work.
abbrev pub Moves : System → Type 0
Moves s = (t : System) × (st : Step s t) × IsWork st

-- An actor that holds a lock is never blocked, and neither is one that shares it.
thread_inside-Moves : (s : System) (p : Pc) (l : Lock) → s.thread ≡ p → inside p l ≡ true → Moves s
thread_inside-Moves s testing l e h = cc
thread_inside-Moves s counting l e h = cc
thread_inside-Moves s (Pc.wants m) l e h = cc
thread_inside-Moves s (Pc.holds m) l e h = (_, load m e, tt)
thread_inside-Moves s (has m v) l e h = (_, store m v e, tt)
thread_inside-Moves s (Pc.leaves m) l e h = (_, release m e, tt)
thread_inside-Moves s sleeping l e h = cc
thread_inside-Moves s ended l e h = cc

call_inside-Moves :
    (s : System) (i : ℕ) (w : Wc) (l : Lock) → s.calls i ≡ w → call_inside w l ≡ true → Moves s
call_inside-Moves s i Wc.idle l e h = cc
call_inside-Moves s i clearing l e h = cc
call_inside-Moves s i (Wc.wants m) l e h = cc
call_inside-Moves s i (Wc.holds m) l e h = (_, call_store i m e, tt)
call_inside-Moves s i (Wc.leaves m) l e h = (_, call_release i m e, tt)

show_inside-Moves :
    (s : System) (i : ℕ) (p : Rc) (l : Lock)
    → (s.readers i).place ≡ p
    → show_inside p l ≡ true
    → Moves s
show_inside-Moves s i Rc.idle l e h = cc
show_inside-Moves s i reading l e h = cc
show_inside-Moves s i (Rc.wants m) l e h = cc
show_inside-Moves s i (Rc.holds m) l e h = (_, show_load i m e, tt)
show_inside-Moves s i (Rc.leaves m) l e h = (_, show_release i m e, tt)
show_inside-Moves s i printing l e h = cc

Holding-Moves : (s : System) (a : Actor) (l : Lock) → Holding s a l → Moves s
Holding-Moves s demo l h = thread_inside-Moves s s.thread l refl h
Holding-Moves s (call i) l h = call_inside-Moves s i (s.calls i) l refl h
Holding-Moves s (reader i) l h = show_inside-Moves s i (s.readers i).place l refl (ground arith)

-- The readers that share a lock are among the first n.
find_sharing :
    (n : ℕ) (s : System) (l : Lock)
    → ((j : ℕ) → j < n → shares (s.readers j).place l ≡ false)
      ⊎ ((j : ℕ) × (shares (s.readers j).place l ≡ true))
find_sharing zero s l = inl (λ j lt. elim lt [ ])
find_sharing (suc n) s l = elim (Bool-cases (shares (s.readers n).place l)) [
  | inl shared ↦ inr (n, shared)
  | inr alone_there ↦ elim (find_sharing n s l) [
    | inl none_below ↦ inl (λ j lt. elim (Bool-cases (j == n)) [
      | inl last ↦ ground arith
      | inr other ↦ none_below j (ground arith)
    ])
    | inr found ↦ inr found
  ]
]

shares-show_inside : (p : Rc) (l : Lock) → shares p l ≡ true → show_inside p l ≡ true
shares-show_inside p l h = ground arith

-- An actor that wants to write under a lock takes it, or another moves.
wanting-Moves :
    (n : ℕ) (s : System) (l : Lock)
    → OwnersInside s
    → Below n s
    → (at l s.owners ≡ none → Unshared l s → Moves s)
    → Moves s
wanting-Moves n s l v b enter = elim (Option-cases (at l s.owners)) [
  | inl free ↦ elim (find_sharing n s l) [
    | inl nobody ↦ enter free (λ j. elim (dec_lt j n) [
      | yes lt ↦ nobody j lt
      | no ge ↦ ground (arith, b j (omega arith))
    ])
    | inr (j, shared) ↦
        show_inside-Moves s j (s.readers j).place l refl (shares-show_inside _ l shared)
  ]
  | inr (a, owned) ↦ Holding-Moves s a l (v l a owned)
]

module _ (n : ℕ) (s : System) (v : OwnersInside s) (b : Below n s) where
  thread-Moves : (p : Pc) → s.thread ≡ p → 0 < thread_left p → Moves s
  thread-Moves testing e h = absurd (omega arith)
  thread-Moves counting e h = (_, count e, tt)
  thread-Moves (Pc.wants l) e h =
      wanting-Moves n s l v b (λ free open_to. (_, take l e free open_to, tt))
  thread-Moves (Pc.holds l) e h = (_, load l e, tt)
  thread-Moves (has l x) e h = (_, store l x e, tt)
  thread-Moves (Pc.leaves l) e h = (_, release l e, tt)
  thread-Moves sleeping e h = absurd (omega arith)
  thread-Moves ended e h = absurd (omega arith)

  call-Moves : (i : ℕ) (w : Wc) → s.calls i ≡ w → 0 < call_left w → Moves s
  call-Moves i Wc.idle e h = absurd (omega arith)
  call-Moves i clearing e h = (_, call_clear i e, tt)
  call-Moves i (Wc.wants l) e h =
      wanting-Moves n s l v b (λ free open_to. (_, call_take i l e free open_to, tt))
  call-Moves i (Wc.holds l) e h = (_, call_store i l e, tt)
  call-Moves i (Wc.leaves l) e h = (_, call_release i l e, tt)

  reader-Moves : (i : ℕ) (p : Rc) → (s.readers i).place ≡ p → 0 < place_left p → Moves s
  reader-Moves i Rc.idle e h = absurd (omega arith)
  reader-Moves i reading e h = (_, show_atomic i e, tt)
  reader-Moves i (Rc.wants l) e h = elim (Option-cases (at l s.owners)) [
    | inl free ↦ (_, show_take i l e free, tt)
    | inr (a, owned) ↦ Holding-Moves s a l (v l a owned)
  ]
  reader-Moves i (Rc.holds l) e h = (_, show_load i l e, tt)
  reader-Moves i (Rc.leaves l) e h = (_, show_release i l e, tt)
  reader-Moves i printing e h = (_, show_end i e, tt)

-- Where the sum is above 0, one of the parts is.
some_positive :
    {A : Type 0} (weight : A → ℕ) (n : ℕ) (f : ℕ → A)
    → 0 < total weight n f
    → (i : ℕ) × (i < n) × (0 < weight (f i))
unfolding total
some_positive weight zero f h = absurd (omega arith)
some_positive weight (suc n) f h = elim (dec_lt 0 (weight (f n))) [
  | yes here ↦ (n, omega arith, here)
  | no not_here ↦
      let (i, lt, there) = some_positive weight n f (omega arith) in (i, omega arith, there)
]

-- No deadlock: while something is left to do, some actor can do a step of it.
pub no_deadlock : (n : ℕ) {s : System} → Reach s → Below n s → 0 < left n s → Moves s
no_deadlock n {s} r b h =
    let v = Reach-OwnersInside r in
    elim (dec_lt 0 (thread_left s.thread)) [
      | yes busy ↦ thread-Moves n s v b s.thread refl busy
      | no rests ↦ elim (dec_lt 0 (total call_left n s.calls)) [
        | yes busy ↦
            let (i, _, left_i) = some_positive call_left n s.calls busy in
            call-Moves n s v b i (s.calls i) refl left_i
        | no quiet ↦
            let (i, _, left_i) = some_positive reader_left n s.readers (omega arith) in
            reader-Moves n s v b i (s.readers i).place refl left_i
      ]
    ]

weight_zero :
    {A : Type 0} (weight : A → ℕ) (n i : ℕ) (f : ℕ → A)
    → total weight n f ≡ 0
    → i < n
    → weight (f i) ≡ 0
unfolding total
weight_zero weight zero i f h lt = elim lt [ ]
weight_zero weight (suc n) i f h lt = elim (Bool-cases (i == n)) [
  | inl last ↦ ground arith
  | inr other ↦ weight_zero weight n i f (omega arith) (ground arith)
]

-- The thread is not in a round, and no reset and no read of the proc file is running.
pub record AtRest (s : System) : Type 0 where
  pub thread_rests : thread_left s.thread ≡ 0
  pub calls_rest : (i : ℕ) → s.calls i ≡ Wc.idle
  pub readers_rest : (i : ℕ) → (s.readers i).place ≡ Rc.idle

call_idle : (w : Wc) → call_left w ≡ 0 → w ≡ Wc.idle
call_idle w h = ground arith

place_idle : (p : Rc) → place_left p ≡ 0 → p ≡ Rc.idle
place_idle p h = ground arith

rests : (n : ℕ) (s : System) → Below n s → left n s ≡ 0 → AtRest s
rests n s b e = record {
  thread_rests = omega arith;
  calls_rest = λ i. elim (dec_lt i n) [
    | yes lt ↦ call_idle (s.calls i) (weight_zero call_left n i s.calls (omega arith) lt)
    | no ge ↦ (b i (omega arith)).0
  ];
  readers_rest = λ i. elim (dec_lt i n) [
    | yes lt ↦
        place_idle (s.readers i).place (weight_zero reader_left n i s.readers (omega arith) lt)
    | no ge ↦ (b i (omega arith)).1
  ];
}

work_from :
    (k n : ℕ) {s : System}
    → Reach s
    → Below n s
    → left n s ≡ k
    → (u : System) × WorksTo u k s × AtRest u
work_from zero n {s} r b e = (s, done, rests n s b e)
work_from (suc k) n {s} r b e =
    let (t, st, w) = no_deadlock n r b (omega arith) in
    let (u, rest, quiet) =
      work_from k n (next r st) (Below-Step n st w b) (omega (arith, left-Step n st w b)) in
    (u, more st w rest, quiet)

-- From every state that the module can reach, with any resets and reads of the proc file under way,
-- there is a run in which each of them returns and the thread comes to the end of its round. It takes
-- as many steps as are left: at most 17 for the thread, 13 for a reset and 14 for a read.
pub work_ends :
    (n : ℕ) {s : System}
    → Reach s
    → Below n s
    → (u : System) × WorksTo u (left n s) s × AtRest u × (left n s ≤ 17 + 27 * n)
work_ends n {s} r b =
    let (u, w, quiet) = work_from (left n s) n r b refl in (u, w, quiet, left-le n s)
