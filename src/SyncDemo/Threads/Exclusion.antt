-- ===== src/SyncDemo/Threads/Exclusion.antt =====
-- Each counter of tutorial-04/sync_demo.c is changed by one actor at a time, and no update is lost.
use utsavbalar_linux_kernel.Base.{
  ℕ, ◌≡◌, refl, sym, ◌∙◌, subst, ◌≢◌, ◌⊎◌, inl, inr, true, none, some, some-injective, arith,
  Bool-cases, inc32,
}
use utsavbalar_linux_kernel.SyncDemo.Threads.{
  demo, call, Actor, rwsem, Lock, spin, mutex, sem, rwsem, demo, call, at, has, System, Reach,
  reader, shares,
}
use utsavbalar_linux_kernel.SyncDemo.Threads.Locking.{
  inside, call_inside, show_inside, IsFresh, Inv, Reach-Inv,
}

-- An actor is between the taking of a lock and its release.
abbrev pub Inside : System → Actor → Lock → Type 0
Inside s demo l = inside s.thread l ≡ true
Inside s (call i) l = call_inside (s.calls i) l ≡ true
Inside s (reader i) l = show_inside (s.readers i).place l ≡ true

-- A reader of the proc file under the read-write semaphore.
abbrev pub IsSharing : System → Actor → Lock → Type 0
IsSharing s demo l = ⊥
IsSharing s (call i) l = ⊥
IsSharing s (reader i) l = shares (s.readers i).place l ≡ true

-- Who is inside a lock owns it, or shares it while nobody owns it.
owner_of :
    {s : System}
    → Inv s
    → (a : Actor) (l : Lock) → Inside s a l
    → (at l s.owners ≡ some a) ⊎ (IsSharing s a l × (at l s.owners ≡ none))
owner_of v demo l h = inl (v.thread_owns l h)
owner_of v (call i) l h = inl (v.call_owns i l h)
owner_of {s} v (reader i) l h = elim (Bool-cases (shares (s.readers i).place l)) [
  | inl shared ↦ inr (shared, v.shared_free i l shared)
  | inr not_shared ↦ inl (v.reader_owns i l (ground arith))
]

-- In every interleaving of the thread with any number of resets and of readers, two actors inside one
-- lock are one actor, or both are readers that share the read-write semaphore.
pub mutual_exclusion :
    {s : System}
    → Reach s
    → (l : Lock) (a b : Actor) → Inside s a l
    → Inside s b l
    → (a ≡ b) ⊎ (IsSharing s a l × IsSharing s b l)
mutual_exclusion r l a b in_a in_b =
    let v = Reach-Inv r in
    elim (owner_of v a l in_a) [
      | inl of_a ↦ elim (owner_of v b l in_b) [
        | inl of_b ↦ inl (some-injective _ _ (sym of_a ∙ of_b))
        | inr (_, free) ↦ absurd (cc)
      ]
      | inr (share_a, free_a) ↦ elim (owner_of v b l in_b) [
        | inl of_b ↦ absurd (cc)
        | inr (share_b, _) ↦ inr (share_a, share_b)
      ]
    ]

-- No update is lost: when the thread is about to store into a counter that it increments, its value
-- is one more than that counter is now, whatever resets ran since it loaded.
pub no_lost_update :
    {s : System}
    → Reach s
    → (l : Lock) (v : ℕ) → l ≢ rwsem
    → s.thread ≡ has l v
    → v ≡ inc32 (at l s.values)
no_lost_update {s} r spin v other e = subst (IsFresh s) e (Reach-Inv r).fresh
no_lost_update {s} r mutex v other e = subst (IsFresh s) e (Reach-Inv r).fresh
no_lost_update {s} r sem v other e = subst (IsFresh s) e (Reach-Inv r).fresh
no_lost_update r rwsem v other e = absurd (other refl)
