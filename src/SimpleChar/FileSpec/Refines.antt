-- ===== src/SimpleChar/FileSpec/Refines.antt =====
-- The handlers of tutorial-02/simple_char.c implement the file of SimpleChar/FileSpec.
use utsavbalar_linux_kernel.Base.{
  ℕ, zero, suc, ◌+◌, ◌≤◌, ◌≡◌, refl, Option, none, some, List, [], ◌∷◌, arith, get_or, replicate,
  length-replicate, pos,
}
use utsavbalar_linux_kernel.Kernel.{UserAccess, IsUserAccess}
use utsavbalar_linux_kernel.SimpleChar.{buffer_size, char_open, char_release}
use utsavbalar_linux_kernel.SimpleChar.Seek.{IsLoff, goal}
use utsavbalar_linux_kernel.SimpleChar.Session.{State, update, start}
use utsavbalar_linux_kernel.SimpleChar.Calls.{
  Call, lseek, pread, pwrite, open_file, release_file, read, write, Outcome, simple_fops, run_calls,
}
use utsavbalar_linux_kernel.SimpleChar.FileSpec.{
  File, sent, seek_outcome, at_fd, taken, spec_call, empty, spec_calls,
}
use utsavbalar_linux_kernel.SimpleChar.FileSpec.Represents.{
  Repr, read_refines, write_refines, seek_refines,
}

-- Calls with the arguments that a process can pass: a 64-bit offset, and a position of `pread` and
-- `pwrite` in the file.
abbrev pub IsInside : Call → Type 0
IsInside (lseek fd offset whence) = IsLoff offset
IsInside (pread to count position) = position ≤ buffer_size
IsInside (pwrite from count position) = position ≤ buffer_size
IsInside _ = Unit

same_positions-update :
    (s : State) (f : File) (fd q : ℕ)
    → Repr s f
    → (i : ℕ) → update s.f_pos fd (pos q) i ≡ pos (at_fd f.position fd q i)
same_positions-update s f fd q r i = ground (arith, r.same_positions i)

in_file-at_fd :
    (s : State) (f : File) (fd q : ℕ)
    → Repr s f
    → q ≤ buffer_size
    → (i : ℕ) → at_fd f.position fd q i ≤ buffer_size
in_file-at_fd s f fd q r h i = ground (arith, r.in_file i)

-- The same place moves in both.
moved-Repr :
    (s : State) (f : File) (fd q : ℕ)
    → Repr s f
    → q ≤ buffer_size
    → Repr
        (record s { f_pos = update s.f_pos fd (pos q) })
        (record f { position = at_fd f.position fd q })
moved-Repr s f fd q r h = record {
  whole = r.whole;
  same_bytes = r.same_bytes;
  same_positions = same_positions-update s f fd q r;
  in_file = in_file-at_fd s f fd q r h;
}

-- What a call must do to implement the file: end without leaving the buffer, with the file's
-- outcome, in a state that represents the file's.
abbrev pub Implements : Option (State × Outcome) → File × Outcome → Type 0
Implements none _ = ⊥
Implements (some (t, o)) (g, p) = (o ≡ p) × Repr t g

Implements-some :
    (x : Option (State × Outcome)) (g : File) (p : Outcome)
    → Implements x (g, p)
    → (t : State) × (x ≡ some (t, p)) × Repr t g
Implements-some none g p h = elim h [ ]
Implements-some (some (t, o)) g p h = (t, ground (arith, h.0), h.1)

module _ (k : UserAccess) (lawful : IsUserAccess k) where
  pub simple_fops-Implements :
      (c : Call) (s : State) (f : File)
      → IsInside c
      → Repr s f
      → Implements (simple_fops k c s) (spec_call k c f)
  unfolding simple_fops spec_call char_open char_release
  simple_fops-Implements (open_file fd) s f in_range r = (refl, moved-Repr s f fd 0 r (omega arith))
  simple_fops-Implements (release_file fd) s f in_range r = (refl, r)
  simple_fops-Implements (read fd to count) s f in_range r =
      let p = f.position fd in
      let n = sent k f.byte to count p in
      rw (r.same_positions fd, read_refines k lawful s f to count p r (r.in_file fd))
        (refl, moved-Repr s f fd (p + n) r (omega (arith, r.in_file fd)))
  simple_fops-Implements (write fd from count) s f in_range r =
      let p = f.position fd in
      let q = p + taken k from count p in
      let (w, done, written) = write_refines k lawful s f from count p r (r.in_file fd) in
      rw (r.same_positions fd, done)
        (
          ground (arith, written.ret),
          record {
            whole = written.whole;
            same_bytes = written.bytes;
            same_positions = rw written.offset (same_positions-update s f fd q r);
            in_file = in_file-at_fd s f fd q r (omega (arith, r.in_file fd));
          },
        )
  simple_fops-Implements (lseek fd offset whence) s f in_range r =
      let p = f.position fd in
      let q = (seek_outcome p (goal (pos p) offset whence)).0 in
      let (at, quiet, inside) = seek_refines k lawful p offset whence (r.in_file fd) in_range in
      rw (r.same_positions fd, at) (ground (arith, quiet), moved-Repr s f fd q r inside)
  simple_fops-Implements (pread to count p) s f in_range r =
      rw (read_refines k lawful s f to count p r in_range) (refl, r)
  simple_fops-Implements (pwrite from count p) s f in_range r =
      let (w, done, written) = write_refines k lawful s f from count p r in_range in
      rw done (
        ground (arith, written.ret),
        record {
          whole = written.whole;
          same_bytes = written.bytes;
          same_positions = r.same_positions;
          in_file = r.in_file;
        },
      )

abbrev pub AllInside : List Call → Type 0
AllInside [] = Unit
AllInside (c ∷ cs) = IsInside c × AllInside cs

get_or-replicate : (n i : ℕ) → get_or (replicate {A = ℕ} n 0) i 0 ≡ 0
get_or-replicate zero i = refl
get_or-replicate (suc n) zero = refl
get_or-replicate (suc n) (suc i) = get_or-replicate n i

pub Repr-start : Repr start empty
Repr-start = record {
  whole = length-replicate {A = ℕ} buffer_size 0;
  same_bytes = λ i lt. get_or-replicate buffer_size i;
  same_positions = λ fd. refl;
  in_file = λ fd. omega arith;
}

module _ (k : UserAccess) (lawful : IsUserAccess k) where
  run_calls_cons :
      (c : Call) (cs : List Call) (s t u : State) (o : Outcome) (os : List Outcome)
      → simple_fops k c s ≡ some (t, o)
      → run_calls k cs t ≡ some (u, os)
      → run_calls k (c ∷ cs) s ≡ some (u, o ∷ os)
  unfolding run_calls
  run_calls_cons c cs s t u o os one others = ground (arith, one, others)

  calls_from :
      (cs : List Call) (s : State) (f : File)
      → AllInside cs
      → Repr s f
      → let (g, os) = spec_calls k cs f in
        (t : State) × (run_calls k cs s ≡ some (t, os)) × Repr t g
  unfolding run_calls spec_calls
  calls_from [] s f inside r = (s, refl, r)
  calls_from (c ∷ cs) s f inside r =
      let (g, o) = spec_call k c f in
      let (t, one, rt) =
        Implements-some (simple_fops k c s) g o
          (simple_fops-Implements k lawful c s f inside.0 r) in
      let (u, others, ru) = calls_from cs t g inside.1 rt in
      (u, run_calls_cons c cs s t u o (spec_calls k cs g).1 one others, ru)

  -- Any sequence of calls on the loaded module, by any processes, on any open files, with any counts
  -- and faults, and with positions of `pread` and `pwrite` inside the buffer, runs to its end. Each
  -- call has the outcome of the same call on a file of 1024 bytes, and what the buffer and the
  -- positions are then is that file.
  pub run_calls-spec_calls :
      (cs : List Call)
      → AllInside cs
      → let (g, os) = spec_calls k cs empty in
        (t : State) × (run_calls k cs start ≡ some (t, os)) × Repr t g
  run_calls-spec_calls cs inside = calls_from cs start empty inside Repr-start
