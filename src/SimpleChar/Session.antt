-- ===== src/SimpleChar/Session.antt =====
-- The open files of the device: every sequence of calls, with any counts, seeks and faults.
use utsavbalar_linux_kernel.Base.{
  ◌≤◌, ◌≡◌, sym, ◌∙◌, subst, ◌≢◌, inl, inr, none, some, some-injective, arith, ◌==◌, if◌then◌else◌,
  Bool-cases, length, replicate, length-replicate, ◌≤ℤ◌, negsuc,
}
use utsavbalar_linux_kernel.Kernel.{IsUserAccess}
use utsavbalar_linux_kernel.SimpleChar.{
  buffer_size, Whence, ReadResult, WriteResult, char_read, char_write, char_llseek, ℕ, List,
  UserAccess, ℤ, pos,
}
use utsavbalar_linux_kernel.SimpleChar.Bounds.{
  moved, char_read_lem, char_write_lem, char_write_full,
}
use utsavbalar_linux_kernel.SimpleChar.Contents.{length-written}
use utsavbalar_linux_kernel.SimpleChar.Seek.{IsLoff, char_llseek_lem}

pub record State : Type 0 where
  pub device_buffer : List ℕ
  pub f_pos : ℕ → ℤ  -- of each open file

abbrev pub update : (ℕ → ℤ) → ℕ → ℤ → ℕ → ℤ
update f fd z i = if i == fd then z else f i

-- One system call that returns. `read` and `write` hand `&file->f_pos` to the handler; `pread` and
-- `pwrite` hand it a position of the caller's choice and leave `f_pos` alone.
pub data Step (k : UserAccess) (s : State) : State → Type 0 where
  open_file : (fd : ℕ) → Step k s (record s { f_pos = update s.f_pos fd (pos 0) })
  read :
      (fd to count : ℕ) {r : ReadResult}
      → char_read k s.device_buffer to count (s.f_pos fd) ≡ some r
      → Step k s (record s { f_pos = update s.f_pos fd r.offset })
  write :
      (fd from count : ℕ) {r : WriteResult}
      → char_write k s.device_buffer from count (s.f_pos fd) ≡ some r
      → Step k s (record { device_buffer = r.device_buffer; f_pos = update s.f_pos fd r.offset })
  lseek :
      (fd : ℕ) (offset : ℤ) (whence : Whence)
      → IsLoff offset
      → Step k s (record s { f_pos = update s.f_pos fd (char_llseek (s.f_pos fd) offset whence).0 })
  pread : Step k s s
  pwrite :
      (from count position : ℕ) {r : WriteResult}
      → position ≤ buffer_size
      → char_write k s.device_buffer from count (pos position) ≡ some r
      → Step k s (record s { device_buffer = r.device_buffer })

-- `simple_char_init` clears the buffer; no file is open before.
abbrev pub start : State
start = record { device_buffer = replicate buffer_size 0; f_pos = λ _. pos 0 }

pub data Reach (k : UserAccess) : State → Type 0 where
  here : Reach k start
  next : {s t : State} → Reach k s → Step k s t → Reach k t

abbrev pub InFile : ℤ → Type 0
InFile z = (pos 0 ≤ℤ z) × (z ≤ℤ pos buffer_size)

pub record IsValid (s : State) : Type 0 where
  pub whole : length s.device_buffer ≡ buffer_size
  pub in_file : (fd : ℕ) → InFile (s.f_pos fd)

module _ (k : UserAccess) (lawful : IsUserAccess k) where
  -- A read at a position in the file succeeds and ends at one.
  read-InFile :
      (device_buffer : List ℕ) (to count : ℕ) (z : ℤ)
      → length device_buffer ≡ buffer_size
      → InFile z
      → (r : ReadResult) × (char_read k device_buffer to count z ≡ some r) × InFile r.offset
  read-InFile device_buffer to count (pos o) len h =
      (_, char_read_lem k device_buffer to count o len (omega arith), omega arith)
  read-InFile device_buffer to count (negsuc n) len h = absurd (omega arith)

  write-InFile :
      (device_buffer : List ℕ) (from count : ℕ) (z : ℤ)
      → length device_buffer ≡ buffer_size
      → InFile z
      → (r : WriteResult) × (char_write k device_buffer from count z ≡ some r)
        × InFile r.offset
        × (length r.device_buffer ≡ buffer_size)
  write-InFile device_buffer from count (pos o) len h = elim (Bool-cases (moved o count == 0)) [
    | inl full ↦ (
      _,
      char_write_full k device_buffer from count o (omega arith) (ground arith),
      omega arith,
      len,
    )
    | inr room ↦ (
      _,
      char_write_lem k lawful device_buffer from count o len (ground arith) (ground arith),
      omega arith,
      length-written k lawful device_buffer from count o len (omega arith),
    )
  ]
  write-InFile device_buffer from count (negsuc n) len h = absurd (omega arith)

  seek-InFile :
      (z offset : ℤ) (whence : Whence)
      → IsLoff offset
      → InFile z
      → InFile (char_llseek z offset whence).0
  seek-InFile (pos o) offset whence range h =
      ground (arith, char_llseek_lem o offset whence (omega arith) range)
  seek-InFile (negsuc n) offset whence range h = absurd (omega arith)

  update-InFile :
      (f : ℕ → ℤ) (fd : ℕ) (z : ℤ)
      → ((i : ℕ) → InFile (f i))
      → InFile z
      → (i : ℕ) → InFile (update f fd z i)
  update-InFile f fd z all h i = elim (Bool-cases (i == fd)) [
    | inl e ↦ rw e h
    | inr e ↦ rw e (all i)
  ]

  -- The two facts about a result, for the result that a step names.
  abbrev Kept : WriteResult → Type 0
  Kept r = InFile r.offset × (length r.device_buffer ≡ buffer_size)

  pub Step-IsValid : {s t : State} → Step k s t → IsValid s → IsValid t
  Step-IsValid {s} (open_file fd) v = record {
    whole = v.whole;
    in_file = update-InFile s.f_pos fd (pos 0) v.in_file (omega arith);
  }
  Step-IsValid {s} (read fd to count {r = r} e) v =
      let f = read-InFile s.device_buffer to count (s.f_pos fd) v.whole (v.in_file fd) in
      let h : InFile r.offset =
        subst (λ (x : ReadResult). InFile x.offset) (some-injective _ _ (sym f.1 ∙ e)) f.2 in
      record { whole = v.whole; in_file = update-InFile s.f_pos fd r.offset v.in_file h }
  Step-IsValid {s} (write fd from count {r = r} e) v =
      let f = write-InFile s.device_buffer from count (s.f_pos fd) v.whole (v.in_file fd) in
      let h : Kept r = subst Kept (some-injective _ _ (sym f.1 ∙ e)) (f.2, f.3) in
      record { whole = h.1; in_file = update-InFile s.f_pos fd r.offset v.in_file h.0 }
  Step-IsValid {s} (lseek fd offset whence range) v = record {
    whole = v.whole;
    in_file =
        update-InFile s.f_pos fd (char_llseek (s.f_pos fd) offset whence).0 v.in_file
          (seek-InFile (s.f_pos fd) offset whence range (v.in_file fd));
  }
  Step-IsValid pread v = v
  Step-IsValid {s} (pwrite from count position {r = r} h e) v =
      let f = write-InFile s.device_buffer from count (pos position) v.whole (omega arith) in
      record {
        whole = (subst Kept (some-injective _ _ (sym f.1 ∙ e)) (f.2, f.3)).1;
        in_file = v.in_file;
      }

  pub Reach-IsValid : {s : State} → Reach k s → IsValid s
  Reach-IsValid here = record {
    whole = length-replicate {A = ℕ} buffer_size 0;
    in_file = λ _. omega arith;
  }
  Reach-IsValid (next r st) = Step-IsValid st (Reach-IsValid r)

  -- However the open files have been read, written and moved, by calls that fault or not, no read
  -- and no write at the position of a file leaves the buffer, and its position stays from 0 to the
  -- size of the buffer.
  pub Reach-safe :
      {s : State}
      → Reach k s
      → (fd user_buffer count : ℕ)
      → InFile (s.f_pos fd)
        × (char_read k s.device_buffer user_buffer count (s.f_pos fd) ≢ none)
        × (char_write k s.device_buffer user_buffer count (s.f_pos fd) ≢ none)
  Reach-safe {s} reach fd user_buffer count =
      let v = Reach-IsValid reach in
      let r = read-InFile s.device_buffer user_buffer count (s.f_pos fd) v.whole (v.in_file fd) in
      let w = write-InFile s.device_buffer user_buffer count (s.f_pos fd) v.whole (v.in_file fd) in
      (v.in_file fd, cc r.1, cc w.1)
