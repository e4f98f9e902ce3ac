-- ===== src/SimpleChar/FileSpec.antt =====
-- What the device of tutorial-02/simple_char.c promises: a file of 1024 bytes and open files with a
-- position each. A place has a byte, a position is a natural number, and a seek is over unbounded
-- integers.
pub mod Represents
pub mod Refines
use utsavbalar_linux_kernel.Base.{
  ℕ, zero, suc, ◌+◌, ◌-◌, min, ◌&&◌, Option, none, some, List, [], ◌∷◌, ltb, ◌==◌, if◌then◌else◌,
  pos_part, leb_ℤ, ℤ, pos,
}
use utsavbalar_linux_kernel.Kernel.{einval, enospc, UserAccess}
use utsavbalar_linux_kernel.SimpleChar.{buffer_size}
use utsavbalar_linux_kernel.SimpleChar.Seek.{goal}
use utsavbalar_linux_kernel.SimpleChar.Calls.{
  Call, open_file, release_file, read, write, lseek, pread, pwrite, Outcome, returned,
}

pub record File : Type 0 where
  pub byte : ℕ → ℕ
  pub position : ℕ → ℕ  -- of each open file

abbrev pub empty : File
empty = record { byte = λ _. 0; position = λ _. 0 }

abbrev pub at_fd : (ℕ → ℕ) → ℕ → ℕ → ℕ → ℕ
at_fd f fd p i = if i == fd then p else f i

-- The n bytes from place p on.
abbrev pub range : (ℕ → ℕ) → ℕ → ℕ → List ℕ
range byte p zero = []
range byte p (suc n) = byte p ∷ range byte (p + 1) n

-- The bytes between a position and the end, at most a count.
abbrev pub room : ℕ → ℕ → ℕ
room p count = min (buffer_size - p) count

-- A seek whose goal is in the file goes there, and any other changes nothing.
abbrev pub seek_outcome : ℕ → Option ℤ → ℕ × Outcome
seek_outcome p none = (p, returned einval)
seek_outcome p (some t) =
    if leb_ℤ (pos 0) t && leb_ℤ t (pos buffer_size)
    then (pos_part t, returned t)
    else (p, returned einval)

module _ (k : UserAccess) where
  -- How many bytes of a read or a write get through the copy.
  abbrev pub sent : (ℕ → ℕ) → ℕ → ℕ → ℕ → ℕ
  sent byte to count p = room p count - k.copy_to_user to (range byte p (room p count))

  abbrev pub taken : ℕ → ℕ → ℕ → ℕ
  taken from count p = room p count - (k.copy_from_user from (room p count)).1

  -- The bytes that arrive are the user's; those of the room that fault become 0.
  abbrev pub overwrite : (ℕ → ℕ) → ℕ → ℕ → ℕ → ℕ → ℕ
  overwrite byte from count p i =
      if ltb i p
      then byte i
      else if ltb i (p + taken from count p)
      then k.user_byte (from + (i - p))
      else if ltb i (p + room p count)
      then 0
      else byte i

  abbrev pub read_outcome : (ℕ → ℕ) → ℕ → ℕ → ℕ → Outcome
  read_outcome byte to count p =
      let n = sent byte to count p in record { delivered = range byte p n; ret = pos n }

  abbrev pub write_outcome : ℕ → ℕ → ℕ → Outcome
  write_outcome from count p =
      returned (if room p count == 0 then enospc else pos (taken from count p))

  unfoldable pub spec_call : Call → File → File × Outcome
  spec_call (open_file fd) f = (record f { position = at_fd f.position fd 0 }, returned (pos 0))
  spec_call (release_file fd) f = (f, returned (pos 0))
  spec_call (read fd to count) f =
      let p = f.position fd in
      (
        record f { position = at_fd f.position fd (p + sent f.byte to count p) },
        read_outcome f.byte to count p,
      )
  spec_call (write fd from count) f =
      let p = f.position fd in
      (
        record {
          byte = overwrite f.byte from count p;
          position = at_fd f.position fd (p + taken from count p);
        },
        write_outcome from count p,
      )
  spec_call (lseek fd offset whence) f =
      let (p, outcome) = seek_outcome (f.position fd) (goal (pos (f.position fd)) offset whence) in
      (record f { position = at_fd f.position fd p }, outcome)
  spec_call (pread to count p) f = (f, read_outcome f.byte to count p)
  spec_call (pwrite from count p) f =
      (record f { byte = overwrite f.byte from count p }, write_outcome from count p)

  unfoldable pub spec_calls : List Call → File → File × List Outcome
  spec_calls [] f = (f, [])
  spec_calls (c ∷ cs) f = let (g, o) = spec_call c f in let (h, os) = spec_calls cs g in (h, o ∷ os)
