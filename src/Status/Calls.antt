-- ===== src/Status/Calls.antt =====
-- The tables `sync_fops` (tutorial-04/sync_demo.c) and `irq_fops` (tutorial-05/irq_demo.c) as the
-- kernel calls them on open files, and the file that such a device stands for.
pub mod Refines
use utsavbalar_linux_kernel.Base.{
  ℕ, ◌+◌, ◌==◌, if◌then◌else◌, Option, none, some, List, [], ◌∷◌, take, drop, ℤ, pos,
}
use utsavbalar_linux_kernel.Kernel.{UserAccess}
use utsavbalar_linux_kernel.Status.{StatusResult, shown}
use mathlib.Core.Option

-- A table over what the driver keeps besides its buffer. A write has the time at which it runs.
pub record Table (S : Type 0) : Type 0 where
  pub open_handler : ℤ
  pub release_handler : ℤ
  pub read_handler : UserAccess → S → List ℕ → ℕ → ℕ → ℤ → Option StatusResult
  pub write_handler : UserAccess → ℕ → S → ℕ → ℕ → S × ℤ

-- `others` is what a thread or an interrupt does between two calls.
pub data Call (S : Type 0) : Type 0 where
  open_file release_file : (fd : ℕ) → Call S
  read : (fd to count : ℕ) → Call S
  pread : (to count position : ℕ) → Call S
  write : (now from count : ℕ) → Call S
  others : (S → S) → Call S

-- The return value, with the bytes that reached user memory.
pub record Outcome : Type 0 where
  pub delivered : List ℕ
  pub ret : ℤ

pub record State (S : Type 0) : Type 0 where
  pub kept : S
  pub device_buffer : List ℕ
  pub f_pos : ℕ → ℤ

module _ {A : Type 0} where
  abbrev pub put_at : (ℕ → A) → ℕ → A → ℕ → A
  put_at f i a j = if j == i then a else f j

abbrev pub returned : ℤ → Outcome
returned ret = record { delivered = []; ret = ret }

module _ {S : Type 0} where
  -- The state after a read that leaves the positions so.
  abbrev pub read_into : State S → (ℕ → ℤ) → StatusResult → State S × Outcome
  read_into s f_pos r = (
    record { kept = s.kept; device_buffer = r.device_buffer; f_pos = f_pos },
    record { delivered = r.delivered; ret = r.ret },
  )

  -- The kernel opens a file at position 0, hands `&file->f_pos` to `read`, and for `pread` a position
  -- of the caller's choice. The write handlers leave the position alone.
  unfoldable pub call : Table S → UserAccess → Call S → State S → Option (State S × Outcome)
  call h k (open_file fd) s =
      some (record s { f_pos = put_at s.f_pos fd (pos 0) }, returned h.open_handler)
  call h k (release_file fd) s = some (s, returned h.release_handler)
  call h k (read fd to count) s =
      Option.map (λ (r : StatusResult). read_into s (put_at s.f_pos fd r.offset) r)
        (h.read_handler k s.kept s.device_buffer to count (s.f_pos fd))
  call h k (pread to count position) s =
      Option.map (λ (r : StatusResult). read_into s s.f_pos r)
        (h.read_handler k s.kept s.device_buffer to count (pos position))
  call h k (write now from count) s =
      let (kept, ret) = h.write_handler k now s.kept from count in
      some (record s { kept = kept }, returned ret)
  call h k (others f) s = some (record s { kept = f s.kept }, returned (pos 0))

  -- A sequence of calls, with the outcome of each; `none` if one of them leaves the buffer.
  unfoldable pub run_calls :
      Table S → UserAccess → List (Call S) → State S → Option (State S × List Outcome)
  run_calls h k [] s = some (s, [])
  run_calls h k (c ∷ cs) s = elim (call h k c s) [
    | none ↦ none
    | some (t, o) ↦ Option.map (λ (e : State S × List Outcome). (e.0, o ∷ e.1)) (run_calls h k cs t)
  ]

-- The file has no buffer: its content is the status text of the moment.
pub record File (S : Type 0) : Type 0 where
  pub kept : S
  pub at : ℕ → ℕ

module _ {S : Type 0} (text : S → List ℕ) where
  -- A read at o of the file.
  abbrev pub spec_read : UserAccess → S → ℕ → ℕ → ℕ → Outcome
  spec_read k s to count o =
      let n = shown k (text s) to count o in
      record { delivered = take n (drop o (text s)); ret = pos n }

  abbrev pub spec_call : Table S → UserAccess → Call S → File S → File S × Outcome
  spec_call h k (open_file fd) f = (record f { at = put_at f.at fd 0 }, returned h.open_handler)
  spec_call h k (release_file fd) f = (f, returned h.release_handler)
  spec_call h k (read fd to count) f =
      let o = f.at fd in
      (
        record f { at = put_at f.at fd (o + shown k (text f.kept) to count o) },
        spec_read k f.kept to count o,
      )
  spec_call h k (pread to count position) f = (f, spec_read k f.kept to count position)
  spec_call h k (write now from count) f =
      let (kept, ret) = h.write_handler k now f.kept from count in
      (record f { kept = kept }, returned ret)
  spec_call h k (others g) f = (record f { kept = g f.kept }, returned (pos 0))

  abbrev pub spec_calls : Table S → UserAccess → List (Call S) → File S → File S × List Outcome
  spec_calls h k [] f = (f, [])
  spec_calls h k (c ∷ cs) f =
      let (g, o) = spec_call h k c f in let (g', os) = spec_calls h k cs g in (g', o ∷ os)
