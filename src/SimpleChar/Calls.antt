-- ===== src/SimpleChar/Calls.antt =====
-- `simple_fops` of tutorial-02/simple_char.c as a function: what each call of a process does to the
-- driver's buffer and to the positions of the open files, and what the process gets.
use utsavbalar_linux_kernel.Base.{ℕ, Option, none, some, List, [], ◌∷◌, ℤ, pos}
use utsavbalar_linux_kernel.Kernel.{UserAccess}
use utsavbalar_linux_kernel.SimpleChar.{
  Whence, ReadResult, WriteResult, char_open, char_release, char_read, char_write, char_llseek,
}
use utsavbalar_linux_kernel.SimpleChar.Session.{State, update}
use mathlib.Core.Option

pub data Call : Type 0 where
  open_file : ℕ → Call
  release_file : ℕ → Call
  read : (fd to count : ℕ) → Call
  write : (fd from count : ℕ) → Call
  lseek : (fd : ℕ) (offset : ℤ) (whence : Whence) → Call
  pread : (to count position : ℕ) → Call
  pwrite : (from count position : ℕ) → Call

-- The return value, with the bytes that reached user memory.
pub record Outcome : Type 0 where
  pub delivered : List ℕ
  pub ret : ℤ

abbrev pub returned : ℤ → Outcome
returned ret = record { delivered = []; ret = ret }

abbrev pub answer : ReadResult → Outcome
answer r = record { delivered = r.delivered; ret = r.ret }

-- The table's handler for a call. The kernel opens a file at position 0, hands `&file->f_pos` to
-- `read` and `write`, and for `pread` and `pwrite` a position of the caller's choice.
unfoldable pub simple_fops : UserAccess → Call → State → Option (State × Outcome)
simple_fops k (open_file fd) s =
    some (record s { f_pos = update s.f_pos fd (pos 0) }, returned char_open)
simple_fops k (release_file fd) s = some (s, returned char_release)
simple_fops k (read fd to count) s =
    Option.map (λ (r : ReadResult). (record s { f_pos = update s.f_pos fd r.offset }, answer r))
      (char_read k s.device_buffer to count (s.f_pos fd))
simple_fops k (write fd from count) s =
    Option.map
      (λ (r : WriteResult). (
        record { device_buffer = r.device_buffer; f_pos = update s.f_pos fd r.offset },
        returned r.ret,
      ))
      (char_write k s.device_buffer from count (s.f_pos fd))
simple_fops k (lseek fd offset whence) s =
    let (f_pos, ret) = char_llseek (s.f_pos fd) offset whence in
    some (record s { f_pos = update s.f_pos fd f_pos }, returned ret)
simple_fops k (pread to count position) s =
    Option.map (λ (r : ReadResult). (s, answer r))
      (char_read k s.device_buffer to count (pos position))
simple_fops k (pwrite from count position) s =
    Option.map (λ (r : WriteResult). (record s { device_buffer = r.device_buffer }, returned r.ret))
      (char_write k s.device_buffer from count (pos position))

-- A sequence of calls, with the outcome of each; `none` if one of them leaves the buffer.
unfoldable pub run_calls : UserAccess → List Call → State → Option (State × List Outcome)
run_calls k [] s = some (s, [])
run_calls k (c ∷ cs) s = elim (simple_fops k c s) [
  | none ↦ none
  | some (t, o) ↦ Option.map (λ (e : State × List Outcome). (e.0, o ∷ e.1)) (run_calls k cs t)
]
