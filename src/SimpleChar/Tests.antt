-- ===== src/SimpleChar/Tests.antt =====
-- The handlers of tutorial-02/simple_char.c at concrete inputs.
use utsavbalar_linux_kernel.Base.{
  ◌+◌, length, ltb, if◌then◌else◌, ◌-◌, ℕ, ◌-◌, ◌^◌, ◌≡◌, refl, ◌≢◌, true, none, some, List, [],
  ◌∷◌, ◌++◌, arith, get_or, replicate, ◌+ℤ◌, ◌-ℤ◌, is_neg, pos, negsuc,
}
use utsavbalar_linux_kernel.Kernel.{einval, ptr, user_bytes, store_at, settle}
use utsavbalar_linux_kernel.SimpleChar.FileSpec.Refines.{run_calls-spec_calls}
use utsavbalar_linux_kernel.SimpleChar.FileSpec.Represents.{Repr}
use utsavbalar_linux_kernel.SimpleChar.FileSpec.{empty, spec_calls, spec_call}
use utsavbalar_linux_kernel.SimpleChar.Calls.{
  Call, open_file, release_file, write, read, run_calls, returned,
}
use utsavbalar_linux_kernel.Kernel.Sample.{cells, limited, limited-IsUserAccess, limited_bytes}
use utsavbalar_linux_kernel.SimpleChar.{
  buffer_size, char_read, char_write, char_llseek, seek_set, seek_cur, seek_end, bytes_to_move,
  WriteResult,
}
use utsavbalar_linux_kernel.SimpleChar.Bounds.{char_read_lem, char_read_beyond, char_write_beyond}
use utsavbalar_linux_kernel.SimpleChar.Contents.{
  char_read-char_write, char_write_bytes, write_seek_read,
}
use utsavbalar_linux_kernel.SimpleChar.Seek.{char_llseek_lem}
use utsavbalar_linux_kernel.SimpleChar.Drain.{drain, drain_all}
use utsavbalar_linux_kernel.SimpleChar.Session.{
  State, start, Reach, here, next, lseek, InFile, Reach-safe, update,
}
use utsavbalar_linux_kernel.SimpleChar.Setup.{
  Answers, Globals, simple_char_init, simple_char_exit, simple_char_init_lem,
  simple_char_exit-simple_char_init,
}

abbrev zeros : List ℕ
zeros = replicate buffer_size 0

-- A write of five bytes over sevens, of which three arrive: the other two bytes become zeros.
abbrev sevens : List ℕ
sevens = replicate buffer_size 7

abbrev short : WriteResult
short = record {
  device_buffer = 7 ∷ 65 ∷ 66 ∷ 67 ∷ 0 ∷ 0 ∷ replicate 1018 7;
  offset = pos 4;
  ret = pos 3;
}

short_write : char_write (limited 3) sevens 65 5 (pos 1) ≡ some short
unfolding char_write bytes_to_move ◌-ℤ◌ ◌+ℤ◌ store_at limited_bytes
short_write = refl

read_near_end :
    char_read (limited 3) sevens 0 5 (pos 1022)
    ≡ some (record { delivered = 7 ∷ 7 ∷ []; offset = pos 1024; ret = pos 2 })
read_near_end = char_read_lem (limited 3) sevens 0 5 1022 refl (omega arith)

char_read_beyond_example : char_read (limited 3) sevens 0 1 (pos 1025) ≡ none
char_read_beyond_example =
    char_read_beyond (limited 3) sevens 0 1 1025 refl (omega arith) (omega arith) (omega arith)
      (omega arith)

char_write_beyond_example : char_write (limited 3) sevens 65 5 (pos 4096) ≡ none
char_write_beyond_example =
    char_write_beyond (limited 3) (limited-IsUserAccess 3) sevens 65 5 4096 refl (omega arith)
      (omega arith) (omega arith) (omega arith)

char_read-char_write_example :
    write_seek_read (limited 2000) (limited-IsUserAccess 2000) sevens 65 0 3 1022
    ≡ some (record { delivered = 65 ∷ 66 ∷ []; offset = pos 1024; ret = pos 2 })
unfolding user_bytes
char_read-char_write_example =
    char_read-char_write (limited 2000) (limited-IsUserAccess 2000) sevens 65 0 3 1022 refl
      (omega arith) (omega arith) refl refl

char_write_bytes_example :
    (r : WriteResult) × (char_write (limited 3) sevens 65 5 (pos 1) ≡ some r)
    × (r.ret ≡ pos 3)
    × (r.offset ≡ pos 4)
    × (length r.device_buffer ≡ 1024)
    × ((i : ℕ)
        → get_or r.device_buffer i 0 ≡ (
            if ltb i 1
            then get_or sevens i 0
            else if ltb i 4
            then (limited 3).user_byte (65 + (i - 1))
            else if ltb i 6
            then 0
            else get_or sevens i 0))
char_write_bytes_example =
    char_write_bytes (limited 3) (limited-IsUserAccess 3) sevens 65 5 1 refl (omega arith)

char_llseek_lem_example : char_llseek (pos 10) (negsuc 4) seek_end ≡ (pos 1019, pos 1019)
unfolding ◌+ℤ◌
char_llseek_lem_example =
    char_llseek_lem 10 (negsuc 4) seek_end (omega arith) (omega arith, omega arith)

-- A seek whose sum does not fit in 64 bits.
char_llseek_overflow : char_llseek (pos 10) (pos (2 ^ 63 - 1)) seek_cur ≡ (pos 10, einval)
unfolding char_llseek ◌+ℤ◌
char_llseek_overflow = refl

drain_all_example : drain cells sevens 0 3 5 (pos 1020) ≡ some (7 ∷ 7 ∷ 7 ∷ 7 ∷ [])
drain_all_example =
    drain_all cells sevens 0 3 5 1020 refl (omega arith) (omega arith) (λ bytes. refl) (omega arith)

moved_file :
    Reach
      (limited 3)
      (record start { f_pos = update start.f_pos 4 (char_llseek (pos 0) (pos 1000) seek_set).0 })
moved_file = next here (lseek 4 (pos 1000) seek_set (omega arith, omega arith))

abbrev sought : State
sought = record start { f_pos = update start.f_pos 4 (char_llseek (pos 0) (pos 1000) seek_set).0 }

Reach-safe_example :
    InFile (char_llseek (pos 0) (pos 1000) seek_set).0
    × (char_read (limited 3) sought.device_buffer 0 100 (sought.f_pos 4) ≢ none)
    × (char_write (limited 3) sought.device_buffer 0 100 (sought.f_pos 4) ≢ none)
Reach-safe_example = Reach-safe (limited 3) (limited-IsUserAccess 3) moved_file 4 0 100

abbrev granted : Answers
granted = record {
  register_chrdev = pos 240;
  class_create = ptr 17;
  device_create = ptr 18;
  cdev_add = pos 0;
}

abbrev unloaded : Globals
unloaded = record {
  major_number = pos 0;
  simple_class = ptr 0;
  simple_device = ptr 0;
  device_buffer = sevens;
}

simple_char_init_lem_example :
    (is_neg (simple_char_init (record granted { cdev_add = negsuc 15 }) unloaded).ret ≡ true)
    × (settle (simple_char_init (record granted { cdev_add = negsuc 15 }) unloaded).events []
        ≡ some [])
simple_char_init_lem_example =
    simple_char_init_lem (record granted { cdev_add = negsuc 15 }) unloaded

simple_char_exit-simple_char_init_example :
    settle
      ((simple_char_init granted unloaded).events
        ++ (simple_char_exit (simple_char_init granted unloaded).state).events)
      []
    ≡ some []
unfolding simple_char_init
simple_char_exit-simple_char_init_example = simple_char_exit-simple_char_init granted unloaded refl

-- Five bytes are written where three get through, and read back.
abbrev session : List Call
session =
    open_file 4 ∷ write 4 65 5 ∷ Call.lseek 4 (pos 0) seek_set ∷ read 4 0 100 ∷ release_file 4 ∷ []

run_calls-spec_calls_example :
    let k = limited 3 in
    (t : State) × (run_calls k session start
      ≡ some (
        t,
        returned (pos 0)
            ∷ returned (pos 3)
            ∷ returned (pos 0)
            ∷ record { delivered = 65 ∷ 66 ∷ 67 ∷ []; ret = pos 3 }
            ∷ returned (pos 0)
            ∷ [],
      ))
    × Repr t (spec_calls k session empty).0
unfolding spec_calls spec_call limited_bytes
run_calls-spec_calls_example =
    run_calls-spec_calls (limited 3) (limited-IsUserAccess 3) session
      (tt, (tt, ((omega arith, omega arith), (tt, (tt, tt)))))
