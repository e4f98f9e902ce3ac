-- ===== src/TestSync/Tests.antt =====
-- The test program over the driver alone: a file layer that hands each call to the handlers, and a
-- thread that makes one round in each pause.
use utsavbalar_linux_kernel.Base.{
  ℕ, ◌≡◌, refl, none, some, Option, ap, subst, sym, List, [], arith, length, replicate, ℤ, pos,
  negsuc,
}
use utsavbalar_linux_kernel.Kernel.Sample.{memory_of, memory_of-IsUserAccess}
use utsavbalar_linux_kernel.Process.{Syscalls}
use utsavbalar_linux_kernel.Status.{StatusResult}
use utsavbalar_linux_kernel.TestStatus.{Around}
use utsavbalar_linux_kernel.SyncDemo.{
  Counters, all_equal_to, demo_thread_round, status, sync_demo_read, sync_demo_write,
}
use utsavbalar_linux_kernel.TestSync.{main}
use utsavbalar_linux_kernel.TestSync.OverDriver.{
  Rounds, no_round, one_round, IsSyncDevice, ShowEqual, texts_of, main_lem,
}
use mathlib.Core.Option

record World : Type 0 where
  counters : Counters
  position : ℤ

abbrev blank : List ℕ
blank = replicate 1024 0

-- What the result of the handler is to the program; a program cannot go on after `none`.
abbrev read_as : Option StatusResult → World → (ℤ × List ℕ) × World
read_as none w = ((negsuc 0, []), w)
read_as (some r) w = ((r.ret, r.delivered), record w { position = r.offset })

abbrev device : Syscalls World
device = record {
  sys_open = λ m w. (pos 3, record w { position = pos 0 });
  sys_lseek = λ fd offset w. (offset, w);
  sys_read = λ fd n w. read_as (sync_demo_read (memory_of []) w.counters blank 0 n w.position) w;
  sys_write = λ fd bytes w.
      let (c, ret) = sync_demo_write (memory_of bytes) w.counters 0 (length bytes) in
      (ret, record w { counters = c });
  sys_close = λ fd w. (tt, w);
}

abbrev around : Around World
around = record {
  proc_lines = λ w. (some [], w);
  pause = λ n w. (tt, record w { counters = demo_thread_round w.counters });
}

device-IsSyncDevice : IsSyncDevice device around
device-IsSyncDevice = record {
  counters = λ w. w.counters;
  device_buffer = λ w. blank;
  position = λ w. w.position;
  memory = memory_of;
  memory-IsUserAccess = λ bytes. memory_of-IsUserAccess bytes;
  holds = λ bytes i. refl;
  no_fault_in = λ bytes n h. omega arith;
  no_fault_out = λ bytes sent. refl;
  size = λ w. refl;
  opens = λ m w. (refl, refl, no_round w.counters);
  reads = λ fd n w r e. (
    ap (λ o. (read_as o w).0) e,
    subst (λ o. Rounds w.counters (read_as o w).1.counters) (sym e) (no_round w.counters),
  );
  writes = λ fd bytes w. (refl, no_round _);
  closes = λ fd w. no_round w.counters;
  shows = λ w. no_round w.counters;
  pauses = λ n w. one_round w.counters _ (no_round _);
}

-- Counters that have drifted apart.
abbrev drifted : World
drifted = record {
  counters = record { atomic_counter = 9; value0 = 9; value1 = 8; value2 = 7; value3 = 9 };
  position = pos 0;
}

main_lem_example :
    let result = (main device around (some b'y') (some (pos 2)) drifted).0 in
    ((n : ℕ) × (result.after_reset ≡ some (status (all_equal_to n))))
    × (Option.map length result.in_test ≡ some 2)
    × ShowEqual (texts_of result.in_test)
main_lem_example = main_lem device around device-IsSyncDevice (some b'y') (some (pos 2)) drifted
