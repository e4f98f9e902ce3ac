-- ===== src/TestSync/OverDriver.antt =====
-- tutorial-04/test_sync.c over the driver of tutorial-04/sync_demo.c.
use utsavbalar_linux_kernel.Base.{
  ℕ, zero, suc, ◌-◌, ◌≤◌, min, ◌≡◌, refl, ap, ◌∙◌, inl, inr, false, Option, none, some, List, [],
  ◌∷◌, arith, if◌then◌else◌, Bool-cases, length, get_or, take, drop, take_all, pos_part, is_neg,
  inc32, ℤ, pos,
}
use mathlib.Core.Option
use utsavbalar_linux_kernel.Kernel.{UserAccess, IsUserAccess, user_bytes_of}
use utsavbalar_linux_kernel.Process.{Syscalls, Mode, rdonly, wronly}
use utsavbalar_linux_kernel.TestChar.{text_of}
use utsavbalar_linux_kernel.TestStatus.{
  Around, display_device_info, display_proc_info, send_command,
}
use utsavbalar_linux_kernel.Status.{StatusResult, answer, buffer_size}
use utsavbalar_linux_kernel.SyncDemo.{
  Counters, all_equal_to, zeros, demo_thread_round, status, sync_demo_read, sync_demo_write,
  reset_word,
}
use utsavbalar_linux_kernel.SyncDemo.Handlers.{
  length-status, sync_demo_read_lem, sync_demo_write_lem,
}
use utsavbalar_linux_kernel.TestSync.{
  says_yes, Texts, reset_counters, stress_rounds, stress_test, answered, main,
}
use utsavbalar_linux_kernel.TestSync.StatusText.{text_of-status}

-- The thread makes some whole rounds.
pub data Rounds : Counters → Counters → Type 0 where
  no_round : (c : Counters) → Rounds c c
  one_round : (c c' : Counters) → Rounds (demo_thread_round c) c' → Rounds c c'

-- A machine with the module loaded: the file layer hands the calls to the driver, the process's
-- memory holds what it writes and does not fault, and at any time the thread makes any number of
-- rounds, none of them during a handler.
pub record IsSyncDevice {W : Type 0} (sys : Syscalls W) (around : Around W) : Type 0 where
  pub counters : W → Counters
  pub device_buffer : W → List ℕ
  pub position : W → ℤ
  pub memory : List ℕ → UserAccess
  pub memory-IsUserAccess : (bytes : List ℕ) → IsUserAccess (memory bytes)
  pub holds : (bytes : List ℕ) (i : ℕ) → (memory bytes).user_byte i ≡ get_or bytes i 0
  pub no_fault_in :
      (bytes : List ℕ) (n : ℕ) → n ≤ length bytes → ((memory bytes).copy_from_user 0 n).1 ≡ 0
  pub no_fault_out : (bytes sent : List ℕ) → (memory bytes).copy_to_user 0 sent ≡ 0
  pub size : (w : W) → length (device_buffer w) ≡ buffer_size
  pub opens :
      (m : Mode) (w : W)
      → let (fd, w') = sys.sys_open m w in
        (is_neg fd ≡ false) × (position w' ≡ pos 0) × Rounds (counters w) (counters w')
  pub reads :
      (fd : ℤ) (n : ℕ) (w : W) (r : StatusResult)
      → sync_demo_read (memory []) (counters w) (device_buffer w) 0 n (position w) ≡ some r
      → let (got, w') = sys.sys_read fd n w in
        (got ≡ (r.ret, r.delivered)) × Rounds (counters w) (counters w')
  pub writes :
      (fd : ℤ) (bytes : List ℕ) (w : W)
      → let (ret, w') = sys.sys_write fd bytes w in
        let (c, r) = sync_demo_write (memory bytes) (counters w) 0 (length bytes) in
        (ret ≡ r) × Rounds c (counters w')
  pub closes : (fd : ℤ) (w : W) → Rounds (counters w) (counters (sys.sys_close fd w).1)
  pub shows : (w : W) → Rounds (counters w) (counters (around.proc_lines w).1)
  pub pauses : (n : ℕ) (w : W) → Rounds (counters w) (counters (around.pause n w).1)

-- All counters are the same.
abbrev pub AreEqual : Counters → Type 0
AreEqual c = (n : ℕ) × (c ≡ all_equal_to n)

Rounds-AreEqual : (c c' : Counters) → Rounds c c' → AreEqual c → AreEqual c'
unfolding demo_thread_round
Rounds-AreEqual _ _ (no_round c) e = e
Rounds-AreEqual _ _ (one_round c c' more) (n, e) =
    Rounds-AreEqual (demo_thread_round c) c' more (inc32 n, ap demo_thread_round e)

-- Each text was printed, and is the status text of equal counters.
abbrev pub ShowEqual : Texts → Type 0
ShowEqual [] = Unit {0}
ShowEqual (text ∷ texts) = ((n : ℕ) × (text ≡ some (status (all_equal_to n)))) × ShowEqual texts

-- The number of displays that the stress test owes, or `none` where a variable has no value.
abbrev pub cycles : Option ℕ → Option ℤ → Option ℕ
cycles none iterations = none
cycles (some choice) none = if says_yes choice then none else some 0
cycles (some choice) (some n) = if says_yes choice then some (pos_part n) else some 0

abbrev pub texts_of : Option Texts → Texts
texts_of none = []
texts_of (some texts) = texts

module _ {W : Type 0} (sys : Syscalls W) (around : Around W)
    (lawful : IsSyncDevice sys around) where
  open lawful use {
    counters, device_buffer, position, memory, memory-IsUserAccess, holds, no_fault_in,
    no_fault_out, size, opens, reads, writes, closes, shows, pauses,
  }

  driver_reset : (w : W) → sync_demo_write (memory reset_word) (counters w) 0 5 ≡ (zeros, pos 5)
  driver_reset w =
      let k = memory reset_word in
      let all_in = no_fault_in reset_word 5 (omega arith) in
      rw
        (
          sync_demo_write_lem k (counters w) 0 5 (memory-IsUserAccess reset_word),
          all_in,
          user_bytes_of k reset_word (holds reset_word),
        )
        refl

  -- Whatever the counters were, they are equal after a reset.
  reset_counters-AreEqual : (w : W) → AreEqual (counters (reset_counters sys around w).1)
  unfolding reset_counters send_command
  reset_counters-AreEqual w =
      let (fd, w1) = sys.sys_open wronly w in
      let w2 = (sys.sys_write fd reset_word w1).1 in
      rw (opens wronly w).0 (
        Rounds-AreEqual _ _ (closes fd w2)
          (Rounds-AreEqual _ _ (writes fd reset_word w1).1 (0, ap (λ p. p.0) (driver_reset w1))))

  driver_read :
      (w : W)
      → position w ≡ pos 0
      → sync_demo_read (memory []) (counters w) (device_buffer w) 0 1023 (position w)
        ≡ some (answer (memory []) (status (counters w)) (device_buffer w) 0 1023 0)
  driver_read w start =
      rw start (sync_demo_read_lem (memory []) (counters w) (device_buffer w) 0 1023 0 (size w))

  delivered_all :
      (c : Counters) (buffer : List ℕ)
      → (answer (memory []) (status c) buffer 0 1023 0).delivered ≡ status c
  delivered_all c buffer = ground (
    arith,
    no_fault_out [] (take (min (length (status c) - 0) 1023) (drop 0 (status c))),
    length-status c,
    take_all (length (status c)) (status c) (omega arith),
  )

  -- What a display prints, with the counters as they are once the device is open.
  display_device_info_lem :
      (w : W)
      → (display_device_info sys around w).0 ≡ some (status (counters (sys.sys_open rdonly w).1))
  unfolding display_device_info
  display_device_info_lem w =
      let (fd, w1) = sys.sys_open rdonly w in
      let c = counters w1 in
      let (not_neg, start, before) = opens rdonly w in
      let (got, after) = reads fd 1023 w1 _ (driver_read w1 start) in
      rw (not_neg, got)
        (ap (λ l. some (text_of l)) (delivered_all c (device_buffer w1))
          ∙ ap some (text_of-status c))

  display_device_info-AreEqual :
      (w : W) → AreEqual (counters w) → AreEqual (counters (display_device_info sys around w).1)
  unfolding display_device_info
  display_device_info-AreEqual w e =
      let (fd, w1) = sys.sys_open rdonly w in
      let (not_neg, start, before) = opens rdonly w in
      let (got, after) = reads fd 1023 w1 _ (driver_read w1 start) in
      let w2 = (sys.sys_read fd 1023 w1).1 in
      rw not_neg (
        Rounds-AreEqual _ _ (closes fd w2)
          (Rounds-AreEqual _ _ after (Rounds-AreEqual _ _ before e)))

  shows_equal :
      (w : W)
      → AreEqual (counters w)
      → (n : ℕ) × ((display_device_info sys around w).0 ≡ some (status (all_equal_to n)))
  shows_equal w e =
      let (not_neg, start, before) = opens rdonly w in
      let (n, e1) = Rounds-AreEqual _ _ before e in
      (n, display_device_info_lem w ∙ ap (λ c. some (status c)) e1)

  -- One cycle of the stress test leaves the counters equal before its display, and after it.
  stress_rounds-ShowEqual :
      (left : ℕ) (w : W)
      → let texts = (stress_rounds sys around left w).0 in (length texts ≡ left) × ShowEqual texts
  unfolding stress_rounds
  stress_rounds-ShowEqual zero w = (refl, tt)
  stress_rounds-ShowEqual (suc left) w =
      let w1 = (reset_counters sys around w).1 in
      let (none_yet, w2) = around.pause 10_000 w1 in
      let e = Rounds-AreEqual _ _ (pauses 10_000 w1) (reset_counters-AreEqual w) in
      let (size, equal) = stress_rounds-ShowEqual left (display_device_info sys around w2).1 in
      (ap suc size, (shows_equal w2 e, equal))

  answered_lem :
      (choice : Option ℕ) (iterations : Option ℤ) (w : W)
      → let result = (answered sys around choice iterations w).0 in
        (Option.map length result ≡ cycles choice iterations) × ShowEqual (texts_of result)
  unfolding answered stress_test
  answered_lem none iterations w = (refl, tt)
  answered_lem (some c) none w = elim (Bool-cases (says_yes c)) [
    | inl agrees ↦ rw agrees (refl, tt)
    | inr declines ↦ rw declines (refl, tt)
  ]
  answered_lem (some c) (some n) w = elim (Bool-cases (says_yes c)) [
    | inl agrees ↦
        let (size, equal) = stress_rounds-ShowEqual (pos_part n) w in
        rw agrees (ap some size, equal)
    | inr declines ↦ rw declines (refl, tt)
  ]

  -- On a machine where only the thread and this program touch the counters, and the thread makes its
  -- rounds between the handlers: whatever the counters were at the start, the display after the first
  -- reset and every display of the stress test print four equal counters. The test makes as many
  -- cycles as it is asked for, and none for a negative number or another answer. It reads a variable
  -- that has no value exactly where the input ends before the answer, or where no number follows a
  -- yes.
  pub main_lem :
      (choice : Option ℕ) (iterations : Option ℤ) (w : W)
      → let result = (main sys around choice iterations w).0 in
        ((n : ℕ) × (result.after_reset ≡ some (status (all_equal_to n))))
        × (Option.map length result.in_test ≡ cycles choice iterations)
        × ShowEqual (texts_of result.in_test)
  unfolding main display_proc_info
  main_lem choice iterations w =
      let w1 = (around.proc_lines (display_device_info sys around w).1).1 in
      let w2 = (reset_counters sys around w1).1 in
      let w3 = (around.pause 3_000_000 w2).1 in
      let w4 = (around.proc_lines (display_device_info sys around w3).1).1 in
      let e = Rounds-AreEqual _ _ (pauses 3_000_000 w2) (reset_counters-AreEqual w1) in
      let (count, equal) = answered_lem choice iterations w4 in (shows_equal w3 e, count, equal)
