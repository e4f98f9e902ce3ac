-- ===== src/TestIrq/OverDriver.antt =====
-- The latency test of tutorial-05/test_irq.c over the driver of tutorial-05/irq_demo.c.
use utsavbalar_linux_kernel.Base.{
  ◌≤◌, sym, ◌<◌, ◌^◌, zero, suc, subst, ℕ, zero, suc, ◌+◌, ◌^◌, ◌≤◌, ◌<◌, ◌≡◌, refl, subst, ◌⊎◌,
  inl, inr, Bool, true, false, Option, List, [], ◌∷◌, arith, if◌then◌else◌, Bool-cases, length,
  get_or, is_neg, inc32, ℤ, pos,
}
use utsavbalar_linux_kernel.Kernel.{user_bytes_of, UserAccess, IsUserAccess, same}
use utsavbalar_linux_kernel.Process.{◌>>=◌, pure, Syscalls, M, Mode, wronly}
use utsavbalar_linux_kernel.TestStatus.{Around, send_command, display_proc_info}
use utsavbalar_linux_kernel.IrqDemo.{
  reset_counters as cleared, Stats, button_irq_handler, irq_demo_write, trigger_word, reset_word,
}
use utsavbalar_linux_kernel.IrqDemo.Order.{count_of}
use utsavbalar_linux_kernel.IrqDemo.Handlers.{irq_demo_write_lem}
use utsavbalar_linux_kernel.TestIrq.{
  trigger_interrupt, reset_counters, latency_rounds, run_latency_test, is_shown,
}

-- The three statistics that the latency test is about.
pub record Seen : Type 0 where
  pub irqs : ℕ
  pub bottom_halves : ℕ
  pub queued : Bool

abbrev pub seen_in : Stats → Seen
seen_in s = record {
  irqs = s.irq_count;
  bottom_halves = s.bottom_half_count;
  queued = s.regular_queued;
}

-- The bottom half runs if it is queued.
abbrev pub settled : Seen → Seen
settled v =
    if v.queued then record v { bottom_halves = inc32 v.bottom_halves; queued = false } else v

-- Between two calls a queued bottom half may run, and nothing else happens to the three.
abbrev pub Drifts : Seen → Seen → Type 0
Drifts v v' = (v' ≡ v) ⊎ (v' ≡ settled v)

-- A machine with the module loaded and no other source of interrupts: the file layer hands the calls
-- to the driver, and the process's memory holds what it writes and does not fault. A queued bottom
-- half may run after any call or pause and need not; the delayed work may run at any time.
pub record IsQuietDevice {W : Type 0} (sys : Syscalls W) (around : Around W) : Type 0 where
  pub stats : W → Stats
  pub clock : W → ℕ
  pub memory : List ℕ → UserAccess
  pub memory-IsUserAccess : (bytes : List ℕ) → IsUserAccess (memory bytes)
  pub holds : (bytes : List ℕ) (i : ℕ) → (memory bytes).user_byte i ≡ get_or bytes i 0
  pub no_fault_in :
      (bytes : List ℕ) (n : ℕ) → n ≤ length bytes → ((memory bytes).copy_from_user 0 n).1 ≡ 0
  pub opens :
      (m : Mode) (w : W)
      → let (fd, w') = sys.sys_open m w in
        (is_neg fd ≡ false) × Drifts (seen_in (stats w)) (seen_in (stats w'))
  pub writes :
      (fd : ℤ) (bytes : List ℕ) (w : W)
      → let (ret, w') = sys.sys_write fd bytes w in
        let (s, r) = irq_demo_write (memory bytes) (clock w) (stats w) 0 (length bytes) in
        (ret ≡ r) × Drifts (seen_in s) (seen_in (stats w'))
  pub closes :
      (fd : ℤ) (w : W) → Drifts (seen_in (stats w)) (seen_in (stats (sys.sys_close fd w).1))
  pub shows : (w : W) → Drifts (seen_in (stats w)) (seen_in (stats (around.proc_lines w).1))
  pub pauses : (n : ℕ) (w : W) → Drifts (seen_in (stats w)) (seen_in (stats (around.pause n w).1))

-- i interrupts are counted since a reset, at which a bottom half was queued or not.
record InTest (queued_before : Bool) (i : ℕ) (v : Seen) : Type 0 where
  all_irqs : v.irqs ≡ i
  at_most : v.bottom_halves + count_of v.queued ≤ i + count_of queued_before
  at_least : 0 < i → 0 < v.bottom_halves + count_of v.queued

InTest-Drifts :
    (b : Bool) (i : ℕ) (v v' : Seen) → i + 1 < 2 ^ 32 → Drifts v v' → InTest b i v → InTest b i v'
InTest-Drifts b i v v' bound (inl same) t = subst (InTest b i) (sym same) t
InTest-Drifts b i v v' bound (inr run) t = subst (InTest b i) (sym run) (ground arith)

-- What the driver does with the three on an interrupt, and on a reset.
abbrev triggered : Seen → Seen
triggered v = record v { irqs = inc32 v.irqs; queued = true }

abbrev zeroed : Seen → Seen
zeroed v = record v { irqs = 0; bottom_halves = 0 }

InTest-triggered :
    (b : Bool) (i : ℕ) (v : Seen) → i + 1 < 2 ^ 32 → InTest b i v → InTest b (i + 1) (triggered v)
InTest-triggered b i v bound t = ground arith

InTest-zeroed : (b : Bool) (v v' : Seen) → v.queued ≡ b → Drifts v v' → InTest b 0 (zeroed v')
InTest-zeroed b v v' e (inl same) = subst (λ u. InTest b 0 (zeroed u)) (sym same) (ground arith)
InTest-zeroed b v v' e (inr run) = subst (λ u. InTest b 0 (zeroed u)) (sym run) (ground arith)

module _ {W : Type 0} (sys : Syscalls W) (around : Around W)
    (lawful : IsQuietDevice sys around) where
  open lawful use {
    stats, clock, memory, memory-IsUserAccess, holds, no_fault_in, opens, writes, closes, shows,
    pauses,
  }

  abbrev pub seen : W → Seen
  seen w = seen_in (stats w)

  -- What the driver does with the two commands.
  driver_trigger :
      (w : W)
      → irq_demo_write (memory trigger_word) (clock w) (stats w) 0 7
        ≡ (button_irq_handler (clock w) (stats w), pos 7)
  driver_trigger w =
      let k = memory trigger_word in
      let all_in = no_fault_in trigger_word 7 (omega arith) in
      rw
        (
          irq_demo_write_lem k (clock w) (stats w) 0 7 (memory-IsUserAccess trigger_word),
          all_in,
          user_bytes_of k trigger_word (holds trigger_word),
        )
        refl

  driver_reset :
      (w : W)
      → irq_demo_write (memory reset_word) (clock w) (stats w) 0 5 ≡ (cleared (stats w), pos 5)
  driver_reset w =
      let k = memory reset_word in
      let all_in = no_fault_in reset_word 5 (omega arith) in
      rw
        (
          irq_demo_write_lem k (clock w) (stats w) 0 5 (memory-IsUserAccess reset_word),
          all_in,
          user_bytes_of k reset_word (holds reset_word),
        )
        refl

  -- A command runs its handler between two drifts; the world in between is that after the open.
  send_command_lem :
      (command : List ℕ) (s : W → Stats) (n : ℕ)
      → ((w : W)
          → irq_demo_write (memory command) (clock w) (stats w) 0 (length command) ≡ (s w, pos n))
      → (b : Bool) (i : ℕ) (w : W) → i + 1 < 2 ^ 32
      → InTest b i (seen_in (s (sys.sys_open wronly w).1))
      → InTest b i (seen (send_command sys around command w).1)
  unfolding send_command
  send_command_lem command s n does b i w bound t =
      let (fd, w1) = sys.sys_open wronly w in
      let opened = (opens wronly w).0 in
      let w2 = (sys.sys_write fd command w1).1 in
      let drift = (writes fd command w1).1 in
      rw opened (
        InTest-Drifts b i (seen w2) _ bound (closes fd w2) (
          InTest-Drifts b i _ (seen w2) bound drift
            (subst (λ p. InTest b i (seen_in p.0)) (sym (does w1)) t)))

  trigger_interrupt_lem :
      (b : Bool) (i : ℕ) (w : W)
      → i + 2 < 2 ^ 32
      → InTest b i (seen w)
      → InTest b (i + 1) (seen (trigger_interrupt sys around w).1)
  unfolding trigger_interrupt button_irq_handler
  trigger_interrupt_lem b i w bound t =
      let w1 = (sys.sys_open wronly w).1 in
      send_command_lem trigger_word (λ w'. button_irq_handler (clock w') (stats w')) 7
        driver_trigger b (i + 1) w (omega arith)
        (InTest-triggered b i (seen w1) (omega arith)
          (InTest-Drifts b i (seen w) (seen w1) (omega arith) (opens wronly w).1 t))

  reset_counters_lem : (w : W) → InTest (seen w).queued 0 (seen (reset_counters sys around w).1)
  unfolding reset_counters
  reset_counters_lem w =
      let w1 = (sys.sys_open wronly w).1 in
      send_command_lem reset_word (λ w'. cleared (stats w')) 5 driver_reset (seen w).queued 0 w
        (omega arith) (InTest-zeroed (seen w).queued (seen w) (seen w1) refl (opens wronly w).1)

  -- What one iteration of the test shows.
  abbrev shown : ℕ → ℕ → M W (List (Option (List (List ℕ))))
  shown iterations i =
      if is_shown iterations i
      then (do lines ← display_proc_info sys around; pure (lines ∷ []))
      else pure []

  shown_lem :
      (b : Bool) (iterations j i : ℕ) (w : W)
      → i + 1 < 2 ^ 32
      → InTest b i (seen w)
      → InTest b i (seen (shown iterations j w).1)
  unfolding display_proc_info
  shown_lem b iterations j i w bound t = elim (Bool-cases (is_shown iterations j)) [
    | inl shows_it ↦ rw shows_it (InTest-Drifts b i (seen w) _ bound (shows w) t)
    | inr skips ↦ rw skips t
  ]

  latency_rounds_lem :
      (b : Bool) (iterations left j i : ℕ) (w : W)
      → i + left + 1 < 2 ^ 32
      → InTest b i (seen w)
      → InTest b (i + left) (seen (latency_rounds sys around iterations left j w).1)
  unfolding latency_rounds
  latency_rounds_lem b iterations zero j i w bound t =
      subst (λ c. InTest b c (seen w)) (let e : i ≡ i + 0 = omega arith in e) t
  latency_rounds_lem b iterations (suc left) j i w bound t =
      let w1 = (trigger_interrupt sys around w).1 in
      let w2 = (around.pause 100_000 w1).1 in
      let w3 = (shown iterations j w2).1 in
      let small : i + 1 + 1 < 2 ^ 32 = omega arith in
      let sum : i + 1 + left ≡ i + suc left = omega arith in
      let t1 = trigger_interrupt_lem b i w (omega arith) t in
      let t2 = InTest-Drifts b (i + 1) (seen w1) (seen w2) small (pauses 100_000 w1) t1 in
      let t3 = shown_lem b iterations j (i + 1) w2 small t2 in
      subst (λ c. InTest b c (seen (latency_rounds sys around iterations left (j + 1) w3).1)) sum
        (latency_rounds_lem b iterations left (j + 1) (i + 1) w3 (omega arith) t3)

  -- On a machine with no other source of interrupts, where a queued bottom half runs between the
  -- calls of the program, at any of them or not at all: a latency test of n iterations ends with
  -- exactly n interrupts counted, whatever was counted before, for n below 2^32 - 1. The bottom
  -- halves counted, and the one that may be queued, are together at most n, or n + 1 if one was
  -- queued at the start; and with any iterations at all there is at least one.
  pub run_latency_test_lem :
      (n : ℕ) (w : W)
      → n + 1 < 2 ^ 32
      → let s = stats (run_latency_test sys around n w).1 in
        (s.irq_count ≡ n)
        × (s.bottom_half_count + count_of s.regular_queued ≤ n + count_of (stats w).regular_queued)
        × (0 < n → 0 < s.bottom_half_count + count_of s.regular_queued)
  unfolding run_latency_test
  run_latency_test_lem n w bound =
      let w1 = (reset_counters sys around w).1 in
      let t = latency_rounds_lem (seen w).queued n n 0 0 w1 (omega arith) (reset_counters_lem w) in
      let e : 0 + n ≡ n = omega arith in
      let t' =
        subst (λ c. InTest (seen w).queued c (seen (latency_rounds sys around n n 0 w1).1)) e t in
      (t'.all_irqs, t'.at_most, t'.at_least)
