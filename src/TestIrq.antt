-- ===== src/TestIrq.antt =====
-- tutorial-05/test_irq.c: the commands, the latency test and the menu.
pub mod Menu
pub mod OverDriver
mod Tests
use utsavbalar_linux_kernel.Base.{
  ℕ, zero, suc, ◌+◌, ◌-◌, ◌/◌, ◌%◌, Bool, true, false, ◌&&◌, ◌||◌, Option, none, some, List, [],
  ◌∷◌, ◌++◌, ltb, ◌==◌, if◌then◌else◌, ℤ, pos, negsuc,
}
use utsavbalar_linux_kernel.Text.{codes}
use utsavbalar_linux_kernel.Process.{◌>>=◌, Syscalls, M, pure}
use utsavbalar_linux_kernel.TestStatus.{
  Around, display_device_info, display_proc_info, send_command,
}

-- What is left of the terminal's input. A word is anything that is no number.
pub data Typed : Type 0 where
  number : ℤ → Typed
  word : Typed
  newline : Typed

-- `scanf("%d", &n)`: skips white space, and leaves a word where it is.
abbrev pub scan_number : List Typed → Option ℤ × List Typed
scan_number [] = (none, [])
scan_number (newline ∷ input) = scan_number input
scan_number (number n ∷ input) = (some n, input)
scan_number (word ∷ input) = (none, word ∷ input)

-- `while ((c = getchar()) != '\n' && c != EOF);`
abbrev pub skip_line : List Typed → List Typed
skip_line [] = []
skip_line (newline ∷ input) = input
skip_line (number n ∷ input) = skip_line input
skip_line (word ∷ input) = skip_line input

-- The cases of the menu.
pub data Choice : Type 0 where
  display trigger reset latency exit invalid : Choice

abbrev pub choice_of : ℤ → Choice
choice_of (negsuc n) = invalid
choice_of (pos n) =
    if n == 1
    then display
    else if n == 2
    then trigger
    else if n == 3
    then reset
    else if n == 4
    then latency
    else if n == 5
    then exit
    else invalid

-- The iterations that a latency test of so many shows: the first, the last, and every tenth part.
abbrev pub is_shown : ℕ → ℕ → Bool
is_shown iterations i =
    i == 0 || i == iterations - 1 || ltb 10 iterations && i % (iterations / 10) == 0

module _ {W : Type 0} (sys : Syscalls W) (around : Around W) where
  unfoldable pub trigger_interrupt : M W Bool
  unfolding send_command
  trigger_interrupt = send_command sys around (codes "trigger")

  unfoldable pub reset_counters : M W Bool
  unfolding send_command
  reset_counters = send_command sys around (codes "reset")

  -- The loop of the latency test from iteration i on, with the displays in order.
  unfoldable pub latency_rounds : ℕ → ℕ → ℕ → M W (List (Option (List (List ℕ))))
  latency_rounds iterations zero i = pure []
  latency_rounds iterations (suc left) i = do
    _ ← trigger_interrupt
    _ ← around.pause 100_000
    shown ←
        if is_shown iterations i
        then (do lines ← display_proc_info sys around; pure (lines ∷ []))
        else pure []
    rest ← latency_rounds iterations left (i + 1)
    pure (shown ++ rest)

  unfoldable pub run_latency_test : ℕ → M W (List (Option (List (List ℕ))))
  run_latency_test iterations = do _ ← reset_counters; latency_rounds iterations iterations 0

  -- Case 4 of the menu, once the number of iterations is scanned.
  unfoldable pub latency_case : Option ℤ → M W (Unit {0})
  latency_case none = pure tt
  latency_case (some (negsuc n)) = pure tt
  latency_case (some (pos zero)) = pure tt
  latency_case (some (pos (suc n))) = do _ ← run_latency_test (suc n); pure tt

  -- What a choice does; `none` leaves the menu.
  unfoldable pub act : Choice → List Typed → M W (Option (List Typed))
  act display input = do
    _ ← display_device_info sys around
    _ ← display_proc_info sys around
    pure (some input)
  act trigger input = do _ ← trigger_interrupt; _ ← around.pause 1_000_000; pure (some input)
  act reset input = do _ ← reset_counters; pure (some input)
  act latency input = do
    let (iterations, rest) = scan_number input
    _ ← latency_case iterations
    pure (some rest)
  act exit input = pure none
  act invalid input = pure (some input)

  -- One round of the menu, once the choice is scanned.
  unfoldable pub choose : Option ℤ → List Typed → M W (Option (List Typed))
  choose none input = pure (some (skip_line input))
  choose (some n) input = act (choice_of n) input

  unfoldable pub menu_round : List Typed → M W (Option (List Typed))
  menu_round input = let (n, rest) = scan_number input in choose n rest

  -- `while (choice != 5)`: true if it ends within the fuel.
  unfoldable pub menu : ℕ → List Typed → M W Bool
  menu zero input = pure false
  menu (suc fuel) input = do
    after ← menu_round input
    elim after [ none ↦ pure true | some rest ↦ menu fuel rest ]

  -- The rest of `main` comes before the menu.
  pub main : ℕ → List Typed → M W Bool
  main fuel input = do
    _ ← display_device_info sys around
    _ ← display_proc_info sys around
    _ ← trigger_interrupt
    _ ← around.pause 1_000_000
    _ ← display_device_info sys around
    _ ← display_proc_info sys around
    _ ← reset_counters
    _ ← display_device_info sys around
    menu fuel input
