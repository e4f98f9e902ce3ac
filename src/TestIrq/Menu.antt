-- ===== src/TestIrq/Menu.antt =====
-- When the menu of tutorial-05/test_irq.c ends.
use utsavbalar_linux_kernel.Base.{
  ℕ, zero, suc, ◌+◌, ◌≡◌, refl, ap, ◌∙◌, ◌≢◌, Bool, true, false, ◌||◌, Option, none, some, List, [],
  ◌∷◌, arith, ◌==◌, ℤ, pos, negsuc,
}
use utsavbalar_linux_kernel.Process.{Syscalls, M, pure}
use utsavbalar_linux_kernel.TestStatus.{Around, display_device_info, display_proc_info}
use utsavbalar_linux_kernel.TestIrq.{
  Typed, number, word, newline, scan_number, skip_line, Choice, display, trigger, reset, latency,
  exit, invalid, choice_of, trigger_interrupt, reset_counters, run_latency_test, latency_case, act,
  choose, menu_round, menu,
}

-- A 5 stands somewhere in the input.
abbrev pub is_five : ℤ → Bool
is_five (pos n) = n == 5
is_five (negsuc n) = false

abbrev pub has_five : List Typed → Bool
has_five [] = false
has_five (number n ∷ input) = is_five n || has_five input
has_five (word ∷ input) = has_five input
has_five (newline ∷ input) = has_five input

abbrev NoFive : Option ℤ × List Typed → Type 0
NoFive (none, rest) = has_five rest ≡ false
NoFive (some n, rest) = (is_five n ≡ false) × (has_five rest ≡ false)

NoFive-rest : (p : Option ℤ × List Typed) → NoFive p → has_five p.1 ≡ false
NoFive-rest (none, rest) h = h
NoFive-rest (some n, rest) h = h.1

scan_number-NoFive : (input : List Typed) → has_five input ≡ false → NoFive (scan_number input)
scan_number-NoFive [] h = refl
scan_number-NoFive (newline ∷ input) h = scan_number-NoFive input h
scan_number-NoFive (number n ∷ input) h = ground arith
scan_number-NoFive (word ∷ input) h = h

has_five-skip_line :
    (input : List Typed) → has_five input ≡ false → has_five (skip_line input) ≡ false
has_five-skip_line [] h = refl
has_five-skip_line (newline ∷ input) h = h
has_five-skip_line (number n ∷ input) h = has_five-skip_line input (ground arith)
has_five-skip_line (word ∷ input) h = has_five-skip_line input h

not_exit : (n : ℤ) → is_five n ≡ false → choice_of n ≢ exit
not_exit (pos n) h e = ground arith
not_exit (negsuc n) h e = cc

module _ {W : Type 0} (sys : Syscalls W) (around : Around W) where
  -- A round goes on, and leaves no 5 either.
  abbrev GoesOn : Option (List Typed) → Type 0
  GoesOn none = ⊥
  GoesOn (some rest) = has_five rest ≡ false

  act-GoesOn :
      (c : Choice) (input : List Typed) (w : W)
      → c ≢ exit
      → has_five input ≡ false
      → GoesOn (act sys around c input w).0
  unfolding act
  act-GoesOn display input w other h = h
  act-GoesOn trigger input w other h = h
  act-GoesOn reset input w other h = h
  act-GoesOn latency input w other h = NoFive-rest (scan_number input) (scan_number-NoFive input h)
  act-GoesOn exit input w other h = other refl
  act-GoesOn invalid input w other h = h

  round-GoesOn :
      (p : Option ℤ × List Typed) (w : W) → NoFive p → GoesOn (choose sys around p.0 p.1 w).0
  unfolding choose
  round-GoesOn (none, rest) w h = has_five-skip_line rest h
  round-GoesOn (some n, rest) w h = act-GoesOn (choice_of n) rest w (not_exit n h.0) h.1

  -- The rest of the loop, where it goes on.
  GoesOn-menu :
      (fuel : ℕ) (after : Option (List Typed)) (w : W)
      → GoesOn after
      → ((rest : List Typed) (w' : W)
          → has_five rest ≡ false
          → (menu sys around fuel rest w').0 ≡ false)
      → (elim after as (λ _. M W Bool) [ none ↦ pure true | some rest ↦ menu sys around fuel rest ]
          w).0
        ≡ false
  GoesOn-menu fuel none w h ends = elim h [ ]
  GoesOn-menu fuel (some rest) w h ends = ends rest w h

  -- With no 5 in what is typed, in particular at the end of the input, the menu never ends: it does
  -- not leave the loop within any number of rounds.
  pub menu_never_ends :
      (fuel : ℕ) (input : List Typed) (w : W)
      → has_five input ≡ false
      → (menu sys around fuel input w).0 ≡ false
  unfolding menu menu_round
  menu_never_ends zero input w h = refl
  menu_never_ends (suc fuel) input w h =
      let (after, w') = menu_round sys around input w in
      GoesOn-menu fuel after w' (round-GoesOn (scan_number input) w (scan_number-NoFive input h))
        (λ rest w'' e. menu_never_ends fuel rest w'' e)

-- What a user types on a line, or on two for the latency test: a choice but not 5, with a number of
-- iterations, good, 0, negative or no number; a number that is no choice, positive, 0 or negative; or
-- a line that is no number.
pub data Entry : Type 0 where
  show trigger_once reset_once : Entry
  test : ℕ → Entry
  test_zero : Entry
  test_negative : ℕ → Entry
  test_word : Entry
  above_five : ℕ → Entry
  zero_choice : Entry
  negative : ℕ → Entry
  junk : Entry

-- The entries before the rest of the input.
abbrev pub typed : List Entry → List Typed → List Typed
typed [] rest = rest
typed (show ∷ es) rest = number (pos 1) ∷ newline ∷ typed es rest
typed (trigger_once ∷ es) rest = number (pos 2) ∷ newline ∷ typed es rest
typed (reset_once ∷ es) rest = number (pos 3) ∷ newline ∷ typed es rest
typed (test n ∷ es) rest = number (pos 4) ∷ newline ∷ number (pos (suc n)) ∷ newline ∷ typed es rest
typed (test_zero ∷ es) rest = number (pos 4) ∷ newline ∷ number (pos 0) ∷ newline ∷ typed es rest
typed (test_negative n ∷ es) rest =
    number (pos 4) ∷ newline ∷ number (negsuc n) ∷ newline ∷ typed es rest
typed (test_word ∷ es) rest = number (pos 4) ∷ newline ∷ word ∷ newline ∷ typed es rest
typed (above_five n ∷ es) rest = number (pos (n + 6)) ∷ newline ∷ typed es rest
typed (zero_choice ∷ es) rest = number (pos 0) ∷ newline ∷ typed es rest
typed (negative n ∷ es) rest = number (negsuc n) ∷ newline ∷ typed es rest
typed (junk ∷ es) rest = word ∷ newline ∷ typed es rest

-- The rounds of the menu: a word in place of a number of iterations is left for the next round.
abbrev pub rounds : List Entry → ℕ
rounds [] = 0
rounds (test_word ∷ es) = suc (suc (rounds es))
rounds (_ ∷ es) = suc (rounds es)

module _ {W : Type 0} (sys : Syscalls W) (around : Around W) where
  -- What each entry asks for.
  abbrev pub perform : Entry → W → W
  perform show w = (display_proc_info sys around (display_device_info sys around w).1).1
  perform trigger_once w = (around.pause 1_000_000 (trigger_interrupt sys around w).1).1
  perform reset_once w = (reset_counters sys around w).1
  perform (test n) w = (run_latency_test sys around (suc n) w).1
  perform _ w = w

  abbrev pub perform_all : List Entry → W → W
  perform_all [] w = w
  perform_all (e ∷ es) w = perform_all es (perform e w)

  other-invalid : (n : ℕ) → choice_of (pos (n + 6)) ≡ invalid
  other-invalid n = ground arith

  round_other :
      (n : ℕ) (input : List Typed) (w : W)
      → menu_round sys around (number (pos (n + 6)) ∷ input) w ≡ (some input, w)
  unfolding menu_round choose act
  round_other n input w = ap (λ c. act sys around c input w) (other-invalid n)

  menu_other :
      (fuel n : ℕ) (input : List Typed) (w : W)
      → menu sys around (suc fuel) (number (pos (n + 6)) ∷ input) w ≡ menu sys around fuel input w
  unfolding menu
  menu_other fuel n input w =
      ap
        (λ (r : Option (List Typed) × W).
          elim r.0 as (λ _. M W Bool) [ none ↦ pure true | some rest ↦ menu sys around fuel rest ]
            r.1)
        (round_other n input w)

  -- The menu ends for every list of entries that a 5 follows, in one round for each entry, one more
  -- for each word typed in place of a number of iterations, and one for the 5. It does what the
  -- entries ask for, in order: numbers that are no choice, lines that are no number and bad numbers of
  -- iterations do nothing and do not leave the menu.
  pub menu_ends :
      (es : List Entry) (rest : List Typed) (w : W)
      → menu sys around (suc (rounds es)) (typed es (number (pos 5) ∷ rest)) w
        ≡ (true, perform_all es w)
  unfolding menu menu_round act choose latency_case run_latency_test
  menu_ends [] rest w = refl
  menu_ends (show ∷ es) rest w = menu_ends es rest (perform show w)
  menu_ends (trigger_once ∷ es) rest w = menu_ends es rest (perform trigger_once w)
  menu_ends (reset_once ∷ es) rest w = menu_ends es rest (perform reset_once w)
  menu_ends (test n ∷ es) rest w = menu_ends es rest (perform (test n) w)
  menu_ends (test_zero ∷ es) rest w = menu_ends es rest w
  menu_ends (test_negative n ∷ es) rest w = menu_ends es rest w
  menu_ends (test_word ∷ es) rest w = menu_ends es rest w
  menu_ends (above_five n ∷ es) rest w =
      menu_other (suc (rounds es)) n (newline ∷ typed es (number (pos 5) ∷ rest)) w
      ∙ menu_ends es rest w
  menu_ends (zero_choice ∷ es) rest w = menu_ends es rest w
  menu_ends (negative n ∷ es) rest w = menu_ends es rest w
  menu_ends (junk ∷ es) rest w = menu_ends es rest w
