-- ===== src/IrqDemo/Order/Times.antt =====
-- The times that tutorial-05/irq_demo.c stores, and the latency that it prints of them.
use utsavbalar_linux_kernel.Base.{
  ℕ, ◌-◌, ◌≤◌, ◌<◌, ◌≡◌, subst, Bool, false, Option, none, some, List, [], ◌∷◌, ◌++◌, arith, ◌-ℤ◌,
  ℤ, pos,
}
use Prim.Native.String.{String}
use utsavbalar_linux_kernel.IrqDemo.{irq_proc_show}
use utsavbalar_linux_kernel.IrqDemo.Order.{
  Work, timed, counted_at, Machine, Step, tick, enter, count, store, queue, take_off, read_time,
  count_work, store_work, take_off_delayed, count_delayed, requeue_delayed, reset_irqs,
  reset_bottom_halves, reset_delayed, Reach, here, next,
}

abbrev AllBelow : ℕ → List ℕ → Type 0
AllBelow b [] = Unit {0}
AllBelow b (x ∷ xs) = (x ≤ b) × AllBelow b xs

AllBelow-mono : (b c : ℕ) (xs : List ℕ) → b ≤ c → AllBelow b xs → AllBelow c xs
AllBelow-mono b c [] le h = tt
AllBelow-mono b c (x ∷ xs) le (hx, h) = (omega arith, AllBelow-mono b c xs le h)

AllBelow-split :
    (b : ℕ) (xs ys : List ℕ) (t : ℕ) → AllBelow b (xs ++ (t ∷ ys)) → (t ≤ b) × AllBelow b (xs ++ ys)
AllBelow-split b [] ys t h = h
AllBelow-split b (x ∷ xs) ys t (hx, h) =
    let (ht, rest) = AllBelow-split b xs ys t h in (ht, (hx, rest))

-- The time with which the bottom half that runs, or else the last one, answers.
abbrev answer_time : Machine → Work → ℕ
answer_time m Work.idle = (m.stats).last_bh_time
answer_time m Work.taken_off = m.now
answer_time m (timed t) = t
answer_time m (counted_at t) = t

record Inv (m : Machine) : Type 0 where
  entered_past : AllBelow m.now m.entered
  counted_past : AllBelow m.now m.counted
  irq_past : (m.stats).last_irq_time ≤ m.now
  answered :
      m.stored ≡ 0
      → (m.stats).regular_queued ≡ false
      → (m.stats).last_irq_time ≤ answer_time m m.work

Step-Inv : {resets : Bool} {m m' : Machine} → Step resets m m' → Inv m → Inv m'
Step-Inv {m = m} (tick t le) v = record {
  entered_past = AllBelow-mono m.now t m.entered le v.entered_past;
  counted_past = AllBelow-mono m.now t m.counted le v.counted_past;
  irq_past = omega (arith, v.irq_past);
  answered = λ e q. ground (arith, v.answered e q);
}
Step-Inv {m = m} enter v = record {
  entered_past = (omega arith, v.entered_past);
  counted_past = v.counted_past;
  irq_past = v.irq_past;
  answered = v.answered;
}
Step-Inv {m = m} (count xs ys t e) v =
    let (past, rest) = AllBelow-split m.now xs ys t (subst (AllBelow m.now) e v.entered_past) in
    record {
      entered_past = rest;
      counted_past = (past, v.counted_past);
      irq_past = v.irq_past;
      answered = v.answered;
    }
Step-Inv {m = m} (store xs ys t e) v =
    let (past, rest) = AllBelow-split m.now xs ys t (subst (AllBelow m.now) e v.counted_past) in
    record {
      entered_past = v.entered_past;
      counted_past = rest;
      irq_past = past;
      answered = λ none_stored. ground arith;
    }
Step-Inv (queue k e) v = ground arith
Step-Inv (take_off e q) v = ground arith
Step-Inv (read_time e) v = ground arith
Step-Inv (count_work t e) v = ground arith
Step-Inv (store_work t e) v = ground arith
Step-Inv (take_off_delayed e q) v = ground arith
Step-Inv (count_delayed e) v = ground arith
Step-Inv (requeue_delayed e) v = ground arith
Step-Inv (reset_irqs e) v = ground arith
Step-Inv (reset_bottom_halves k e) v = ground arith
Step-Inv (reset_delayed k e) v = ground arith

Reach-Inv : {resets : Bool} {n : ℕ} {m : Machine} → Reach resets n m → Inv m
Reach-Inv here = record {
  entered_past = tt;
  counted_past = tt;
  irq_past = omega arith;
  answered = λ e q. omega arith;
}
Reach-Inv (next r st) = Step-Inv st (Reach-Inv r)

-- The last value that the proc file prints.
abbrev pub last_value : List (String × ℤ) → Option ℤ
last_value [] = none
last_value ((_, z) ∷ []) = some z
last_value (l ∷ m ∷ ls) = last_value (m ∷ ls)

-- However top halves, bottom halves, the delayed work and resets interleave: at a moment when no
-- bottom half runs or is queued, and no top half stands between the store of its time and its
-- `queue_work`, if an interrupt has stored its time, the proc file ends with a latency that is not
-- negative, the time from the last interrupt stored to the last bottom half stored.
pub latency_nonneg :
    {resets : Bool} {n : ℕ} {m : Machine} (using_gpio using_timer : Bool)
    → Reach resets n m
    → m.work ≡ Work.idle
    → (m.stats).regular_queued ≡ false
    → m.stored ≡ 0
    → 0 < (m.stats).last_irq_time
    → last_value (irq_proc_show using_gpio using_timer m.stats)
      ≡ some (pos ((m.stats).last_bh_time - (m.stats).last_irq_time))
unfolding irq_proc_show ◌-ℤ◌
latency_nonneg using_gpio using_timer r rest quiet none_stored seen =
    ground (arith, (Reach-Inv r).answered none_stored quiet)
