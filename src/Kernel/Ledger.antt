-- ===== src/Kernel/Ledger.antt =====
-- Bookkeeping of a trace of calls: what is held after it. `settle` asks that what was obtained last
-- is released first; `account` asks only that whatever still uses a thing is released before it.
use utsavbalar_linux_kernel.Base.{
  ℕ, Bool, true, false, ◌&&◌, ◌||◌, Option, none, some, List, [], ◌∷◌, leb, ◌==◌, if◌then◌else◌,
}
use utsavbalar_linux_kernel.Kernel.Trace.{
  Resource, chrdev, class, device, cdev, proc, thread, workqueue, timer, delayed, gpio, irq,
  kmalloc, vmalloc, pages, cache, object, Event, allocated, filled, obtained, refused, released,
  flushed,
}

abbrev pub Held : Type 0
Held = List (Resource × ℕ)

abbrev pub rank : Resource → ℕ
rank chrdev = 0
rank class = 1
rank device = 2
rank cdev = 3
rank proc = 4
rank thread = 5
rank workqueue = 6
rank timer = 7
rank delayed = 8
rank gpio = 9
rank irq = 10
rank kmalloc = 11
rank vmalloc = 12
rank pages = 13
rank cache = 14
rank object = 15

abbrev pub same : Resource → Resource → Bool
same r q = rank r == rank q

-- `none` is a release of something that is not held, or not on top.
unfoldable pub settle : List Event → Held → Option Held
settle [] held = some held
settle (obtained r h ∷ es) held = settle es ((r, h) ∷ held)
settle (allocated r h n ∷ es) held = settle es ((r, h) ∷ held)
settle (filled r h n ∷ es) held = settle es held
settle (refused r ∷ es) held = settle es held
settle (flushed h ∷ es) held = settle es held
settle (released r h ∷ es) [] = none
settle (released r h ∷ es) ((q, g) ∷ held) =
    let rest = settle es held in if same r q && h == g then rest else none

-- Work arrives on a workqueue from the timer, from the interrupt and from the delayed work, and the
-- interrupt line uses its pin.
abbrev pub uses : Resource → Resource → Bool
uses timer workqueue = true
uses irq workqueue = true
uses delayed workqueue = true
uses irq gpio = true
uses device class = true
uses _ _ = false

abbrev pub in_use : Resource → Held → Bool
in_use r [] = false
in_use r ((q, _) ∷ held) = uses q r || in_use r held

abbrev pub remove : Resource → ℕ → Held → Option Held
remove r h [] = none
remove r h ((q, g) ∷ held) =
    if same r q && h == g
    then some held
    else elim (remove r h held) [ none ↦ none | some held' ↦ some ((q, g) ∷ held') ]

-- `none` is a release of something that is not held, or that something held still uses.
unfoldable pub account : List Event → Held → Option Held
account [] held = some held
account (obtained r h ∷ es) held = account es ((r, h) ∷ held)
account (allocated r h n ∷ es) held = account es ((r, h) ∷ held)
account (filled r h n ∷ es) held = account es held
account (refused r ∷ es) held = account es held
account (flushed h ∷ es) held = account es held
account (released r h ∷ es) held =
    if in_use r held
    then none
    else elim (remove r h held) [ none ↦ none | some held' ↦ account es held' ]

-- Every fill goes to a block that is held, and stays inside it.
abbrev pub Blocks : Type 0
Blocks = List (Resource × ℕ × ℕ)

abbrev pub room_for : Resource → ℕ → ℕ → Blocks → Bool
room_for r h n [] = false
room_for r h n ((q, g, size) ∷ blocks) = (same r q && h == g && leb n size) || room_for r h n blocks

abbrev pub free_block : Resource → ℕ → Blocks → Blocks
free_block r h [] = []
free_block r h ((q, g, size) ∷ blocks) =
    if same r q && h == g then blocks else (q, g, size) ∷ free_block r h blocks

unfoldable pub fills_fit : List Event → Blocks → Bool
fills_fit [] blocks = true
fills_fit (allocated r h n ∷ es) blocks = fills_fit es ((r, h, n) ∷ blocks)
fills_fit (filled r h n ∷ es) blocks = room_for r h n blocks && fills_fit es blocks
fills_fit (released r h ∷ es) blocks = fills_fit es (free_block r h blocks)
fills_fit (obtained r h ∷ es) blocks = fills_fit es blocks
fills_fit (refused r ∷ es) blocks = fills_fit es blocks
fills_fit (flushed h ∷ es) blocks = fills_fit es blocks
