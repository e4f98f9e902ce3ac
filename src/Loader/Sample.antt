-- ===== src/Loader/Sample.antt =====
-- A small world for the tests: is the module loaded, and is it built?
use utsavbalar_linux_kernel.Base.{Bool, true, false, ◌&&◌, ◌||◌, not, if◌then◌else◌, ℤ, pos}
use Prim.Native.String.{String}
use text.Mathlib.Text.{◌==◌ as str_eq}
use utsavbalar_linux_kernel.Process.{Shell}
use utsavbalar_linux_kernel.Loader.{Names}

pub record World : Type 0 where
  pub loaded : Bool
  pub built : Bool

abbrev pub status_of : Bool → ℤ
status_of true = pos 0
status_of false = pos 256

-- `rmmod` and `insmod` do what they can; `make` always builds.
abbrev pub run : Names → String → World → ℤ × World
run n command w =
    if str_eq command n.lsmod
    then (status_of w.loaded, w)
    else if str_eq command n.rmmod
    then (status_of w.loaded, record w { loaded = false })
    else if str_eq command n.insmod
    then (status_of (w.built && not w.loaded), record w { loaded = w.loaded || w.built })
    else if str_eq command "make"
    then (pos 0, record w { built = true })
    else (pos 0, w)

abbrev pub look : Names → String → World → ℤ × World
look n path w = if str_eq path n.ko then (status_of w.built, w) else (status_of w.loaded, w)

abbrev pub shell : Names → Shell World
shell n = record { system = run n; access = look n }
