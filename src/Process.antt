-- ===== src/Process.antt =====
-- What the user-space programs call: commands, file tests and system calls are parameters over a
-- world W.
use utsavbalar_linux_kernel.Base.{ℕ, List, ℤ}
use Prim.Native.String.{String}

abbrev pub M : Type 0 → Type 0 → Type 0
M W A = W → A × W

module _ {W A : Type 0} where
  abbrev pub pure : A → M W A
  pure a w = (a, w)

infixl 5 ◌>>=◌
abbrev pub ◌>>=◌ : {W A B : Type 0} → M W A → (A → M W B) → M W B
◌>>=◌ m f w = let (a, w') = m w in f a w'

-- `system` returns the status of the command, and `access(path, F_OK)` 0 if there is such a file.
pub record Shell (W : Type 0) : Type 0 where
  pub system : String → M W ℤ
  pub access : String → M W ℤ

pub data Mode : Type 0 where
  rdonly wronly : Mode

-- The system calls on a device: `open` of its file, `lseek` with SEEK_SET, `read` with the
-- bytes that it delivers, `write` and `close`.
pub record Syscalls (W : Type 0) : Type 0 where
  pub sys_open : Mode → M W ℤ
  pub sys_lseek : ℤ → ℤ → M W ℤ
  pub sys_read : ℤ → ℕ → M W (ℤ × List ℕ)
  pub sys_write : ℤ → List ℕ → M W ℤ
  pub sys_close : ℤ → M W (Unit {0})
