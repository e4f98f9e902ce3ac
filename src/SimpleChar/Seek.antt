-- ===== src/SimpleChar/Seek.antt =====
-- `char_llseek` of tutorial-02/simple_char.c against its description over unbounded integers.
use utsavbalar_linux_kernel.Base.{
  ℕ, ◌-◌, ◌^◌, ◌≤◌, ◌≡◌, ◌&&◌, Option, none, some, arith, leb, if◌then◌else◌, ◌+ℤ◌, ◌≤ℤ◌, leb_ℤ, ℤ,
  pos, negsuc,
}
use utsavbalar_linux_kernel.Kernel.{einval}
use utsavbalar_linux_kernel.SimpleChar.{
  Whence, seek_set, seek_cur, seek_end, other, buffer_size, char_llseek,
}

-- The values of `loff_t`.
abbrev pub IsLoff : ℤ → Type 0
IsLoff x = (negsuc (2 ^ 63 - 1) ≤ℤ x) × (x ≤ℤ pos (2 ^ 63 - 1))

-- The position asked for, with no overflow.
abbrev pub goal : ℤ → ℤ → Whence → Option ℤ
goal f_pos offset seek_set = some offset
goal f_pos offset seek_cur = some (f_pos +ℤ offset)
goal f_pos offset seek_end = some (pos buffer_size +ℤ offset)
goal f_pos offset (other _) = none

-- A seek goes to a position from 0 to the size of the buffer, and refuses any other.
abbrev pub accept : ℤ → Option ℤ → ℤ × ℤ
accept f_pos none = (f_pos, einval)
accept f_pos (some t) =
    if leb_ℤ (pos 0) t && leb_ℤ t (pos buffer_size) then (t, t) else (f_pos, einval)

-- From a position in the file, every `whence` and every 64-bit offset give exactly the described
-- seek, also where the sum wraps around.
pub char_llseek_lem :
    (o : ℕ) (offset : ℤ) (whence : Whence)
    → o ≤ buffer_size
    → IsLoff offset
    → char_llseek (pos o) offset whence ≡ accept (pos o) (goal (pos o) offset whence)
unfolding char_llseek ◌+ℤ◌
char_llseek_lem o offset seek_set h range = ground arith
char_llseek_lem o offset seek_cur h range = ground arith
char_llseek_lem o offset seek_end h range = ground arith
char_llseek_lem o offset (other w) h range = ground arith

-- A seek from the start of the file.
pub char_llseek_set :
    (f_pos : ℤ) (o : ℕ)
    → char_llseek f_pos (pos o) seek_set
      ≡ (if leb o buffer_size then (pos o, pos o) else (f_pos, einval))
unfolding char_llseek
char_llseek_set f_pos o = ground arith
