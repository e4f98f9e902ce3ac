-- ===== src/SimpleChar.antt =====
-- tutorial-02/simple_char.c: a character device over a buffer of 1024 bytes.
-- A handler takes the global `device_buffer`, the file position behind `offset` and its arguments,
-- and gives what it leaves there with its return value. `none` is an access outside the buffer.
pub mod Bounds
pub mod Seek
pub mod Contents
pub mod Drain
pub mod Session
pub mod Calls
pub mod FileSpec
pub mod Setup
mod Tests
use utsavbalar_linux_kernel.Base.{
  ℕ, ◌-◌, min, ◌||◌, Option, none, some, List, [], if◌then◌else◌, take, pos_part, ◌+ℤ◌, ◌-ℤ◌, ltb_ℤ,
  leb_ℤ, is_neg, to_size_t, to_loff_t, to_int, ℤ, pos,
}
use utsavbalar_linux_kernel.Kernel.{einval, enospc, UserAccess, bytes_at, store_at}

abbrev pub buffer_size : ℕ
buffer_size = 1024

pub data Whence : Type 0 where
  seek_set seek_cur seek_end : Whence
  other : ℕ → Whence

pub record ReadResult : Type 0 where
  pub delivered : List ℕ  -- what reached user memory
  pub offset : ℤ
  pub ret : ℤ

pub record WriteResult : Type 0 where
  pub device_buffer : List ℕ
  pub offset : ℤ
  pub ret : ℤ

-- `min((size_t)(BUFFER_SIZE - *offset), count)`, stored in an int.
pub bytes_to_move : ℤ → ℕ → ℤ
bytes_to_move offset count = to_int (min (to_size_t (pos buffer_size -ℤ offset)) count)

pub char_open : ℤ
char_open = pos 0

pub char_release : ℤ
char_release = pos 0

-- The part of `char_read` after the bytes to send are known.
abbrev pub finish_read : UserAccess → ℕ → ℤ → ℕ → List ℕ → ReadResult
finish_read k user_buffer offset n bytes =
    let bytes_not_copied = k.copy_to_user user_buffer bytes in
    record {
      delivered = take (n - bytes_not_copied) bytes;
      offset = offset +ℤ pos (n - bytes_not_copied);
      ret = pos (n - bytes_not_copied);
    }

pub char_read : UserAccess → List ℕ → ℕ → ℕ → ℤ → Option ReadResult
char_read k device_buffer user_buffer count offset =
    let bytes_to_read = bytes_to_move offset count in
    if leb_ℤ bytes_to_read (pos 0)
    then some (record { delivered = []; offset = offset; ret = pos 0 })
    else elim (bytes_at device_buffer offset (pos_part bytes_to_read)) [
      | none ↦ none
      | some bytes ↦ some (finish_read k user_buffer offset (pos_part bytes_to_read) bytes)
    ]

pub char_write : UserAccess → List ℕ → ℕ → ℕ → ℤ → Option WriteResult
char_write k device_buffer user_buffer count offset =
    let bytes_to_write = bytes_to_move offset count in
    if leb_ℤ bytes_to_write (pos 0)
    then some (record { device_buffer = device_buffer; offset = offset; ret = enospc })
    else let n = pos_part bytes_to_write in
      let (bytes, bytes_not_copied) = k.copy_from_user user_buffer n in
      elim (store_at device_buffer offset bytes) [
        | none ↦ none
        | some stored ↦ some (record {
          device_buffer = stored;
          offset = offset +ℤ pos (n - bytes_not_copied);
          ret = pos (n - bytes_not_copied);
        })
      ]

-- The position that `whence` and `offset` name; `none` is the default case of the switch.
seek_target : ℤ → ℤ → Whence → Option ℤ
seek_target f_pos offset seek_set = some offset
seek_target f_pos offset seek_cur = some (to_loff_t (f_pos +ℤ offset))
seek_target f_pos offset seek_end = some (to_loff_t (pos buffer_size +ℤ offset))
seek_target f_pos offset (other _) = none

-- The new `file->f_pos` and the return value.
pub char_llseek : ℤ → ℤ → Whence → ℤ × ℤ
unfolding seek_target
char_llseek f_pos offset whence = elim (seek_target f_pos offset whence) [
  | none ↦ (f_pos, einval)
  | some new_pos ↦
      if is_neg new_pos || ltb_ℤ (pos buffer_size) new_pos
      then (f_pos, einval)
      else (new_pos, new_pos)
]
