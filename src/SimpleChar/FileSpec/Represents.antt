-- ===== src/SimpleChar/FileSpec/Represents.antt =====
-- A buffer and positions of tutorial-02/simple_char.c as the file of SimpleChar/FileSpec: what one
-- handler does to the file that they represent.
use utsavbalar_linux_kernel.Base.{
  ℕ, zero, suc, ◌+◌, ◌≤◌, ◌<◌, ◌≡◌, refl, ap, ◌∙◌, inl, inr, some, List, [], arith, ◌==◌,
  Bool-cases, length, get_or, take, drop, length-take, length-drop, get_or-take, get_or-drop,
  eq_of_get_or, ℤ, pos,
}
use utsavbalar_linux_kernel.Kernel.{UserAccess, IsUserAccess, same}
use utsavbalar_linux_kernel.SimpleChar.{
  buffer_size, char_read, WriteResult, Whence, char_write, char_llseek, other, seek_set, seek_cur,
  seek_end,
}
use utsavbalar_linux_kernel.SimpleChar.Bounds.{
  char_read_lem, moved, char_write_full, char_write_lem,
}
use utsavbalar_linux_kernel.SimpleChar.Seek.{IsLoff, goal, char_llseek_lem}
use utsavbalar_linux_kernel.SimpleChar.Session.{State}
use utsavbalar_linux_kernel.SimpleChar.FileSpec.{
  File, range, room, sent, overwrite, seek_outcome, write_outcome, taken,
}
use utsavbalar_linux_kernel.SimpleChar.Bounds.{char_write_lem, char_write_full, moved}
use utsavbalar_linux_kernel.SimpleChar.Contents.{length-written, get_or-written}

-- The buffer holds the bytes of the file, and the positions are its positions.
pub record Repr (s : State) (f : File) : Type 0 where
  pub whole : length s.device_buffer ≡ buffer_size
  pub same_bytes : (i : ℕ) → i < buffer_size → get_or s.device_buffer i 0 ≡ f.byte i
  pub same_positions : (fd : ℕ) → s.f_pos fd ≡ pos (f.position fd)
  pub in_file : (fd : ℕ) → f.position fd ≤ buffer_size

length-range : (byte : ℕ → ℕ) (p n : ℕ) → length (range byte p n) ≡ n
length-range byte p zero = refl
length-range byte p (suc n) = ap suc (length-range byte (p + 1) n)

get_or-range : (byte : ℕ → ℕ) (p n i : ℕ) → i < n → get_or (range byte p n) i 0 ≡ byte (p + i)
get_or-range byte p zero i h = elim h [ ]
get_or-range byte p (suc n) zero h = ap byte (omega arith)
get_or-range byte p (suc n) (suc i) h =
    let e : p + 1 + i ≡ p + suc i = omega arith in
    get_or-range byte (p + 1) n i (omega arith) ∙ ap byte e

-- A stretch of the buffer is the bytes of the file there.
take-drop-range :
    (array : List ℕ) (byte : ℕ → ℕ) (p n : ℕ)
    → ((i : ℕ) → i < length array → get_or array i 0 ≡ byte i)
    → p + n ≤ length array
    → take n (drop p array) ≡ range byte p n
take-drop-range array byte p n same fits =
    eq_of_get_or 0 (take n (drop p array)) (range byte p n)
      (omega (arith, length-take n (drop p array), length-drop p array, length-range byte p n))
      (λ i lt.
        let small : i < n = omega (arith, length-take n (drop p array)) in
        ground (
          arith,
          get_or-take n (drop p array) i 0,
          get_or-drop p array i 0,
          same (p + i) (omega arith),
          get_or-range byte p n i small,
        ))

module _ (k : UserAccess) (lawful : IsUserAccess k) where
  pub read_refines :
      (s : State) (f : File) (to count p : ℕ)
      → Repr s f
      → p ≤ buffer_size
      → let n = sent k f.byte to count p in
        char_read k s.device_buffer to count (pos p)
        ≡ some (record { delivered = range f.byte p n; offset = pos (p + n); ret = pos n })
  read_refines s f to count p r h =
      let m = room p count in
      let n = sent k f.byte to count p in
      let same =
        λ (i : ℕ) (lt : i < length s.device_buffer). r.same_bytes i (omega (arith, r.whole)) in
      let whole = r.whole in
      ground (
        arith,
        take-drop-range s.device_buffer f.byte p m same (omega arith),
        take-drop-range s.device_buffer f.byte p n same (omega arith),
        char_read_lem k s.device_buffer to count p r.whole h,
      )

  -- What a write leaves, in terms of the file.
  pub record IsWritten (f : File) (from count p : ℕ) (w : WriteResult) : Type 0 where
    pub whole : length w.device_buffer ≡ buffer_size
    pub bytes :
        (i : ℕ) → i < buffer_size → get_or w.device_buffer i 0 ≡ overwrite k f.byte from count p i
    pub offset : w.offset ≡ pos (p + taken k from count p)
    pub ret : w.ret ≡ (write_outcome k from count p).ret

  pub write_refines :
      (s : State) (f : File) (from count p : ℕ)
      → Repr s f
      → p ≤ buffer_size
      → (w : WriteResult) × (char_write k s.device_buffer from count (pos p) ≡ some w)
        × IsWritten f from count p w
  write_refines s f from count p r h = elim (Bool-cases (moved p count == 0)) [
    | inl full ↦ (
      _,
      char_write_full k s.device_buffer from count p h (ground arith),
      record {
        whole = r.whole;
        bytes = λ i lt. ground (arith, r.same_bytes i lt);
        offset = ground arith;
        ret = ground arith;
      },
    )
    | inr space ↦ (
      _,
      char_write_lem k lawful s.device_buffer from count p r.whole (ground arith) (ground arith),
      record {
        whole = length-written k lawful s.device_buffer from count p r.whole h;
        bytes = λ i lt. ground (
          arith,
          r.same_bytes i lt,
          get_or-written k lawful s.device_buffer from count p i r.whole h,
        );
        offset = refl;
        ret = ground arith;
      },
    )
  ]

  pub seek_refines :
      (p : ℕ) (offset : ℤ) (whence : Whence)
      → p ≤ buffer_size
      → IsLoff offset
      → let (q, o) = seek_outcome p (goal (pos p) offset whence) in
        (char_llseek (pos p) offset whence ≡ (pos q, o.ret))
        × (o.delivered ≡ [])
        × (q ≤ buffer_size)
  seek_refines p offset seek_set h in_range =
      ground (arith, char_llseek_lem p offset seek_set h in_range)
  seek_refines p offset seek_cur h in_range =
      ground (arith, char_llseek_lem p offset seek_cur h in_range)
  seek_refines p offset seek_end h in_range =
      ground (arith, char_llseek_lem p offset seek_end h in_range)
  seek_refines p offset (other w) h in_range =
      ground (arith, char_llseek_lem p offset (other w) h in_range)
