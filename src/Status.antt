-- ===== src/Status.antt =====
-- The common end of `sync_demo_read` (tutorial-04/sync_demo.c) and `irq_demo_read`
-- (tutorial-05/irq_demo.c): print a status text into `device_buffer`, and send the part of it that
-- the file position and the count ask for.
pub mod Calls
use utsavbalar_linux_kernel.Base.{
  ℕ, zero, suc, ◌+◌, ◌-◌, ◌≤◌, ◌<◌, min, ◌≡◌, refl, ap, ◌∙◌, Option, none, some, List, [], ◌∷◌,
  ◌++◌, append_assoc, arith, if◌then◌else◌, length, take, drop, length-append, length-take,
  take_all, take-take, pos_part, ◌+ℤ◌, ◌-ℤ◌, leb_ℤ, to_size_t, to_int, ℤ, pos,
}
use utsavbalar_linux_kernel.Kernel.{UserAccess, bytes_at, splice, length-splice, bytes_at_inside}
use native.Mathlib.Decide.{dec_le}
use utsavbalar_linux_kernel.Text.{snprintf_bytes}

-- BUFFER_SIZE of both drivers.
abbrev pub buffer_size : ℕ
buffer_size = 1024

pub record StatusResult : Type 0 where
  pub delivered : List ℕ  -- what reached user memory
  pub device_buffer : List ℕ
  pub offset : ℤ
  pub ret : ℤ

-- `min((size_t)(len - *offset), count)`, stored in an int.
unfoldable pub asked : ℕ → ℤ → ℕ → ℤ
asked len offset count = to_int (min (to_size_t (pos len -ℤ offset)) count)

asked_before :
    (len o count : ℕ)
    → o < len
    → len < buffer_size
    → asked len (pos o) count ≡ pos (min (len - o) count)
unfolding asked ◌-ℤ◌
asked_before len o count h fits = ground arith

-- The copy to the user, of bytes of the printed buffer. `none` is an access outside the buffer.
unfoldable pub send : UserAccess → ℕ → List ℕ → ℕ → ℕ → ℤ → Option StatusResult
send k len printed user_buffer count offset =
    let n = pos_part (asked len offset count) in
    elim (bytes_at printed offset n) [
      | none ↦ none
      | some bytes ↦
          let bytes_not_copied = k.copy_to_user user_buffer bytes in
          some (record {
            delivered = take (n - bytes_not_copied) bytes;
            device_buffer = printed;
            offset = offset +ℤ pos (n - bytes_not_copied);
            ret = pos (n - bytes_not_copied);
          })
    ]

unfoldable pub serve : UserAccess → List ℕ → List ℕ → ℕ → ℕ → ℤ → Option StatusResult
serve k text device_buffer user_buffer count offset =
    let printed = splice device_buffer 0 (snprintf_bytes buffer_size text) in
    let len = length text in
    if leb_ℤ (pos len) offset
    then some (record { delivered = []; device_buffer = printed; offset = offset; ret = pos 0 })
    else send k len printed user_buffer count offset

-- The bytes of a text from o on that a count asks for, less those that fault.
abbrev pub shown : UserAccess → List ℕ → ℕ → ℕ → ℕ → ℕ
shown k text user_buffer count o =
    let n = min (length text - o) count in n - k.copy_to_user user_buffer (take n (drop o text))

take-drop-append :
    (m o : ℕ) (xs ys : List ℕ) → o + m ≤ length xs → take m (drop o (xs ++ ys)) ≡ take m (drop o xs)
take-drop-append zero o xs ys h = refl
take-drop-append (suc m) zero [] ys h = absurd (omega arith)
take-drop-append (suc m) zero (x ∷ xs) ys h =
    ap (λ l. x ∷ l) (take-drop-append m zero xs ys (omega arith))
take-drop-append (suc m) (suc o) [] ys h = absurd (omega arith)
take-drop-append (suc m) (suc o) (x ∷ xs) ys h = take-drop-append (suc m) o xs ys (omega arith)

-- The text as it stands in the buffer.
printed_text :
    (text device_buffer : List ℕ) (m o : ℕ)
    → length device_buffer ≡ buffer_size
    → length text < buffer_size
    → o + m ≤ length text
    → bytes_at (splice device_buffer 0 (snprintf_bytes buffer_size text)) (pos o) m
      ≡ some (take m (drop o text))
printed_text text device_buffer m o len fits h =
    let stored = snprintf_bytes buffer_size text in
    let printed = splice device_buffer 0 stored in
    let tail = (0 ∷ []) ++ drop (0 + length stored) device_buffer in
    let whole : take (buffer_size - 1) text ≡ text =
      take_all (buffer_size - 1) text (omega arith) in
    let size : length stored ≡ length text + 1 = omega (
      arith,
      length-append (take (buffer_size - 1) text) (0 ∷ []),
      length-take (buffer_size - 1) text,
    ) in
    let split : printed ≡ text ++ tail =
      append_assoc _ (0 ∷ []) (drop (0 + length stored) device_buffer)
      ∙ ap (λ l. l ++ tail) whole in
    bytes_at_inside printed o m (omega (arith, length-splice device_buffer 0 stored (omega arith)))
    ∙ ap (λ l. some (take m (drop o l))) split
    ∙ ap some (take-drop-append m o text tail h)

-- The result of a read at o.
abbrev pub answer : UserAccess → List ℕ → List ℕ → ℕ → ℕ → ℕ → StatusResult
answer k text device_buffer user_buffer count o =
    let n = shown k text user_buffer count o in
    record {
      delivered = take n (drop o text);
      device_buffer = splice device_buffer 0 (snprintf_bytes buffer_size text);
      offset = pos (o + n);
      ret = pos n;
    }

module _ (k : UserAccess) (text device_buffer : List ℕ) (user_buffer count o : ℕ)
    (len : length device_buffer ≡ buffer_size) (fits : length text < buffer_size) where
  send_lem :
      o < length text
      → send k
          (length text)
          (splice device_buffer 0 (snprintf_bytes buffer_size text))
          user_buffer
          count
          (pos o)
        ≡ some (answer k text device_buffer user_buffer count o)
  unfolding send ◌+ℤ◌
  send_lem before =
      let m = min (length text - o) count in
      ground (
        arith,
        asked_before (length text) o count before fits,
        printed_text text device_buffer m o len fits (omega arith),
        take-take (m - k.copy_to_user user_buffer (take m (drop o text))) m (drop o text)
            (omega arith),
      )

  serve_past :
      length text ≤ o
      → serve k text device_buffer user_buffer count (pos o)
        ≡ some (answer k text device_buffer user_buffer count o)
  unfolding serve
  serve_past past =
      let none_left : shown k text user_buffer count o ≡ 0 = omega arith in ground arith

  -- At every position, also beyond the text, the read stays inside the buffer and sends the bytes of
  -- the text from there on.
  pub serve_lem :
      serve k text device_buffer user_buffer count (pos o)
      ≡ some (answer k text device_buffer user_buffer count o)
  unfolding serve
  serve_lem = elim (dec_le (length text) o) [
    | yes past ↦ serve_past past
    | no before ↦ ground (arith, send_lem (omega arith))
  ]
