-- ===== src/Status/Calls/Refines.antt =====
-- The calls on a status device are those on its file.
use utsavbalar_linux_kernel.Base.{
  ℕ, ◌+◌, ◌-◌, ◌<◌, ◌≡◌, refl, ap, ◌∙◌, Option, none, some, List, [], ◌∷◌, arith, length,
  length-append, length-take, take, ℤ, pos,
}
use utsavbalar_linux_kernel.Kernel.{UserAccess, splice, length-splice}
use utsavbalar_linux_kernel.Text.{snprintf_bytes}
use utsavbalar_linux_kernel.Status.{StatusResult, serve, shown, answer, buffer_size, serve_lem}
use utsavbalar_linux_kernel.Status.Calls.{
  Table, Call, open_file, release_file, read, pread, write, others, Outcome, State, put_at,
  returned, read_into, call, run_calls, File, spec_call, spec_calls,
}
use mathlib.Core.Option

-- The read of a table sends a status text that fits the buffer.
pub record IsStatus {S : Type 0} (h : Table S) (text : S → List ℕ) : Type 0 where
  pub serves :
      (k : UserAccess) (s : S) (device_buffer : List ℕ) (to count : ℕ) (offset : ℤ)
      → h.read_handler k s device_buffer to count offset
        ≡ serve k (text s) device_buffer to count offset
  pub fits : (s : S) → length (text s) < buffer_size

length-printed :
    (text device_buffer : List ℕ)
    → length device_buffer ≡ buffer_size
    → length text < buffer_size
    → length (splice device_buffer 0 (snprintf_bytes buffer_size text)) ≡ buffer_size
length-printed text device_buffer len h =
    let stored = snprintf_bytes buffer_size text in
    length-splice device_buffer 0 stored (
      omega (
        arith,
        length-append (take (buffer_size - 1) text) (0 ∷ []),
        length-take (buffer_size - 1) text,
      ))
    ∙ len

module _ {S : Type 0} where
  -- The buffer can hold anything.
  pub record Represents (s : State S) (f : File S) : Type 0 where
    pub same_kept : s.kept ≡ f.kept
    pub size : length s.device_buffer ≡ buffer_size
    pub same_at : (fd : ℕ) → s.f_pos fd ≡ pos (f.at fd)

put_at-pos :
    (f : ℕ → ℤ) (g : ℕ → ℕ) (i n : ℕ)
    → ((j : ℕ) → f j ≡ pos (g j))
    → (j : ℕ) → put_at f i (pos n) j ≡ pos (put_at g i n j)
put_at-pos f g i n h j = ground (arith, h j)

module _ {S : Type 0} (h : Table S) (text : S → List ℕ) (lawful : IsStatus h text)
    (k : UserAccess) where
  open lawful use {serves, fits}

  -- A read of the device at o, as a result.
  read_handler_lem :
      (s : S) (device_buffer : List ℕ) (to count o : ℕ)
      → length device_buffer ≡ buffer_size
      → h.read_handler k s device_buffer to count (pos o)
        ≡ some (answer k (text s) device_buffer to count o)
  read_handler_lem s device_buffer to count o len =
      serves k s device_buffer to count (pos o)
      ∙ serve_lem k (text s) device_buffer to count o len (fits s)

  -- The same at a place of the file that a device stands for.
  read_represented :
      (s : State S) (f : File S) (to count o : ℕ) (offset : ℤ)
      → Represents s f
      → offset ≡ pos o
      → h.read_handler k s.kept s.device_buffer to count offset
        ≡ some (answer k (text f.kept) s.device_buffer to count o)
  read_represented s f to count o offset r at_o =
      ap (λ z. h.read_handler k s.kept s.device_buffer to count z) at_o
      ∙ ap (λ kept. h.read_handler k kept s.device_buffer to count (pos o)) r.same_kept
      ∙ read_handler_lem f.kept s.device_buffer to count o r.size

  call_lem :
      (c : Call S) (s : State S) (f : File S)
      → Represents s f
      → let (g, o) = spec_call text h k c f in
        (t : State S) × (call h k c s ≡ some (t, o)) × Represents t g
  unfolding call
  call_lem (open_file fd) s f r = (
    _,
    refl,
    record {
      same_kept = r.same_kept;
      size = r.size;
      same_at = put_at-pos s.f_pos f.at fd 0 r.same_at;
    },
  )
  call_lem (release_file fd) s f r = (s, refl, r)
  call_lem (read fd to count) s f r =
      let o = f.at fd in
      let o' = o + shown k (text f.kept) to count o in
      (
        _,
        ap (Option.map (λ (a : StatusResult). read_into s (put_at s.f_pos fd a.offset) a))
            (read_represented s f to count o (s.f_pos fd) r (r.same_at fd)),
        record {
          same_kept = r.same_kept;
          size = length-printed (text f.kept) s.device_buffer r.size (fits f.kept);
          same_at = put_at-pos s.f_pos f.at fd o' r.same_at;
        },
      )
  call_lem (pread to count position) s f r = (
    _,
    ap (Option.map (λ (a : StatusResult). read_into s s.f_pos a))
        (read_represented s f to count position (pos position) r refl),
    record {
      same_kept = r.same_kept;
      size = length-printed (text f.kept) s.device_buffer r.size (fits f.kept);
      same_at = r.same_at;
    },
  )
  call_lem (write now from count) s f r =
      let after : S → S × ℤ = λ kept. h.write_handler k now kept from count in
      (
        _,
        ap (λ kept. some (record s { kept = (after kept).0 }, returned (after kept).1)) r.same_kept,
        record { same_kept = refl; size = r.size; same_at = r.same_at },
      )
  call_lem (others g) s f r =
      (_, refl, record { same_kept = ap g r.same_kept; size = r.size; same_at = r.same_at })

  -- Any sequence of calls on a status device, by any processes, on any open files, with any counts,
  -- positions and faults, and with a thread or interrupts in between, runs to its end: no call leaves
  -- the buffer. Each call has the outcome of the same call on the file whose content is the status
  -- text of the moment; what the buffer held, before the first call or after another, is never seen.
  pub run_calls_lem :
      (cs : List (Call S)) (s : State S) (f : File S)
      → Represents s f
      → let (g, os) = spec_calls text h k cs f in
        (t : State S) × (run_calls h k cs s ≡ some (t, os)) × Represents t g
  unfolding run_calls
  run_calls_lem [] s f r = (s, refl, r)
  run_calls_lem (c ∷ cs) s f r =
      let (g, o) = spec_call text h k c f in
      let (s1, e1, r1) = call_lem c s f r in
      let (t, e2, r2) = run_calls_lem cs s1 g r1 in
      (
        t,
        ap
              (λ (x : Option (State S × Outcome)).
                elim x as (λ _. Option (State S × List Outcome)) [
                  | none ↦ none
                  | some (s', o') ↦
                      Option.map (λ (e : State S × List Outcome). (e.0, o' ∷ e.1))
                        (run_calls h k cs s')
                ])
              e1
            ∙ ap (Option.map (λ (e : State S × List Outcome). (e.0, o ∷ e.1))) e2,
        r2,
      )
