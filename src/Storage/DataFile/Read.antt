-- ===== src/Storage/DataFile/Read.antt =====
-- ReadRaw returns the bytes of the file.
use mathlib.Core.Path.{subst}
use vec_fetch.Prelude.{
  ℕ, zero, suc, ◌+◌, ◌-◌, ◌≤◌, ◌<◌, ◌≡◌, ◌≢◌, ◌⊎◌, refl, sym, ap, ◌∙◌, arith, Bool-cases, inl, inr,
  List, ◌++◌, Option, none, some, Option-cases, ltb, ◌==◌, ==_iff, length, drop, drop-drop,
  take-append-take, ltb→lt,
}
use vec_fetch.Status.{StatusOr, value, failed, StatusCode}
use vec_fetch.Storage.DataFile.Reader.{
  InputFile, DataFileReader, slice, prepend, read_loop, read_fd, read_raw,
}

slice-split :
    (offset n count : ℕ) (bs : List ℕ)
    → n ≤ count
    → slice offset n bs ++ slice (offset + n) (count - n) bs ≡ slice offset count bs
slice-split offset n count bs h =
    rw (← drop-drop offset n bs) (take-append-take n count (drop offset bs) h)

-- No call of pread in the range fails.
abbrev pub Reads : InputFile → ℕ → ℕ → Type 0
Reads f offset count = (o n : ℕ) → offset ≤ o → o + n ≤ offset + count → f.pread o n ≢ none

read_loop_lem :
    (f : InputFile) (fuel offset count : ℕ)
    → count < fuel
    → Reads f offset count
    → offset + count ≤ length f.contents
    → read_loop f fuel offset count ≡ some (value (slice offset count f.contents))
unfolding read_loop prepend
read_loop_lem f zero offset count h r inside = absurd (omega arith)
read_loop_lem f (suc fuel) offset count h r inside = elim (Bool-cases (ltb 0 count)) [
  | inr done ↦ let nothing : count ≡ 0 = ground arith in rw nothing
  | inl more ↦ elim (Option-cases (f.pread offset count)) [
    | inl bad ↦ absurd (r offset count (omega arith) (omega arith) bad)
    | inr (n, run) ↦
        let (short, within) = f.pread_within offset count n run in
        elim (Bool-cases (n == 0)) [
          | inl none_read ↦
              let zero_read : n ≡ 0 = (==_iff n 0).0 none_read in
              let run₀ : f.pread offset count ≡ some 0 = run ∙ ap some zero_read in
              absurd (elim (f.pread_progress offset count run₀) [
                | inl nothing ↦ omega (arith, ltb→lt 0 count more)
                | inr end ↦ omega (arith, ltb→lt 0 count more)
              ])
          | inr some_read ↦
              let rest =
                read_loop_lem f fuel (offset + n) (count - n) (ground arith)
                  (λ o m lo hi. r o m (omega arith) (omega arith)) (omega arith) in
              rw (more, run, some_read, rest, slice-split offset n count f.contents short)
        ]
  ]
]

-- What a read can come to: the bytes asked for, all of them in the file, or an I/O error.
abbrev pub ReadOutcome : InputFile → ℕ → ℕ → Option (StatusOr (List ℕ)) → Type 0
ReadOutcome f offset count none = ⊥
ReadOutcome f offset count (some (value bs)) =
    (bs ≡ slice offset count f.contents) × ((count ≡ 0) ⊎ (offset + count ≤ length f.contents))
ReadOutcome f offset count (some (failed e)) = e.code ≡ StatusCode.io_error

ReadOutcome-prepend :
    (f : InputFile) (offset n count : ℕ) (r : Option (StatusOr (List ℕ)))
    → n ≤ count
    → offset + n ≤ length f.contents
    → ReadOutcome f (offset + n) (count - n) r
    → ReadOutcome f offset count (prepend (slice offset n f.contents) r)
unfolding prepend
ReadOutcome-prepend f offset n count (some (value bs)) short inside (same, range) = (
  ap (λ (l : List ℕ). slice offset n f.contents ++ l) same
      ∙ slice-split offset n count f.contents short,
  inr (elim range [ inl nothing ↦ omega arith | inr all ↦ omega arith ]),
)
ReadOutcome-prepend f offset n count (some (failed e)) short inside h = h
ReadOutcome-prepend f offset n count none short inside h = h

read_loop-ReadOutcome :
    (f : InputFile) (fuel offset count : ℕ)
    → count < fuel
    → ReadOutcome f offset count (read_loop f fuel offset count)
unfolding read_loop
read_loop-ReadOutcome f zero offset count h = absurd (omega arith)
read_loop-ReadOutcome f (suc fuel) offset count h = elim (Bool-cases (ltb 0 count)) [
  | inr done ↦ let nothing : count ≡ 0 = ground arith in rw done (rw nothing refl, inl nothing)
  | inl more ↦ elim (Option-cases (f.pread offset count)) [
    | inl bad ↦ rw (more, bad) refl
    | inr (n, run) ↦
        let (short, within) = f.pread_within offset count n run in
        elim (Bool-cases (n == 0)) [
          | inl none_read ↦ rw (more, run, none_read) refl
          | inr some_read ↦
              let inside : offset + n ≤ length f.contents = elim within [
                | inl nothing ↦ absurd (ground arith)
                | inr all ↦ all
              ] in
              rw (more, run, some_read)
                (ReadOutcome-prepend f offset n count _ short inside
                  (read_loop-ReadOutcome f fuel (offset + n) (count - n) (ground arith)))
        ]
  ]
]

-- ReadRaw on an open file ends, whatever pread does: it gives exactly the bytes asked for, which then all
-- lie in the file, or an I/O error.
pub read_raw-ReadOutcome :
    (r : DataFileReader) (f : InputFile) (offset count : ℕ)
    → r.fd ≡ some f
    → ReadOutcome f offset count (read_raw r offset count)
unfolding read_raw read_fd
read_raw-ReadOutcome r f offset count opened =
    subst (λ fd. ReadOutcome f offset count (read_fd fd offset count)) (sym opened)
      (read_loop-ReadOutcome f (count + 1) offset count (omega arith))

pub read_raw_lem :
    (r : DataFileReader) (f : InputFile) (offset count : ℕ)
    → r.fd ≡ some f
    → Reads f offset count
    → offset + count ≤ length f.contents
    → read_raw r offset count ≡ some (value (slice offset count f.contents))
unfolding read_raw read_fd
read_raw_lem r f offset count opened reads inside =
    ap (λ fd. read_fd fd offset count) opened
    ∙ read_loop_lem f (count + 1) offset count (omega arith) reads inside
