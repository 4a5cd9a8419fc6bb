-- ===== src/Wire/Faults.antt =====
-- The errors of protocol/core/read_writer.go that are kept, and the calls that look at them.
use srtmp.Prelude.{ℕ, zero, suc, ◌+◌, ◌*◌, ◌/◌, ◌^◌, ◌≡◌, List, [], ◌∷◌, some}
use srtmp.Prelude.{Error, Result, ok, err, panic, arith, shl32, add32}
use srtmp.Wire.{ReadWriter, Io, then_io, note_write_error, write, read, write_status, flush}
use srtmp.Wire.{write_uint_be, write_uint_be_loop, write_uint_le, write_uint_le_loop}
use srtmp.Wire.{read_uint_be, read_uint_be_loop, read_uint_le, read_uint_le_loop}
use srtmp.Wire.Reads.{feed}

-- Where a call's error is noted at once, and the rest notes its own, the whole notes it.
note-then :
    (r : Result (Unit {0}) × ReadWriter) (k : Io (Unit {0})) {e : Error}
    → ((s : ReadWriter) → (k s).0 ≡ err e → (k s).1.write_error ≡ some e)
    → (then_io (note_write_error r) k).0 ≡ err e
    → (then_io (note_write_error r) k).1.write_error ≡ some e
unfolding note_write_error
note-then (ok u, s) k later h = later s h
note-then (err x, s) k later h = cc
note-then (panic, s) k later h = cc

write_uint_be_loop-err :
    (n v : ℕ) (s : ReadWriter) {e : Error}
    → (write_uint_be_loop n v s).0 ≡ err e
    → (write_uint_be_loop n v s).1.write_error ≡ some e
unfolding write_uint_be_loop
write_uint_be_loop-err zero v s h = cc
write_uint_be_loop-err (suc n) v s h =
    note-then _ (write_uint_be_loop n v) (λ t k. write_uint_be_loop-err n v t k) h

write_uint_le_loop-err :
    (n v : ℕ) (s : ReadWriter) {e : Error}
    → (write_uint_le_loop n v s).0 ≡ err e
    → (write_uint_le_loop n v s).1.write_error ≡ some e
unfolding write_uint_le_loop
write_uint_le_loop-err zero v s h = cc
write_uint_le_loop-err (suc n) v s h =
    note-then _ (write_uint_le_loop n (v / 2 ^ 8)) (λ t k. write_uint_le_loop-err n (v / 2 ^ 8) t k)
      h

-- A state with a kept error refuses the calls that look at it, and does not change.
abbrev pub RefusesWrites : Error → ReadWriter → Type 0
RefusesWrites e s =
    (m u : ℕ) (p : List ℕ)
    → (write_uint_be u m s ≡ (err e, s))
      × (write_uint_le u m s ≡ (err e, s))
      × (write p s ≡ (err e, s))
      × (flush s ≡ (err e, s))
      × (write_status s ≡ err e)

kept-RefusesWrites : (s : ReadWriter) {e : Error} → s.write_error ≡ some e → RefusesWrites e s
unfolding write_uint_be write_uint_le write flush write_status
kept-RefusesWrites s h m u p = ground arith

write_uint_be-err :
    (v n : ℕ) (s : ReadWriter) {e : Error}
    → (write_uint_be v n s).0 ≡ err e
    → (write_uint_be v n s).1.write_error ≡ some e
unfolding write_uint_be
write_uint_be-err v n s {e} h = ground (arith, write_uint_be_loop-err n v s {e = e})

write_uint_le-err :
    (v n : ℕ) (s : ReadWriter) {e : Error}
    → (write_uint_le v n s).0 ≡ err e
    → (write_uint_le v n s).1.write_error ≡ some e
unfolding write_uint_le
write_uint_le-err v n s {e} h = ground (arith, write_uint_le_loop-err n v s {e = e})

-- Once WriteUintBE or WriteUintLE has returned an error, WriteUintBE, WriteUintLE, Write, Flush and
-- WriteError return the same error, and nothing changes.
pub write_errors_kept :
    (v n w k : ℕ) (s t : ReadWriter) {e d : Error}
    → (write_uint_be v n s).0 ≡ err e
    → (write_uint_le w k t).0 ≡ err d
    → RefusesWrites e (write_uint_be v n s).1 × RefusesWrites d (write_uint_le w k t).1
write_errors_kept v n w k s t h g = (
  kept-RefusesWrites _ (write_uint_be-err v n s h),
  kept-RefusesWrites _ (write_uint_le-err w k t g),
)

read_uint_be_loop-err :
    (n ret : ℕ) (input : List ℕ) (s : ReadWriter) {e : Error}
    → (read_uint_be_loop n ret (feed input s)).0 ≡ err e
    → (read_uint_be_loop n ret (feed input s)).1.read_error ≡ some e
unfolding read_uint_be_loop
read_uint_be_loop-err zero ret input s h = cc
read_uint_be_loop-err (suc n) ret [] s h = cc
read_uint_be_loop-err (suc n) ret (b ∷ bs) s h =
    read_uint_be_loop-err n (add32 (shl32 ret 8) b) bs s h

read_uint_le_loop-err :
    (n i ret : ℕ) (input : List ℕ) (s : ReadWriter) {e : Error}
    → (read_uint_le_loop n i ret (feed input s)).0 ≡ err e
    → (read_uint_le_loop n i ret (feed input s)).1.read_error ≡ some e
unfolding read_uint_le_loop
read_uint_le_loop-err zero i ret input s h = cc
read_uint_le_loop-err (suc n) i ret [] s h = cc
read_uint_le_loop-err (suc n) i ret (b ∷ bs) s h =
    read_uint_le_loop-err n (i + 1) (add32 ret (shl32 b (i * 8))) bs s h

abbrev pub RefusesReads : Error → ReadWriter → Type 0
RefusesReads e s =
    (m : ℕ)
    → (read_uint_be m s ≡ (err e, s)) × (read_uint_le m s ≡ (err e, s)) × (read m s ≡ (err e, s))

kept-RefusesReads : (s : ReadWriter) {e : Error} → s.read_error ≡ some e → RefusesReads e s
unfolding read_uint_be read_uint_le read
kept-RefusesReads s h m = ground arith

read_uint_be-err :
    (n : ℕ) (s : ReadWriter) {e : Error}
    → (read_uint_be n s).0 ≡ err e
    → (read_uint_be n s).1.read_error ≡ some e
unfolding read_uint_be
read_uint_be-err n s {e} h = ground (arith, read_uint_be_loop-err n 0 s.input s {e = e})

read_uint_le-err :
    (n : ℕ) (s : ReadWriter) {e : Error}
    → (read_uint_le n s).0 ≡ err e
    → (read_uint_le n s).1.read_error ≡ some e
unfolding read_uint_le
read_uint_le-err n s {e} h = ground (arith, read_uint_le_loop-err n 0 0 s.input s {e = e})

read-err :
    (n : ℕ) (s : ReadWriter) {e : Error} → (read n s).0 ≡ err e → (read n s).1.read_error ≡ some e
unfolding read
read-err n s h = ground arith

-- Once Read, ReadUintBE or ReadUintLE has returned an error, these three return the same error, and
-- nothing changes.
pub read_errors_kept :
    (m n k : ℕ) (s t u : ReadWriter) {e d c : Error}
    → (read_uint_be m s).0 ≡ err e
    → (read_uint_le n t).0 ≡ err d
    → (read k u).0 ≡ err c
    → RefusesReads e (read_uint_be m s).1
      × RefusesReads d (read_uint_le n t).1
      × RefusesReads c (read k u).1
read_errors_kept m n k s t u h g f = (
  kept-RefusesReads _ (read_uint_be-err m s h),
  kept-RefusesReads _ (read_uint_le-err n t g),
  kept-RefusesReads _ (read-err k u f),
)
