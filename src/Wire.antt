-- ===== src/Wire.antt =====
-- The buffered connection: protocol/core/read_writer.go, over Go's bufio.
-- `input` is what the peer still delivers before it closes its side. `output` is all that was handed
-- to the bufio.Writer, of which the first `flushed` bytes were flushed by a call of Flush. The
-- connection takes `limit` bytes (`none`: any number) and fails from then on; `failed` is the
-- writer's sticky error. The size of the buffers is not modelled: a byte that the connection will
-- not take is refused when it is written, where bufio may refuse a later one.
use srtmp.Prelude.{ℕ, zero, suc, ◌+◌, ◌-◌, ◌*◌, ◌/◌, ◌%◌, ◌^◌, bit_and, Bool, true, false}
use srtmp.Prelude.{List, [], ◌∷◌, ◌++◌, length, take, drop, Option, none, some, leb, ◌==◌}
use srtmp.Prelude.{if◌then◌else◌, byte, shr, shl32, add32, Error, eof, unexpected_eof, broken_pipe}
use srtmp.Prelude.{Result, ok, err, panic}
mod Monad
pub use Monad.*
pub mod Writes
pub mod Reads
pub mod Faults

-- A write to the bufio.Writer: the part that the connection takes is written, and the first
-- failure is kept.
unfoldable pub buf_write : List ℕ → Io (Unit {0})
buf_write p s = if s.failed then (err broken_pipe, s) else elim s.limit [
  | none ↦ (ok tt, record s { output = s.output ++ p })
  | some l ↦
      if leb (length s.output + length p) l then (ok tt, record s { output = s.output ++ p }) else (
        err broken_pipe,
        record s { output = s.output ++ take (l - length s.output) p; failed = true },
      )
]

unfoldable pub read_byte : Io ℕ
read_byte s = elim s.input [ [] ↦ (err eof, s) | b ∷ bs ↦ (ok b, record s { input = bs }) ]

-- Read fills `n` bytes. On an error what has arrived is used up, and `read_part` is what the
-- caller's buffer holds of it.
unfoldable pub read : ℕ → Io (List ℕ)
read n s = elim s.read_error [
  | some e ↦ (err e, s)
  | none ↦
      if leb n (length s.input)
      then (ok (take n s.input), record s { input = drop n s.input })
      else (let e = if length s.input == 0 then eof else unexpected_eof in
          (err e, record s { input = []; read_error = some e }))
]

unfoldable pub read_part : ℕ → ReadWriter → List ℕ
read_part n s = elim s.read_error [ some e ↦ [] | none ↦ take n s.input ]

-- ReadUintBE: the loop over the bytes that are left to read, and the guard before it.
unfoldable pub read_uint_be_loop : ℕ → ℕ → Io ℕ
read_uint_be_loop zero ret s = (ok ret, s)
read_uint_be_loop (suc n) ret s = elim s.input [
  | [] ↦ (err eof, record s { read_error = some eof })
  | b ∷ bs ↦ read_uint_be_loop n (add32 (shl32 ret 8) b) (record s { input = bs })
]

unfoldable pub read_uint_be : ℕ → Io ℕ
read_uint_be n s = elim s.read_error [ some e ↦ (err e, s) | none ↦ read_uint_be_loop n 0 s ]

-- ReadUintLE: `i` is the loop's counter.
unfoldable pub read_uint_le_loop : ℕ → ℕ → ℕ → Io ℕ
read_uint_le_loop zero i ret s = (ok ret, s)
read_uint_le_loop (suc n) i ret s = elim s.input [
  | [] ↦ (err eof, record s { read_error = some eof })
  | b ∷ bs ↦ read_uint_le_loop n (i + 1) (add32 ret (shl32 b (i * 8))) (record s { input = bs })
]

unfoldable pub read_uint_le : ℕ → Io ℕ
read_uint_le n s = elim s.read_error [ some e ↦ (err e, s) | none ↦ read_uint_le_loop n 0 0 s ]

-- Write does not note the failure of the bufio.Writer in `write_error`; WriteByte's callers do.
unfoldable pub write : List ℕ → Io (Unit {0})
write p s = elim s.write_error [ some e ↦ (err e, s) | none ↦ buf_write p s ]

unfoldable pub note_write_error : Result (Unit {0}) × ReadWriter → Result (Unit {0}) × ReadWriter
note_write_error (ok u, s) = (ok u, s)
note_write_error (err e, s) = (err e, record s { write_error = some e })
note_write_error (panic, s) = (panic, s)

-- WriteUintBE: `n` rounds are left, so that the next byte is the n-th from the right.
unfoldable pub write_uint_be_loop : ℕ → ℕ → Io (Unit {0})
unfolding note_write_error
write_uint_be_loop zero v s = (ok tt, s)
write_uint_be_loop (suc n) v s =
    then_io (note_write_error (buf_write (bit_and (byte (shr v (n * 8))) 0xff ∷ []) s))
      (write_uint_be_loop n v)

unfoldable pub write_uint_be : ℕ → ℕ → Io (Unit {0})
write_uint_be v n s = elim s.write_error [ some e ↦ (err e, s) | none ↦ write_uint_be_loop n v s ]

unfoldable pub write_uint_le_loop : ℕ → ℕ → Io (Unit {0})
unfolding note_write_error
write_uint_le_loop zero v s = (ok tt, s)
write_uint_le_loop (suc n) v s =
    then_io (note_write_error (buf_write (bit_and (byte v) 0xff ∷ []) s))
      (write_uint_le_loop n (shr v 8))

unfoldable pub write_uint_le : ℕ → ℕ → Io (Unit {0})
write_uint_le v n s = elim s.write_error [ some e ↦ (err e, s) | none ↦ write_uint_le_loop n v s ]

unfoldable pub write_status : ReadWriter → Result (Unit {0})
write_status s = elim s.write_error [ some e ↦ err e | none ↦ ok tt ]

unfoldable pub flush : Io (Unit {0})
flush s = elim s.write_error [
  | some e ↦ (err e, s)
  | none ↦
      if length s.output == s.flushed
      then (ok tt, s)
      else if s.failed
      then (err broken_pipe, s)
      else (ok tt, record s { flushed = length s.output })
]
