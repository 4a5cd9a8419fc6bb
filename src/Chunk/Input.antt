-- ===== src/Chunk/Input.antt =====
-- Reading, in protocol/core/chunk_stream.go, never adds to the input.
use srtmp.Prelude.{ℕ, zero, suc, ◌+◌, ◌*◌, ◌≤◌, ◌≡◌, refl, List, [], ◌∷◌, length}
use srtmp.Prelude.{length-drop, Result, ok, err, panic, arith, Bool, true, false, add32}
use srtmp.Prelude.{leb, ltb, ◌==◌, if◌then◌else◌, shl32, Bool-cases, inl, inr, ◌&&◌}
use srtmp.Wire.{ReadWriter}
use srtmp.Wire.{read, read_part, read_uint_le}
use srtmp.Wire.{read_uint_le_loop}
use srtmp.Wire.Reads.{feed}
use srtmp.Chunk.Stream.{ChunkStream}
use srtmp.Chunk.Writer.{}
use srtmp.Chunk.Reader.{Step, read_message_header, set_from, set_result, set_full, set_same_stream}
use srtmp.Chunk.Reader.{set_delta, read_extended, read_number, begin_message, read_body, store_body}
use srtmp.Chunk.Reader.{read_rest, after_header, read_chunk}

read-input : (n : ℕ) (s : ReadWriter) → length (read n s).1.input ≤ length s.input
unfolding read
read-input n s = ground (arith, length-drop n s.input)

set_from-input :
    (r : Result (List ℕ) × ReadWriter) (cs : ChunkStream) (f : List ℕ → Result ChunkStream)
    (time : ChunkStream → ℕ) (k : ℕ)
    → length r.1.input ≤ k
    → length (set_from r cs f time).2.input ≤ k
set_from-input (ok hdr, s) cs f time k h = set_result-input (f hdr)
  where
    set_result-input : (r : Result ChunkStream) → length (set_result r cs s time).2.input ≤ k
    set_result-input (ok c) = h
    set_result-input (err e) = h
    set_result-input panic = h
set_from-input (err e, s) cs f time k h = h
set_from-input (panic, s) cs f time k h = h

read_message_header-input :
    (cs : ChunkStream) (s : ReadWriter) → length (read_message_header cs s).2.input ≤ length s.input
unfolding read_message_header
read_message_header-input cs s = ground (
  arith,
  set_from-input (read 11 s) cs (set_full cs) (λ c. c.timestamp) (length s.input) (read-input 11 s),
  set_from-input (read 7 s) cs (set_same_stream cs) (λ c. c.time_delta) (length s.input)
      (read-input 7 s),
  set_from-input (read 3 s) cs (set_delta cs) (λ c. c.time_delta) (length s.input) (read-input 3 s),
)

read_extended-input :
    (b : Bool) (s : ReadWriter) → length (read_extended b s).1.input ≤ length s.input
unfolding read_extended
read_extended-input false s = omega arith
read_extended-input true s = number (read 4 s) (read-input 4 s)
  where
    number :
        (r : Result (List ℕ) × ReadWriter)
        → length r.1.input ≤ length s.input
        → length (read_number r).1.input ≤ length s.input
    number (ok bs, t) h = h
    number (err e, t) h = h
    number (panic, t) h = h

store_body-input :
    (r : Result (List ℕ) × ReadWriter) (part : List ℕ) (cs : ChunkStream) (size : ℕ)
    → (store_body r part cs size).2 ≡ r.1
store_body-input (ok bs, s) part cs size = refl
store_body-input (err e, s) part cs size = refl
store_body-input (panic, s) part cs size = refl

read_body-input :
    (cs : ChunkStream) (n : ℕ) (s : ReadWriter) → length (read_body cs n s).2.input ≤ length s.input
unfolding read_body
read_body-input cs n s =
    let size = if ltb n cs.remain then n else cs.remain in
    let end = add32 cs.index size in
    elim (Bool-cases (leb cs.index end && leb end (length cs.body))) [
      | inl fits ↦
          rw (fits, store_body-input (read size s) (read_part size s) cs size) (read-input size s)
      | inr out ↦ rw out (omega arith)
    ]

read_rest-input :
    (r : Result ℕ × ReadWriter) (rmark extended : Bool) (cs : ChunkStream) (n k : ℕ)
    → length r.1.input ≤ k
    → length (read_rest r rmark extended cs n).2.input ≤ k
read_rest-input (ok ext, s) rmark extended cs n k h =
    omega (arith, read_body-input (begin_message rmark extended ext cs) n s)
read_rest-input (err e, s) rmark extended cs n k h = h
read_rest-input (panic, s) rmark extended cs n k h = h

after_header-input :
    (r : Step Bool) (rmark : Bool) (n k : ℕ)
    → length r.2.input ≤ k
    → length (after_header r rmark n).2.input ≤ k
after_header-input (ok extended, cs, s) rmark n k h =
    read_rest-input (read_extended extended s) rmark extended cs n k
      (omega (arith, read_extended-input extended s))
after_header-input (err e, cs, s) rmark n k h = h
after_header-input (panic, cs, s) rmark n k h = h

pub read_chunk-input :
    (cs : ChunkStream) (n : ℕ) (s : ReadWriter)
    → length (read_chunk cs n s).2.input ≤ length s.input
unfolding read_chunk
read_chunk-input cs n s =
    after_header-input (read_message_header cs s) (cs.remain == 0) n (length s.input)
      (read_message_header-input cs s)

read_uint_le_loop-input :
    (n i ret : ℕ) (input : List ℕ) (s : ReadWriter)
    → length (read_uint_le_loop n i ret (feed input s)).1.input ≤ length input
unfolding read_uint_le_loop
read_uint_le_loop-input zero i ret input s = omega arith
read_uint_le_loop-input (suc n) i ret [] s = omega arith
read_uint_le_loop-input (suc n) i ret (b ∷ bs) s =
    omega (arith, read_uint_le_loop-input n (i + 1) (add32 ret (shl32 b (i * 8))) bs s)

pub read_uint_le-input :
    (n : ℕ) (s : ReadWriter) → length (read_uint_le n s).1.input ≤ length s.input
unfolding read_uint_le
read_uint_le-input n s = ground (arith, read_uint_le_loop-input n 0 0 s.input s)
