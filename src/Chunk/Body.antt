-- ===== src/Chunk/Body.antt =====
-- How readChunk of protocol/core/chunk_stream.go fills the buffer of a message.
use srtmp.Prelude.{ℕ, ◌+◌, ◌-◌, ◌%◌, ◌^◌, ◌≤◌, ◌<◌, min, ◌≡◌, refl, true}
use srtmp.Prelude.{List, ◌++◌, append_assoc, length, take, drop, length-append, length-take}
use srtmp.Prelude.{
  length-drop, take-append_exact, ltb, leb, ◌==◌, if◌then◌else◌, ok, arith, le→leb, none,
}
use srtmp.Wire.{ReadWriter}
use srtmp.Wire.Reads.{feed, read_lem}
use srtmp.Chunk.Stream.{ChunkStream}
use srtmp.Chunk.Reader.{read_body, overwrite}

pub length-overwrite :
    (body : List ℕ) (i : ℕ) (bs : List ℕ)
    → i + length bs ≤ length body
    → length (overwrite body i bs) ≡ length body
length-overwrite body i bs h = omega (
  arith,
  length-append (take i body) (bs ++ drop (i + length bs) body),
  length-append bs (drop (i + length bs) body),
  length-take i body,
  length-drop (i + length bs) body,
)

-- What was read before stays, and the new bytes follow it.
pub take-overwrite :
    (body : List ℕ) (i : ℕ) (bs : List ℕ)
    → i + length bs ≤ length body
    → take (i + length bs) (overwrite body i bs) ≡ take i body ++ bs
take-overwrite body i bs h = rw (← append_assoc (take i body) bs (drop (i + length bs) body)) (
    take-append_exact (take i body ++ bs) (drop (i + length bs) body) (i + length bs)
      (omega (arith, length-append (take i body) bs, length-take i body)))

-- The chunk stream after a chunk with the bytes `bs`.
abbrev pub stored : List ℕ → ChunkStream → ChunkStream
stored bs cs = record cs {
  body = overwrite cs.body cs.index bs;
  index = cs.index + length bs;
  remain = cs.remain - length bs;
  complete = if cs.remain - length bs == 0 then true else cs.complete;
}

pub read_body_lem :
    (n : ℕ) (bs rest : List ℕ) (cs : ChunkStream) (r : ReadWriter)
    → length bs ≡ min n cs.remain
    → cs.index + cs.remain ≤ length cs.body
    → cs.index + cs.remain < 2 ^ 32
    → r.read_error ≡ none
    → read_body cs n (feed (bs ++ rest) r) ≡ (ok tt, stored bs cs, feed rest r)
unfolding read_body
read_body_lem n bs rest cs r len fits small h =
    let size : (if ltb n cs.remain then n else cs.remain) ≡ length bs = ground arith in
    let sum : (cs.index + length bs) % 2 ^ 32 ≡ cs.index + length bs = omega arith in
    let lower : leb cs.index (cs.index + length bs) ≡ true = le→leb _ _ (omega arith) in
    let upper : leb (cs.index + length bs) (length cs.body) ≡ true = le→leb _ _ (omega arith) in
    simp (size, sum, lower, upper, read_lem (length bs) bs rest r refl h)
