-- ===== src/Chunk/Frames.antt =====
-- The chunks that writeChunk of protocol/core/chunk_stream.go cuts a message into.
use srtmp.Prelude.{ℕ, zero, suc, ◌+◌, ◌*◌, ◌/◌, ◌%◌, ◌^◌, ◌≤◌, ◌<◌, min, ◌≡◌, refl, sym, ap, ◌∙◌}
use srtmp.Prelude.{List, [], ◌∷◌, ◌++◌, append-nil, append_assoc, length, take, drop, length-append}
use srtmp.Prelude.{length-drop, length-take, take-append-drop, drop-append_exact, leb, ◌==◌}
use srtmp.Prelude.{add32, ok, arith, le→leb, ==_refl, ne→==, true, false}
use srtmp.Wire.{ReadWriter}
use srtmp.Wire.Writes.{CanWrite, put, put-nil, put-CanWrite, write_lem}
use srtmp.Chunk.Stream.{ChunkStream}
use srtmp.Chunk.Writer.{
  chunk_inc, write_body, write_round, set_format, write_chunk_loop, write_chunk,
}
use srtmp.Chunk.Writer.{assign_csid}
use srtmp.Chunk.Header.{IsSendable, header_bytes, write_header_lem}

-- The body in pieces of `n` bytes, each behind a header, of format 0 for the first and 3 for the
-- others. An empty rest has no chunk. The first argument bounds the number of chunks.
unfoldable pub frames : ℕ → ℕ → ℕ → ChunkStream → List ℕ → List ℕ
frames zero n i cs rest = []
frames (suc r) n i cs [] = []
frames (suc r) n i cs (b ∷ bs) =
    header_bytes (set_format i cs) ++ (take n (b ∷ bs) ++ frames r n (i + 1) cs (drop n (b ∷ bs)))

chunk_inc_lem :
    (n p k : ℕ) (cs : ChunkStream)
    → length cs.body ≡ p + k
    → length cs.body ≤ 0xffffff
    → chunk_inc n p cs ≡ min n k
unfolding chunk_inc
chunk_inc_lem n p k cs e h = ground arith

take-min {ℓ} : {A : Type ℓ} (n : ℕ) (xs : List A) → take (min n (length xs)) xs ≡ take n xs
take-min zero xs = let e : min 0 (length xs) ≡ 0 = omega arith in rw e
take-min (suc n) [] = let e : min (suc n) 0 ≡ 0 = omega arith in rw e
take-min (suc n) (x ∷ xs) =
    let e : min (suc n) (suc (length xs)) ≡ suc (min n (length xs)) = omega arith in
    rw e (rw (take-min n xs))

write_body_lem :
    (n : ℕ) (cs : ChunkStream) (pre suf : List ℕ) (s : ReadWriter)
    → cs.body ≡ pre ++ suf
    → length cs.body ≤ 0xffffff
    → CanWrite s
    → write_body (length pre) (min n (length suf)) cs s ≡ (ok tt, put (take n suf) s)
unfolding write_body
write_body_lem n cs pre suf s e h c =
    let p = length pre in
    let k : ℕ = min n (length suf) in
    let whole : length cs.body ≡ p + length suf = rw e (length-append pre suf) in
    let lower : leb p ((p + k) % 2 ^ 32) ≡ true = le→leb p _ (omega arith) in
    let upper : leb ((p + k) % 2 ^ 32) (length cs.body) ≡ true = le→leb _ _ (omega arith) in
    let part : take k (drop p cs.body) ≡ take n suf =
      rw (e, drop-append_exact pre suf p refl) (take-min n suf) in
    simp (lower, upper, part, write_lem _ s c)

write_round_lem :
    (n i : ℕ) (cs : ChunkStream) (pre suf : List ℕ) (s : ReadWriter)
    → IsSendable cs
    → CanWrite s
    → cs.body ≡ pre ++ suf
    → length cs.body ≤ 0xffffff
    → i * n ≡ length pre
    → write_round n i cs s ≡ (ok tt, put (header_bytes cs ++ take n suf) s)
unfolding write_round
write_round_lem n i cs pre suf s h c e l st =
    let start : i * n % 2 ^ 32 ≡ length pre = omega (arith, ap length e, length-append pre suf) in
    let whole : length cs.body ≡ length pre + length suf = rw e (length-append pre suf) in
    simp
      (
        write_header_lem cs s h c,
        start,
        chunk_inc_lem n (length pre) (length suf) cs whole l,
        write_body_lem n cs pre suf _ e l (put-CanWrite (header_bytes cs) s c),
      )
      (rw append_assoc)

abbrev StartsAt : ℕ → ℕ → List ℕ → List ℕ → Type 0
StartsAt i n pre [] = Unit
StartsAt i n pre (_ ∷ _) = i * n ≡ length pre

StartsAt-zero : (n : ℕ) (suf : List ℕ) → StartsAt 0 n [] suf
StartsAt-zero n [] = tt
StartsAt-zero n (x ∷ xs) = omega arith

StartsAt-next :
    (n i : ℕ) (pre suf rest : List ℕ)
    → rest ≡ drop n suf
    → i * n ≡ length pre
    → StartsAt (i + 1) n (pre ++ take n suf) rest
StartsAt-next n i pre suf [] e st = tt
StartsAt-next n i pre suf (x ∷ xs) e st =
    omega (arith, ap length e, length-drop n suf, length-take n suf, length-append pre (take n suf))

frames-set_format :
    (r n i j : ℕ) (cs : ChunkStream) (rest : List ℕ)
    → frames r n i (set_format j cs) rest ≡ frames r n i cs rest
unfolding frames
frames-set_format zero n i j cs rest = refl
frames-set_format (suc r) n i j cs [] = refl
frames-set_format (suc r) n i j cs (b ∷ bs) =
    rw (frames-set_format r n (i + 1) j cs (drop n (b ∷ bs)))

set_format-IsSendable :
    (i : ℕ) (cs : ChunkStream)
    → cs.csid < 65600
    → cs.message_length ≤ 0xffffff
    → IsSendable (set_format i cs)
set_format-IsSendable i cs h k = ground arith

-- One round, where `pre` is sent and the rest `suf` is not empty.
write_chunk_loop_step :
    (r n i x : ℕ) (cs : ChunkStream) (pre xs : List ℕ) (s : ReadWriter)
    → cs.csid < 65600
    → cs.message_length ≤ 0xffffff
    → cs.message_length ≡ length cs.body
    → cs.body ≡ pre ++ (x ∷ xs)
    → i * n ≡ length pre
    → CanWrite s
    → write_chunk_loop (suc r) n i (length pre) cs s
      ≡ write_chunk_loop r n
          (i + 1)
          (length (pre ++ take n (x ∷ xs)))
          (set_format i cs)
          (put (header_bytes (set_format i cs) ++ take n (x ∷ xs)) s)
unfolding write_chunk_loop
write_chunk_loop_step r n i x cs pre xs s id len e b st c =
    let suf = x ∷ xs in
    let sent = take n suf in
    let cs' = set_format i cs in
    let whole : length cs.body ≡ length pre + length suf = rw b (length-append pre suf) in
    let short : (length pre == cs.message_length) ≡ false = ne→== _ _ (omega arith) in
    let start : i * n % 2 ^ 32 ≡ length pre = omega arith in
    let total : add32 (length pre) (min n (length suf)) ≡ length (pre ++ sent) =
      omega (arith, length-append pre sent, length-take n suf) in
    simp (
      short,
      start,
      write_round_lem n i cs' pre suf s (set_format-IsSendable i cs id len) c b (omega arith) st,
      chunk_inc_lem n (length pre) (length suf) cs' whole (omega arith),
      total,
    )

-- The loop from round `i` on, where `pre` is sent and `suf` is not.
write_chunk_loop_lem :
    (r n i : ℕ) (cs : ChunkStream) (pre suf : List ℕ) (s : ReadWriter)
    → cs.csid < 65600
    → cs.message_length ≤ 0xffffff
    → cs.message_length ≡ length cs.body
    → cs.body ≡ pre ++ suf
    → StartsAt i n pre suf
    → CanWrite s
    → ((write_chunk_loop r n i (length pre) cs s).0 ≡ ok tt)
      × ((write_chunk_loop r n i (length pre) cs s).2 ≡ put (frames r n i cs suf) s)
unfolding frames
write_chunk_loop_lem zero n i cs pre suf s id len e b st c =
    unfold write_chunk_loop in (refl, sym (put-nil s))
write_chunk_loop_lem (suc r) n i cs pre [] s id len e b st c =
    let full : (length pre == cs.message_length) ≡ true =
      rw (e, b, append-nil) (==_refl (length pre)) in
    unfold write_chunk_loop in (simp full, simp full (sym (put-nil s)))
write_chunk_loop_lem (suc r) n i cs pre (x ∷ xs) s id len e b st c =
    let sent = take n (x ∷ xs) in
    let rest = drop n (x ∷ xs) in
    let cs' = set_format i cs in
    let ih =
      write_chunk_loop_lem r n (i + 1) cs' (pre ++ sent) rest (put (header_bytes cs' ++ sent) s) id
        len e (rw (append_assoc, take-append-drop n (x ∷ xs)) b)
        (StartsAt-next n i pre (x ∷ xs) rest refl st)
        (put-CanWrite (header_bytes cs' ++ sent) s c) in
    let step = write_chunk_loop_step r n i x cs pre xs s id len e b st c in
    (rw step ih.0, rw step (ih.1 ∙ simp (frames-set_format r n (i + 1) i cs rest, append_assoc)))

-- The message is the same but for its chunk stream id.
pub assign_csid_fields :
    (cs : ChunkStream)
    → cs.csid < 65600
    → ((assign_csid cs).csid < 65600)
      × ((assign_csid cs).message_length ≡ cs.message_length)
      × ((assign_csid cs).body ≡ cs.body)
      × ((assign_csid cs).timestamp ≡ cs.timestamp)
      × ((assign_csid cs).type_id ≡ cs.type_id)
      × ((assign_csid cs).stream_id ≡ cs.stream_id)
unfolding assign_csid
assign_csid_fields cs h = ground arith

-- On a connection that takes every byte, writeChunk cuts a message into the chunks of `frames` and
-- succeeds, if the chunk size is positive, the chunk stream id is below 65600 and the declared
-- length is that of the body and at most 0xffffff. The chunk stream id is the one of its type.
pub write_chunk_lem :
    (cs : ChunkStream) (n : ℕ) (s : ReadWriter)
    → 0 < n
    → cs.csid < 65600
    → cs.message_length ≤ 0xffffff
    → cs.message_length ≡ length cs.body
    → CanWrite s
    → ((write_chunk cs n s).0 ≡ ok tt)
      × ((write_chunk cs n s).2
          ≡ put
              (frames
                ((assign_csid cs).message_length / n + 1)
                n
                0
                (assign_csid cs)
                (assign_csid cs).body)
              s)
unfolding write_chunk
write_chunk_lem cs n s pos id len e c =
    let a = assign_csid cs in
    let fields = assign_csid_fields cs id in
    let loop =
      write_chunk_loop_lem (a.message_length / n + 1) n 0 a [] a.body s fields.0 (rw fields.1 len)
        (rw (fields.1, fields.2) e) refl (StartsAt-zero n a.body) c in
    let divisor : (n == 0) ≡ false = ne→== n 0 (omega arith) in
    (simp divisor loop.0, simp divisor loop.1)
