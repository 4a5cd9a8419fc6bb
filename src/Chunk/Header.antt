-- ===== src/Chunk/Header.antt =====
-- The chunk header that writeHeader of protocol/core/chunk_stream.go sends, in plain arithmetic.
use srtmp.Prelude.{ℕ, ◌+◌, ◌-◌, ◌*◌, ◌/◌, ◌%◌, ◌≤◌, ◌<◌, ◌≡◌, refl, sym, ap, bit_or}
use srtmp.Prelude.{List, [], ◌∷◌, ◌++◌, append_assoc, ltb, leb, ◌==◌, if◌then◌else◌}
use srtmp.Prelude.{not_lt→ltb, inl, inr, sub32, Bool-cases, ok, arith, bit_or_fields, shl32}
use srtmp.Wire.{ReadWriter, write_uint_be, write_uint_le, write_status}
use srtmp.Wire.Writes.{CanWrite, put, put-put, put-nil, put-CanWrite, be_bytes, le_bytes}
use srtmp.Wire.Writes.{write_uint_be_lem, write_uint_le_lem}
use srtmp.Chunk.Stream.{ChunkStream}
use srtmp.Chunk.Writer.{write_basic_header, write_extended, write_header}

-- Format and chunk stream id, in one, two or three bytes.
unfoldable pub basic_bytes : ℕ → ℕ → List ℕ
basic_bytes format csid =
    if ltb csid 64
    then (format * 64 + csid) ∷ []
    else if ltb csid 320
    then (format * 64) ∷ (csid - 64) ∷ []
    else (format * 64 + 1) ∷ ((csid - 64) % 256) ∷ ((csid - 64) / 256) ∷ []

unfoldable pub extended_bytes : ℕ → List ℕ
extended_bytes timestamp = if leb 0xffffff timestamp then be_bytes 4 timestamp else []

-- The 11, 7, 3 or 0 bytes that the format asks for.
unfoldable pub message_bytes : ChunkStream → List ℕ
message_bytes cs =
    let ts = be_bytes 3 (if ltb 0xffffff cs.timestamp then 0xffffff else cs.timestamp) in
    let kind = be_bytes 3 cs.message_length ++ be_bytes 1 cs.type_id in
    if cs.format == 3
    then []
    else if cs.format == 2
    then ts
    else if cs.format == 1
    then ts ++ kind
    else ts ++ (kind ++ le_bytes 4 cs.stream_id)

unfoldable pub header_bytes : ChunkStream → List ℕ
header_bytes cs = basic_bytes cs.format cs.csid ++ (message_bytes cs ++ extended_bytes cs.timestamp)

-- The values that a chunk header has room for.
pub record IsSendable (cs : ChunkStream) : Type 0 where
  pub format_fits : cs.format ≤ 3
  pub csid_fits : cs.csid < 65600
  pub length_fits : cs.message_length ≤ 0xffffff

pub wrote_be :
    (n v : ℕ) (s : ReadWriter) → CanWrite s → (write_uint_be v n s).1 ≡ put (be_bytes n v) s
wrote_be n v s c = rw (write_uint_be_lem n v s c)

pub wrote_le :
    (n v : ℕ) (s : ReadWriter) → CanWrite s → (write_uint_le v n s).1 ≡ put (le_bytes n v) s
wrote_le n v s c = rw (write_uint_le_lem n v s c)

first_byte : (q r : ℕ) → q ≤ 3 → r < 64 → bit_or (shl32 q 6) r ≡ q * 64 + r
first_byte q r h k = ground (arith, bit_or_fields 6 q r)

write_basic_header_lem :
    (cs : ChunkStream) (s : ReadWriter)
    → IsSendable cs
    → CanWrite s
    → write_basic_header cs s ≡ put (basic_bytes cs.format cs.csid) s
unfolding write_basic_header basic_bytes be_bytes le_bytes
write_basic_header_lem cs s h c =
    let q = cs.format in
    let r = sub32 cs.csid 64 in
    let two = (put ((q * 64) ∷ []) s) in
    let three = (put ((q * 64 + 1) ∷ []) s) in
    ground (
      arith,
      first_byte q cs.csid,
      first_byte q 0,
      first_byte q 1,
      wrote_be 1 (bit_or (shl32 q 6) cs.csid) s c,
      wrote_be 1 (bit_or (shl32 q 6) 0) s c,
      wrote_be 1 (bit_or (shl32 q 6) 1) s c,
      wrote_le 1 r two (put-CanWrite _ s c),
      wrote_le 2 r three (put-CanWrite _ s c),
      put-put ((q * 64) ∷ []) (r ∷ []) s,
      put-put ((q * 64 + 1) ∷ []) ((r % 256) ∷ (r / 256) ∷ []) s,
    )

write_status_lem : (s : ReadWriter) → CanWrite s → write_status s ≡ ok tt
unfolding write_status
write_status_lem s c = ground arith

write_extended_lem :
    (ts : ℕ) (cs : ChunkStream) (s : ReadWriter)
    → CanWrite s
    → leb 0xffffff ts ≡ leb 0xffffff cs.timestamp
    → write_extended ts cs s ≡ (ok tt, put (extended_bytes cs.timestamp) s)
unfolding write_extended extended_bytes
write_extended_lem ts cs s c e = elim (Bool-cases (leb 0xffffff cs.timestamp)) [
  | inl big ↦ simp (
    e,
    big,
    wrote_be 4 cs.timestamp s c,
    write_status_lem _ (put-CanWrite (be_bytes 4 cs.timestamp) s c),
  )
  | inr small ↦
      simp (e, small, write_status_lem s c) (ap (λ (u : ReadWriter). (ok tt, u)) (sym (put-nil s)))
]

-- On a connection that takes every byte, writeHeader succeeds and sends exactly the chunk header of
-- its format: the basic header in one to three bytes, the fields of the format's message header,
-- and the extended timestamp in each chunk of a message whose timestamp needs it.
pub write_header_lem :
    (cs : ChunkStream) (s : ReadWriter)
    → IsSendable cs
    → CanWrite s
    → write_header cs s ≡ (ok tt, put (header_bytes cs) s)
unfolding write_header header_bytes message_bytes
write_header_lem cs s h c =
    let b = basic_bytes cs.format cs.csid in
    let ts : ℕ = if ltb 0xffffff cs.timestamp then 0xffffff else cs.timestamp in
    let s₁ = put b s in
    let c₁ = put-CanWrite b s c in
    let s₂ = put (be_bytes 3 ts) s₁ in
    let c₂ = put-CanWrite (be_bytes 3 ts) s₁ c₁ in
    let s₃ = put (be_bytes 3 cs.message_length) s₂ in
    let c₃ = put-CanWrite (be_bytes 3 cs.message_length) s₂ c₂ in
    let s₄ = put (be_bytes 1 cs.type_id) s₃ in
    let c₄ = put-CanWrite (be_bytes 1 cs.type_id) s₃ c₃ in
    let s₅ = put (le_bytes 4 cs.stream_id) s₄ in
    let c₅ = put-CanWrite (le_bytes 4 cs.stream_id) s₄ c₄ in
    let e = cs.timestamp in
    let same : leb 0xffffff ts ≡ leb 0xffffff e = ground arith in
    let basic = write_basic_header_lem cs s h c in
    elim (Bool-cases (cs.format == 3)) [
      | inl f3 ↦ simp (f3, basic, write_extended_lem e cs s₁ c₁ refl) (simp append_assoc)
      | inr n3 ↦ elim (Bool-cases (cs.format == 2)) [
        | inl f2 ↦
            simp (n3, f2, basic, wrote_be 3 ts s₁ c₁, write_extended_lem ts cs s₂ c₂ same)
              (simp append_assoc)
        | inr n2 ↦ elim (Bool-cases (cs.format == 1)) [
          | inl f1 ↦
              simp
                (
                  n3,
                  n2,
                  f1,
                  basic,
                  wrote_be 3 ts s₁ c₁,
                  wrote_be 3 cs.message_length s₂ c₂,
                  wrote_be 1 cs.type_id s₃ c₃,
                  write_extended_lem ts cs s₄ c₄ same,
                  not_lt→ltb 0xffffff cs.message_length h.length_fits,
                )
                (simp append_assoc)
          | inr n1 ↦
              simp
                (
                  n3,
                  n2,
                  n1,
                  basic,
                  wrote_be 3 ts s₁ c₁,
                  wrote_be 3 cs.message_length s₂ c₂,
                  wrote_be 1 cs.type_id s₃ c₃,
                  wrote_le 4 cs.stream_id s₄ c₄,
                  write_extended_lem ts cs s₅ c₅ same,
                  not_lt→ltb 0xffffff cs.message_length h.length_fits,
                )
                (simp append_assoc)
        ]
      ]
    ]
