-- ===== src/Conn/Basic.antt =====
-- The basic header that Read of protocol/core/rtmp_conn.go takes apart, and its map of chunk streams.
use srtmp.Prelude.{ℕ, ◌+◌, ◌-◌, ◌*◌, ◌/◌, ◌%◌, ◌^◌, ◌≤◌, ◌<◌, ◌≡◌, bit_and, false}
use srtmp.Prelude.{List, [], ◌∷◌, ◌++◌, none, some, ltb, ◌==◌, ok, arith}
use srtmp.Prelude.{bit_and_mask, Bool-cases, inl, inr, ==_refl}
use srtmp.Wire.{ReadWriter, read_byte, read_uint_le}
use srtmp.Wire.Writes.{le_bytes}
use srtmp.Wire.Reads.{feed, read_uint_le_lem}
use srtmp.Chunk.Stream.{ChunkStream}
use srtmp.Chunk.Reader.{read_chunk}
use srtmp.Chunk.Header.{basic_bytes}
use srtmp.Chunk.Parse.{with_format}
use srtmp.Conn.State.{RtmpConn, find_chunk, save_chunk}
use srtmp.Conn.Reader.{read_csid, after_byte, after_chunk, chunk_for}

pub find_chunk-save_chunk :
    (csid : ℕ) (cs : ChunkStream) (m : List (ℕ × ChunkStream))
    → find_chunk csid (save_chunk csid cs m) ≡ some cs
unfolding find_chunk save_chunk
find_chunk-save_chunk csid cs [] = rw (==_refl csid)
find_chunk-save_chunk csid cs ((k, c) ∷ m) = elim (Bool-cases (k == csid)) [
  | inl here ↦ simp (here, ==_refl csid)
  | inr there ↦ simp (there, find_chunk-save_chunk csid cs m)
]

low_six : (b : ℕ) → bit_and b 0x3f ≡ b % 64
low_six b = bit_and_mask 6 b

two_bytes :
    (x : ℕ) (rest : List ℕ) (r : ReadWriter)
    → x < 65536
    → r.read_error ≡ none
    → read_uint_le 2 (feed ((x % 256) ∷ (x / 256) ∷ rest) r) ≡ (ok (x % 2 ^ 16), feed rest r)
unfolding le_bytes
two_bytes x rest r h k =
    let high : x / 256 % 256 ≡ x / 256 = omega arith in
    rw high at (read_uint_le_lem 2 x rest r (omega arith) k)

-- Whatever bytes the basic header takes, the round goes on with the chunk stream of its id, in its
-- format, on the input behind it.
pub after_byte-basic_bytes :
    (format csid : ℕ) (rest : List ℕ) (r : ReadWriter) (conn : RtmpConn)
    → format ≤ 3
    → 2 ≤ csid
    → csid < 65600
    → r.read_error ≡ none
    → after_byte (read_byte (feed (basic_bytes format csid ++ rest) r)) conn
      ≡ after_chunk
          (read_chunk
            (with_format format (chunk_for csid conn))
            conn.remote_chunk_size
            (feed rest r))
          csid
          conn
unfolding basic_bytes read_byte read_csid
after_byte-basic_bytes format csid rest r conn h lo hi k = elim (Bool-cases (ltb csid 64)) [
  | inl one ↦
      let six : (format * 64 + csid) % 64 ≡ csid = ground arith in
      let top : (format * 64 + csid) / 64 ≡ format = ground arith in
      let n0 : (csid == 0) ≡ false = ground arith in
      let n1 : (csid == 1) ≡ false = ground arith in simp (one, low_six, six, top, n0, n1)
  | inr more ↦ elim (Bool-cases (ltb csid 320)) [
    | inl two ↦
        let six : format * 64 % 64 ≡ 0 = omega arith in
        let top : format * 64 / 64 ≡ format = omega arith in
        let id : (csid - 64 + 64) % 2 ^ 32 ≡ csid = ground arith in
        simp (more, two, low_six, six, top, id)
    | inr three ↦
        let six : (format * 64 + 1) % 64 ≡ 1 = omega arith in
        let top : (format * 64 + 1) / 64 ≡ format = omega arith in
        let id : ((csid - 64) % 2 ^ 16 + 64) % 2 ^ 32 ≡ csid = ground arith in
        simp (more, three, low_six, six, top, two_bytes (csid - 64) rest r (omega arith) k, id)
  ]
]
