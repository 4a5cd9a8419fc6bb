-- ===== src/Handshake.antt =====
-- The handshake before the first chunk: protocol/core/handshake.go. The deadlines of the connection
-- are left out. The parameter `hmac` is the digest that crypto/hmac makes with SHA-256 of a key and a
-- message; `random` is what crypto/rand fills a buffer with.
use srtmp.Prelude.{
  ℕ, ◌+◌, ◌%◌, ◌-◌, List, [], ◌∷◌, ◌++◌, length, take, drop, replicate, get_elem?, Option, none,
  some, leb, ◌==◌, if◌then◌else◌,
}
use srtmp.Prelude.{Result, ok, err, panic, bind, failure, Bool}
use srtmp.Bytes.{u32_be, put_u32_be}
use srtmp.Amf.{same}
use srtmp.Wire.{ReadWriter, Io, bind_io, then_io, read, write, flush}
use srtmp.Chunk.Reader.{overwrite, byte_at}
pub mod Agreement
pub mod Digest

abbrev pub key_tail : List ℕ
key_tail =
    240 ∷ 238 ∷ 194 ∷ 74 ∷ 128 ∷ 104 ∷ 190 ∷ 232 ∷ 46 ∷ 0 ∷ 208 ∷ 209 ∷ 2 ∷ 158 ∷ 126 ∷ 87 ∷ 110
    ∷ 236 ∷ 93 ∷ 45 ∷ 41 ∷ 128 ∷ 111 ∷ 171 ∷ 147 ∷ 184 ∷ 230 ∷ 54 ∷ 207 ∷ 235 ∷ 49 ∷ 174 ∷ []

abbrev pub hs_client_partial_key : List ℕ
hs_client_partial_key =
    71 ∷ 101 ∷ 110 ∷ 117 ∷ 105 ∷ 110 ∷ 101 ∷ 32 ∷ 65 ∷ 100 ∷ 111 ∷ 98 ∷ 101 ∷ 32 ∷ 70 ∷ 108 ∷ 97
    ∷ 115 ∷ 104 ∷ 32 ∷ 80 ∷ 108 ∷ 97 ∷ 121 ∷ 101 ∷ 114 ∷ 32 ∷ 48 ∷ 48 ∷ 49 ∷ []

abbrev pub hs_server_partial_key : List ℕ
hs_server_partial_key =
    71 ∷ 101 ∷ 110 ∷ 117 ∷ 105 ∷ 110 ∷ 101 ∷ 32 ∷ 65 ∷ 100 ∷ 111 ∷ 98 ∷ 101 ∷ 32 ∷ 70 ∷ 108 ∷ 97
    ∷ 115 ∷ 104 ∷ 32 ∷ 77 ∷ 101 ∷ 100 ∷ 105 ∷ 97 ∷ 32 ∷ 83 ∷ 101 ∷ 114 ∷ 118 ∷ 101 ∷ 114 ∷ 32 ∷ 48
    ∷ 48 ∷ 49 ∷ []

abbrev pub hs_server_full_key : List ℕ
hs_server_full_key = hs_server_partial_key ++ key_tail

-- p[i:j], which panics where the end is behind the buffer.
abbrev slice : ℕ → ℕ → List ℕ → Result (List ℕ)
slice i j p = if leb j (length p) then ok (take (j - i) (drop i p)) else panic

-- A gap of 0 stands for one that is not positive.
unfoldable pub hs_make_digest : (List ℕ → List ℕ → List ℕ) → List ℕ → List ℕ → ℕ → Result (List ℕ)
hs_make_digest hmac key src gap =
    if gap == 0
    then ok (hmac key src)
    else if leb (gap + 32) (length src)
    then ok (hmac key (take gap src ++ drop (gap + 32) src))
    else panic

unfoldable pub hs_calc_digest_pos : List ℕ → ℕ → Result ℕ
hs_calc_digest_pos p base = bind (byte_at base p) λ a. bind (byte_at (base + 1) p) λ b.
    bind (byte_at (base + 2) p)
      λ c. bind (byte_at (base + 3) p) λ d. ok ((a + b + c + d) % 728 + base + 4)

-- `none` is the result -1.
unfoldable pub hs_find_digest : (List ℕ → List ℕ → List ℕ) → List ℕ → List ℕ → ℕ → Result (Option ℕ)
unfolding same
hs_find_digest hmac p key base = bind (hs_calc_digest_pos p base) λ gap.
    bind (hs_make_digest hmac key p gap) λ digest.
      bind (slice gap (gap + 32) p) λ found. ok (if same found digest then some gap else none)

abbrev parsed : (List ℕ → List ℕ → List ℕ) → List ℕ → List ℕ → Option ℕ → Result (Option (List ℕ))
parsed hmac p key (some pos) =
    bind (slice pos (pos + 32) p) λ d. bind (hs_make_digest hmac key d 0) λ digest. ok (some digest)
parsed hmac p key none = ok none

abbrev or_else : Option ℕ → Result (Option ℕ) → Result (Option ℕ)
or_else (some pos) r = ok (some pos)
or_else none r = r

-- The digest for the answer, or none where the ok of the result is false.
unfoldable pub hs_parse1 :
    (List ℕ → List ℕ → List ℕ) → List ℕ → List ℕ → List ℕ → Result (Option (List ℕ))
hs_parse1 hmac p peerkey key =
    bind (hs_find_digest hmac p peerkey 772)
      λ first. bind (or_else first (hs_find_digest hmac p peerkey 8)) λ pos. parsed hmac p key pos

-- The buffer is new and all 0; the random bytes fill it from the ninth of its second part on.
unfoldable pub hs_create01 : (List ℕ → List ℕ → List ℕ) → List ℕ → ℕ → ℕ → List ℕ → Result (List ℕ)
hs_create01 hmac random time ver key = bind (put_u32_be (replicate 4 0) time) λ t.
    bind (put_u32_be (replicate 4 0) ver) λ v.
      let p1 = t ++ (v ++ random) in
      bind (hs_calc_digest_pos p1 8)
        λ gap. bind (hs_make_digest hmac key p1 gap) λ digest. ok (3 ∷ overwrite p1 gap digest)

unfoldable pub hs_create2 : (List ℕ → List ℕ → List ℕ) → List ℕ → List ℕ → Result (List ℕ)
hs_create2 hmac random key =
    let gap = length random - 32 in
    bind (hs_make_digest hmac key random gap) λ digest. ok (overwrite random gap digest)

-- A part of the buffer that nothing was written to.
unfoldable pub zeros : List ℕ
zeros = replicate 1536 0

-- The version and the first part are sent and flushed; the second part is the server's first, and not
-- flushed.
unfoldable pub handshake_client : Io (Unit {0})
handshake_client s = then_io (write (3 ∷ zeros) s) λ s₁.
    then_io (flush s₁)
      λ s₂. bind_io (read 3073 s₂) λ answer s₃. write (take 1536 (drop 1 answer)) s₃

abbrev answer_with :
    (List ℕ → List ℕ → List ℕ) → List ℕ → List ℕ → ℕ → Option (List ℕ) → Result (List ℕ)
answer_with hmac random1 random2 clitime none = err failure
answer_with hmac random1 random2 clitime (some digest) =
    bind (hs_create01 hmac random1 clitime 0x0d0e0a0d hs_server_partial_key)
      λ s0s1. bind (hs_create2 hmac random2 digest) λ s2. ok (s0s1 ++ s2)

-- The server's version and two parts for the client's first part.
unfoldable pub server_answer :
    (List ℕ → List ℕ → List ℕ) → List ℕ → List ℕ → List ℕ → Result (List ℕ)
server_answer hmac random1 random2 c1 = bind (u32_be (take 4 c1)) λ clitime.
    bind (u32_be (take 4 (drop 4 c1))) λ cliver.
      if cliver == 0
      then ok (3 ∷ (zeros ++ c1))
      else (bind (hs_parse1 hmac c1 hs_client_partial_key hs_server_full_key)
          λ digest. answer_with hmac random1 random2 clitime digest)

abbrev pub check_version : List ℕ → (List ℕ → Result (List ℕ)) → Result (List ℕ)
check_version [] f = panic
check_version (v ∷ c1) f = if v == 3 then f c1 else err failure

abbrev pub served : Result (List ℕ) → Io (Unit {0})
served (ok answer) s =
    then_io (write answer s)
      λ s₁. then_io (flush s₁) λ s₂. bind_io (read 1536 s₂) λ c2 s₃. (ok tt, s₃)
served (err e) s = (err e, s)
served panic s = (panic, s)

unfoldable pub handshake_server : (List ℕ → List ℕ → List ℕ) → List ℕ → List ℕ → Io (Unit {0})
handshake_server hmac random1 random2 s =
    bind_io (read 1537 s)
      λ c0c1 s₁. served (check_version c0c1 (server_answer hmac random1 random2)) s₁
