-- ===== src/Wire/Writes.antt =====
-- The writing half of protocol/core/read_writer.go, on a connection that works and on one that fails.
use srtmp.Prelude.{ℕ, zero, suc, ◌*◌, ◌/◌, ◌%◌, ◌^◌, ◌≡◌, refl, ap, false}
use srtmp.Prelude.{List, [], ◌∷◌, ◌++◌, append-nil, append_assoc, length, none}
use srtmp.Prelude.{ok, sym, bit_and, bit_and_mask, arith}
use srtmp.Wire.{ReadWriter, buf_write, write, write_uint_be_loop, write_uint_be, write_uint_le_loop}
use srtmp.Wire.{write_uint_le}

-- Nothing has failed, and the connection takes every byte.
pub record CanWrite (s : ReadWriter) : Type 0 where
  pub healthy : s.failed ≡ false
  pub unlimited : s.limit ≡ none
  pub no_error : s.write_error ≡ none

-- The state after `bs` was written.
abbrev pub put : List ℕ → ReadWriter → ReadWriter
put bs s = record s { output = s.output ++ bs }

pub put-CanWrite : (bs : List ℕ) (s : ReadWriter) → CanWrite s → CanWrite (put bs s)
put-CanWrite bs s c = record { healthy = c.healthy; unlimited = c.unlimited; no_error = c.no_error }

pub put-put : (a b : List ℕ) (s : ReadWriter) → put b (put a s) ≡ put (a ++ b) s
put-put a b s = ap (λ (o : List ℕ). record s { output = o }) (append_assoc s.output a b)

pub put-nil : (s : ReadWriter) → put [] s ≡ s
put-nil s = ap (λ (o : List ℕ). record s { output = o }) (append-nil s.output)

-- The `n` low bytes of `v`, the highest first and the lowest first.
unfoldable pub be_bytes : ℕ → ℕ → List ℕ
be_bytes zero v = []
be_bytes (suc n) v = (v / 2 ^ (n * 8) % 256) ∷ be_bytes n v

unfoldable pub le_bytes : ℕ → ℕ → List ℕ
le_bytes zero v = []
le_bytes (suc n) v = (v % 256) ∷ le_bytes n (v / 256)

pub length-be_bytes : (n v : ℕ) → length (be_bytes n v) ≡ n
unfolding be_bytes
length-be_bytes zero v = refl
length-be_bytes (suc n) v = ap suc (length-be_bytes n v)

pub buf_write_lem : (p : List ℕ) (s : ReadWriter) → CanWrite s → buf_write p s ≡ (ok tt, put p s)
unfolding buf_write
buf_write_lem p s c = ground arith

pub write_lem : (p : List ℕ) (s : ReadWriter) → CanWrite s → write p s ≡ (ok tt, put p s)
unfolding write
write_lem p s c = ground (arith, buf_write_lem p s c)

masked : (x : ℕ) → bit_and (x % 256) 255 ≡ x % 256
masked x = omega (arith, bit_and_mask 8 (x % 256))

write_uint_be_loop_lem :
    (n v : ℕ) (s : ReadWriter)
    → CanWrite s
    → write_uint_be_loop n v s ≡ (ok tt, put (be_bytes n v) s)
unfolding write_uint_be_loop be_bytes
write_uint_be_loop_lem zero v s c = ap (λ (u : ReadWriter). (ok tt, u)) (sym (put-nil s))
write_uint_be_loop_lem (suc n) v s c = simp (
  masked (v / 2 ^ (n * 8)),
  buf_write_lem _ s c,
  write_uint_be_loop_lem n v _ (put-CanWrite _ s c),
  put-put,
)

pub write_uint_be_lem :
    (n v : ℕ) (s : ReadWriter) → CanWrite s → write_uint_be v n s ≡ (ok tt, put (be_bytes n v) s)
unfolding write_uint_be
write_uint_be_lem n v s c = ground (arith, write_uint_be_loop_lem n v s)

write_uint_le_loop_lem :
    (n v : ℕ) (s : ReadWriter)
    → CanWrite s
    → write_uint_le_loop n v s ≡ (ok tt, put (le_bytes n v) s)
unfolding write_uint_le_loop le_bytes
write_uint_le_loop_lem zero v s c = ap (λ (u : ReadWriter). (ok tt, u)) (sym (put-nil s))
write_uint_le_loop_lem (suc n) v s c = simp (
  masked v,
  buf_write_lem _ s c,
  write_uint_le_loop_lem n (v / 256) _ (put-CanWrite _ s c),
  put-put,
)

pub write_uint_le_lem :
    (n v : ℕ) (s : ReadWriter) → CanWrite s → write_uint_le v n s ≡ (ok tt, put (le_bytes n v) s)
unfolding write_uint_le
write_uint_le_lem n v s c = ground (arith, write_uint_le_loop_lem n v s)
