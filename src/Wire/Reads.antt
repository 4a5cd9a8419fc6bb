-- ===== src/Wire/Reads.antt =====
-- The reading half of protocol/core/read_writer.go: what it returns on the bytes of an integer, and
-- what it leaves of the input.
use srtmp.Prelude.{ℕ, zero, suc, ◌*◌, ◌%◌, ◌^◌, ◌≤◌, ◌≡◌, ap}
use srtmp.Prelude.{List, [], ◌++◌, length, none, ok}
use srtmp.Prelude.{arith, length-append, take-append_exact, drop-append_exact}
use srtmp.Wire.{ReadWriter, read, read_uint_be, read_uint_be_loop, read_uint_le}
use srtmp.Wire.{read_uint_le_loop}
use srtmp.Wire.{write_uint_be, write_uint_le}
use srtmp.Wire.Writes.{CanWrite, be_bytes, le_bytes, write_uint_be_lem, write_uint_le_lem}

-- The same connection with other bytes to deliver.
abbrev pub feed : List ℕ → ReadWriter → ReadWriter
feed bs s = record s { input = bs }

pub feed_self : (s : ReadWriter) (bs : List ℕ) → s.input ≡ bs → s ≡ feed bs s
feed_self s bs e = ap (λ (i : List ℕ). record s { input = i }) e

pub read_uint_be_lem :
    (n v : ℕ) (rest : List ℕ) (s : ReadWriter)
    → n ≤ 4
    → s.read_error ≡ none
    → read_uint_be n (feed (be_bytes n v ++ rest) s) ≡ (ok (v % 2 ^ (n * 8)), feed rest s)
unfolding read_uint_be read_uint_be_loop be_bytes
read_uint_be_lem zero v rest s h k = ground arith
read_uint_be_lem (suc zero) v rest s h k = ground arith
read_uint_be_lem (suc (suc zero)) v rest s h k = ground arith
read_uint_be_lem (suc (suc (suc zero))) v rest s h k = ground arith
read_uint_be_lem (suc (suc (suc (suc zero)))) v rest s h k = ground arith
read_uint_be_lem (suc (suc (suc (suc (suc n))))) v rest s h k = absurd (omega arith)

pub read_uint_le_lem :
    (n v : ℕ) (rest : List ℕ) (s : ReadWriter)
    → n ≤ 4
    → s.read_error ≡ none
    → read_uint_le n (feed (le_bytes n v ++ rest) s) ≡ (ok (v % 2 ^ (n * 8)), feed rest s)
unfolding read_uint_le read_uint_le_loop le_bytes
read_uint_le_lem zero v rest s h k = ground arith
read_uint_le_lem (suc zero) v rest s h k = ground arith
read_uint_le_lem (suc (suc zero)) v rest s h k = ground arith
read_uint_le_lem (suc (suc (suc zero))) v rest s h k = ground arith
read_uint_le_lem (suc (suc (suc (suc zero)))) v rest s h k = ground arith
read_uint_le_lem (suc (suc (suc (suc (suc n))))) v rest s h k = absurd (omega arith)

-- A read of exactly the bytes that come next.
pub read_lem :
    (n : ℕ) (bs rest : List ℕ) (s : ReadWriter)
    → length bs ≡ n
    → s.read_error ≡ none
    → read n (feed (bs ++ rest) s) ≡ (ok bs, feed rest s)
unfolding read
read_lem n bs rest s e h =
    ground (arith, length-append bs rest, take-append_exact bs rest n, drop-append_exact bs rest n)

-- On a connection that takes every byte, an unsigned integer written in up to four bytes, in either
-- byte order, is read back modulo 2 to the number of its bits by a reader that has met no error, and
-- the bytes behind it are left.
pub read_uint-write_uint :
    (n v : ℕ) (rest : List ℕ) (w r : ReadWriter)
    → n ≤ 4
    → CanWrite w
    → w.output ≡ []
    → r.read_error ≡ none
    → ((write_uint_be v n w).0 ≡ ok tt)
      × (read_uint_be n (feed ((write_uint_be v n w).1.output ++ rest) r)
          ≡ (ok (v % 2 ^ (n * 8)), feed rest r))
      × ((write_uint_le v n w).0 ≡ ok tt)
      × (read_uint_le n (feed ((write_uint_le v n w).1.output ++ rest) r)
          ≡ (ok (v % 2 ^ (n * 8)), feed rest r))
read_uint-write_uint n v rest w r h c e k = (
  rw (write_uint_be_lem n v w c),
  rw (write_uint_be_lem n v w c, e) (read_uint_be_lem n v rest r h k),
  rw (write_uint_le_lem n v w c),
  rw (write_uint_le_lem n v w c, e) (read_uint_le_lem n v rest r h k),
)
