-- ===== src/Amf/Leaves.antt =====
-- What the scalar decoders of protocol/amf/decoder_amf0.go leave of the input.
use srtmp.Prelude.{ℕ, ◌+◌, ◌≤◌, ◌<◌, Bool, true, false, List, [], ◌∷◌, length, take}
use srtmp.Prelude.{drop, length-drop, leb, ◌==◌, if◌then◌else◌, failure, arith, Bool-cases}
use srtmp.Prelude.{inl, inr}
use srtmp.Amf.{Marker, code, Decoded, done}
use srtmp.Amf.{rejected, crashed, out_of_fuel, and_then}
use srtmp.Amf.Decode.{Decoder, wrapped, read_bytes, read_byte, read_uint, assert_marker}
use srtmp.Amf.Decode.{decode_number, decode_boolean, decode_string, decode_long_string}
use srtmp.Amf.Decode.{decode_date}

-- The decoder returned a value with fewer than `k` bytes left, returned an error, or panicked.
abbrev pub Leaves : {A : Type 0} → ℕ → Decoded A → Type 0
Leaves k (done a rest) = length rest < k
Leaves k (rejected e) = Unit
Leaves k crashed = Unit
Leaves k out_of_fuel = ⊥

pub and_then-Leaves :
    {A B : Type 0} (j k : ℕ) (r : Decoded A) (f : A → Decoder B)
    → Leaves j r
    → ((a : A) (rest : List ℕ) → length rest < j → Leaves k (f a rest))
    → Leaves k (and_then r f)
and_then-Leaves j k (done a rest) f h g = g a rest h
and_then-Leaves j k (rejected e) f h g = tt
and_then-Leaves j k crashed f h g = tt
and_then-Leaves j k out_of_fuel f h g = h

pub wrapped-Leaves : {A : Type 0} (k : ℕ) (r : Decoded A) → Leaves k r → Leaves k (wrapped r)
wrapped-Leaves k (done a rest) h = h
wrapped-Leaves k (rejected e) h = tt
wrapped-Leaves k crashed h = tt
wrapped-Leaves k out_of_fuel h = h

pub Leaves-more : {A : Type 0} (j k : ℕ) (r : Decoded A) → j ≤ k → Leaves j r → Leaves k r
Leaves-more j k (done a rest) h g = omega arith
Leaves-more j k (rejected e) h g = tt
Leaves-more j k crashed h g = tt
Leaves-more j k out_of_fuel h g = g

pub checked-Leaves :
    {A : Type 0} (k : ℕ) (b : Bool) (a : A) (rest : List ℕ) (y : Decoded A)
    → length rest < k
    → Leaves k y
    → Leaves k (if b then done a rest else y)
checked-Leaves k true a rest y h g = h
checked-Leaves k false a rest y h g = g

pub read_bytes-Leaves : (n k : ℕ) (bs : List ℕ) → length bs < k → Leaves k (read_bytes n bs)
unfolding read_bytes
read_bytes-Leaves n k [] h = tt
read_bytes-Leaves n k (b ∷ bs) h =
    checked-Leaves k (leb n (length (b ∷ bs))) (take n (b ∷ bs)) (drop n (b ∷ bs))
      (rejected failure) (omega (arith, length-drop n (b ∷ bs))) tt

pub read_byte-Leaves : (k : ℕ) (bs : List ℕ) → length bs ≤ k → Leaves k (read_byte bs)
unfolding read_byte
read_byte-Leaves k [] h = tt
read_byte-Leaves k (b ∷ bs) h = omega arith

-- An integer of `n` bytes is behind the reader, or the read has failed.
pub read_uint-Leaves :
    {A : Type 0} (n k : ℕ) (bs : List ℕ) (f : ℕ → Decoder A)
    → ((v : ℕ) (rest : List ℕ) → length rest + n ≤ length bs → Leaves k (f v rest))
    → Leaves k (and_then (read_uint n bs) f)
unfolding read_uint
read_uint-Leaves n k bs f h = elim (Bool-cases (leb n (length bs))) [
  | inl fits ↦ rw fits (h _ (drop n bs) (ground (arith, length-drop n bs)))
  | inr short ↦ rw short tt
]

pub assert_marker-Leaves :
    (b : Bool) (m : Marker) (k : ℕ) (bs : List ℕ) → length bs < k → Leaves k (assert_marker b m bs)
unfolding assert_marker
assert_marker-Leaves false m k bs h = h
assert_marker-Leaves true m k [] h = tt
assert_marker-Leaves true m k (b ∷ bs) h =
    checked-Leaves k (b == code m) tt bs (rejected failure) (omega arith) tt

pub decode_number-Leaves : (k : ℕ) (bs : List ℕ) → length bs < k → Leaves k (decode_number false bs)
unfolding decode_number read_uint
decode_number-Leaves k bs h = ground (arith, length-drop 8 bs)

pub decode_boolean-Leaves :
    (k : ℕ) (bs : List ℕ) → length bs < k → Leaves k (decode_boolean false bs)
unfolding decode_boolean
decode_boolean-Leaves k bs h =
    and_then-Leaves k k (read_byte bs) _ (read_byte-Leaves k bs (omega arith)) λ b rest g.
      checked-Leaves k (b == 0x00) false rest _ (omega arith)
        (checked-Leaves k (b == 0x01) true rest (rejected failure) (omega arith) tt)

pub decode_string-Leaves : (k : ℕ) (bs : List ℕ) → length bs ≤ k → Leaves k (decode_string false bs)
unfolding decode_string
decode_string-Leaves k bs h = read_uint-Leaves 2 k bs _ λ n rest g.
    checked-Leaves k (n == 0) [] rest (wrapped (read_bytes n rest)) (omega arith)
      (wrapped-Leaves k _ (read_bytes-Leaves n k rest (omega arith)))

pub decode_long_string-Leaves :
    (k : ℕ) (bs : List ℕ) → length bs < k → Leaves k (decode_long_string false bs)
unfolding decode_long_string
decode_long_string-Leaves k bs h =
    read_uint-Leaves 4 k bs _
      λ n rest g. wrapped-Leaves k _ (read_bytes-Leaves n k rest (omega arith))

pub decode_date-Leaves : (k : ℕ) (bs : List ℕ) → length bs < k → Leaves k (decode_date false bs)
unfolding decode_date
decode_date-Leaves k bs h =
    and_then-Leaves k k (wrapped (decode_number false bs)) _
      (wrapped-Leaves k _ (decode_number-Leaves k bs h))
      λ n rest g.
        and_then-Leaves k k (wrapped (read_bytes 2 rest)) _
          (wrapped-Leaves k _ (read_bytes-Leaves 2 k rest g)) (λ u left f. f)

-- A value made of what a decoder returns.
pub got-Leaves :
    {A B : Type 0} (k : ℕ) (r : Decoded A) (f : A → B)
    → Leaves k r
    → Leaves k (and_then r (λ a rest. done (f a) rest))
got-Leaves k r f h = and_then-Leaves k k r _ h (λ a rest g. g)
