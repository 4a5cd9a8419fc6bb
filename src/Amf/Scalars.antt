-- ===== src/Amf/Scalars.antt =====
-- What protocol/amf/decoder_amf0.go makes of an encoded number, string, Boolean and null.
use srtmp.Prelude.{ℕ, zero, suc, ◌+◌, ◌^◌, ◌≤◌, ◌<◌, ◌≡◌, refl, ap, Bool, true, false}
use srtmp.Prelude.{List, [], ◌∷◌, ◌++◌, length, length-append, leb}
use srtmp.Prelude.{take-append_exact, drop-append_exact, ok}
use srtmp.Prelude.{arith, le→leb, Bool-cases, inl, inr, uint16, uint32}
use srtmp.Wire.Writes.{length-be_bytes, be_bytes}
use srtmp.Amf.{Value, nil, number, boolean, string, Fields}
use srtmp.Amf.{Items, done, and_then}
use srtmp.Amf.Encode.{encode, encode_fields, encode_items, encode_number, encode_boolean}
use srtmp.Amf.Encode.{encode_string, encode_long_string, encode_null, object_end, count_items}
use srtmp.Amf.Decode.{Amf3}
use srtmp.Amf.Decode.{read_uint, read_bytes, read_byte, be_number, decode_number}
use srtmp.Amf.Decode.{decode_boolean, decode_string, decode_long_string, decode_nothing}
use srtmp.Amf.Decode.{assert_marker, decode, decode_fields, decode_items, wrapped}
use srtmp.Amf.Valid.{chain}
use srtmp.Amf.Valid.{Apart}

pub be_number2 : (v : ℕ) → v < 2 ^ 16 → be_number 0 (be_bytes 2 v) ≡ v
unfolding be_bytes
be_number2 v h = omega arith

pub be_number4 : (v : ℕ) → v < 2 ^ 32 → be_number 0 (be_bytes 4 v) ≡ v
unfolding be_bytes
be_number4 v h = omega arith

be_number8 : (v : ℕ) → v < 2 ^ 64 → be_number 0 (be_bytes 8 v) ≡ v
unfolding be_bytes
be_number8 v h = omega arith

pub read_uint-be_bytes :
    (n v : ℕ) (rest : List ℕ)
    → be_number 0 (be_bytes n v) ≡ v
    → read_uint n (be_bytes n v ++ rest) ≡ done v rest
unfolding read_uint
read_uint-be_bytes n v rest e = simp (
  le→leb n (length (be_bytes n v ++ rest))
      (omega (arith, length-append (be_bytes n v) rest, length-be_bytes n v)),
  take-append_exact (be_bytes n v) rest n (length-be_bytes n v),
  drop-append_exact (be_bytes n v) rest n (length-be_bytes n v),
  e,
)

read_bytes-append :
    (c : ℕ) (cs rest : List ℕ)
    → read_bytes (suc (length cs)) (c ∷ (cs ++ rest)) ≡ done (c ∷ cs) rest
unfolding read_bytes
read_bytes-append c cs rest = simp (
  le→leb (suc (length cs)) (suc (length (cs ++ rest))) (omega (arith, length-append cs rest)),
  take-append_exact cs rest (length cs) refl,
  drop-append_exact cs rest (length cs) refl,
)

decode_number-encode_number :
    (v : ℕ) (rest : List ℕ)
    → v < 2 ^ 64
    → decode_number false (encode_number v false ++ rest) ≡ done v rest
unfolding decode_number encode_number assert_marker
decode_number-encode_number v rest h = read_uint-be_bytes 8 v rest (be_number8 v h)

decode_boolean-encode_boolean :
    (b : Bool) (rest : List ℕ) → decode_boolean false (encode_boolean b false ++ rest) ≡ done b rest
unfolding decode_boolean encode_boolean assert_marker read_byte
decode_boolean-encode_boolean true rest = refl
decode_boolean-encode_boolean false rest = refl

pub decode_string-encode_string :
    (s rest : List ℕ)
    → length s ≤ 65535
    → decode_string false (encode_string s false ++ rest) ≡ done s rest
unfolding decode_string encode_string assert_marker read_uint be_bytes
decode_string-encode_string [] rest h = ground arith
decode_string-encode_string (c ∷ cs) rest h =
    let n = suc (length cs) in
    let whole : uint16 n ≡ n = omega arith in
    rw (whole, read_uint-be_bytes 2 n (c ∷ (cs ++ rest)) (be_number2 n (omega arith)))
      (ground (arith, read_bytes-append c cs rest))

decode_long_string-encode_long_string :
    (c : ℕ) (cs rest : List ℕ)
    → length (c ∷ cs) < 2 ^ 32
    → decode_long_string false (encode_long_string (c ∷ cs) false ++ rest) ≡ done (c ∷ cs) rest
unfolding decode_long_string encode_long_string assert_marker read_uint be_bytes
decode_long_string-encode_long_string c cs rest h =
    let n = suc (length cs) in
    let whole : uint32 n ≡ n = omega arith in
    rw (whole, read_uint-be_bytes 4 n (c ∷ (cs ++ rest)) (be_number4 n h))
      (ap wrapped (read_bytes-append c cs rest))

-- An encoding of the value: it is not empty, and the decoder takes it from the input.
abbrev pub Encoded : Amf3 → Value → List ℕ → Type 0
Encoded amf3 v bs =
    (encode v ≡ ok bs)
    × (0 < length bs)
    × ((fuel : ℕ) (rest : List ℕ) → length bs < fuel → decode amf3 fuel (bs ++ rest) ≡ done v rest)

abbrev pub EncodedFields : Amf3 → Fields → List ℕ → Type 0
EncodedFields amf3 fs bs =
    (encode_fields fs ≡ ok bs)
    × ((fuel : ℕ) (acc : Fields) (rest : List ℕ)
        → Apart acc fs
        → length bs < fuel
        → decode_fields amf3 fuel acc (bs ++ (object_end ++ rest)) ≡ done (chain acc fs) rest)

abbrev pub EncodedItems : Amf3 → Items → List ℕ → Type 0
EncodedItems amf3 vs bs =
    (encode_items vs ≡ ok bs)
    × ((fuel : ℕ) (rest : List ℕ)
        → length bs + 1 < fuel
        → decode_items amf3 fuel (count_items vs) (bs ++ rest) ≡ done vs rest)

-- A value whose bytes begin with a marker is decoded in one round.
pub Encoded-by :
    (amf3 : Amf3) (v : Value) (bs : List ℕ)
    → encode v ≡ ok bs
    → 0 < length bs
    → ((fuel : ℕ) (rest : List ℕ)
        → length bs ≤ fuel
        → decode amf3 (suc fuel) (bs ++ rest) ≡ done v rest)
    → Encoded amf3 v bs
Encoded-by amf3 v bs e pos step = (e, pos, round)
  where
    round :
        (fuel : ℕ) (rest : List ℕ) → length bs < fuel → decode amf3 fuel (bs ++ rest) ≡ done v rest
    round zero rest lt = absurd (omega arith)
    round (suc fuel) rest lt = step fuel rest (omega arith)

pub short-Encoded :
    (amf3 : Amf3) (s : List ℕ) → length s ≤ 65535 → Encoded amf3 (string s) (encode_string s true)
unfolding encode encode_string decode
short-Encoded amf3 s h =
    Encoded-by amf3 (string s) (encode_string s true) (rw (le→leb (length s) 65535 h) refl)
      (omega arith)
      λ fuel rest lt.
        ap (λ r. and_then r (λ t more. done (string t) more)) (decode_string-encode_string s rest h)

long-Encoded :
    (amf3 : Amf3) (s : List ℕ)
    → leb (length s) 65535 ≡ false
    → length s < 2 ^ 32
    → Encoded amf3 (string s) (encode_long_string s true)
unfolding encode encode_long_string decode
long-Encoded amf3 [] long h = absurd (ground arith)
long-Encoded amf3 (c ∷ cs) long h =
    Encoded-by amf3 (string (c ∷ cs)) (encode_long_string (c ∷ cs) true) (rw long refl)
      (omega arith)
      λ fuel rest lt.
        ap (λ r. and_then r (λ t more. done (string t) more))
          (decode_long_string-encode_long_string c cs rest h)

pub string-Encoded :
    (amf3 : Amf3) (s : List ℕ) → length s < 2 ^ 32 → (bs : List ℕ) × Encoded amf3 (string s) bs
string-Encoded amf3 s h = elim (Bool-cases (leb (length s) 65535)) [
  | inl short ↦ (encode_string s true, short-Encoded amf3 s (ground arith))
  | inr long ↦ (encode_long_string s true, long-Encoded amf3 s long h)
]

pub nil-Encoded : (amf3 : Amf3) → Encoded amf3 nil (encode_null true)
unfolding encode encode_null decode decode_nothing
nil-Encoded amf3 = Encoded-by amf3 nil (encode_null true) refl (omega arith) (λ fuel rest lt. refl)

pub number-Encoded :
    (amf3 : Amf3) (n : ℕ) → n < 2 ^ 64 → Encoded amf3 (number n) (encode_number n true)
unfolding encode encode_number decode
number-Encoded amf3 n h =
    Encoded-by amf3 (number n) (encode_number n true) refl (omega arith) λ fuel rest lt.
      ap (λ r. and_then r (λ t more. done (number t) more)) (decode_number-encode_number n rest h)

pub boolean-Encoded : (amf3 : Amf3) (b : Bool) → Encoded amf3 (boolean b) (encode_boolean b true)
unfolding encode encode_boolean decode
boolean-Encoded amf3 b =
    Encoded-by amf3 (boolean b) (encode_boolean b true) refl (omega arith) λ fuel rest lt.
      ap (λ r. and_then r (λ t more. done (boolean t) more)) (decode_boolean-encode_boolean b rest)
