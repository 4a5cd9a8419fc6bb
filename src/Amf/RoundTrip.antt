-- ===== src/Amf/RoundTrip.antt =====
-- What protocol/amf encodes, it decodes: encoder_amf0.go and decoder_amf0.go, EncodeBatch and
-- DecodeBatch of amf.go.
use srtmp.Prelude.{ℕ, zero, suc, ◌+◌, ◌^◌, ◌≤◌, ◌<◌, ◌≡◌, refl, ap, ◌∙◌, true, false}
use srtmp.Prelude.{List, [], ◌∷◌, ◌++◌, append_assoc, length, length-append}
use srtmp.Prelude.{ok}
use srtmp.Prelude.{arith, uint16, uint32}
use srtmp.Wire.Writes.{length-be_bytes, be_bytes}
use srtmp.Amf.{Value, nil, number, boolean, string, object, array, typed_object, Fields, no_fields}
use srtmp.Amf.{
  field, Items, no_items, item, assign, done, code, and_then, object_marker, strict_array_marker,
}
use srtmp.Amf.Encode.{encode, encode_fields, encode_items, encode_number, encode_boolean}
use srtmp.Amf.Encode.{encode_string, encode_null, object_end, count_items}
use srtmp.Amf.Decode.{Amf3}
use srtmp.Amf.Decode.{read_uint, read_byte}
use srtmp.Amf.Decode.{decode_string}
use srtmp.Amf.Decode.{
  assert_marker, decode_strict_array, decode, decode_fields, decode_items, wrapped,
}
use srtmp.Amf.Decode.{after_key}
use srtmp.Amf.Valid.{IsValue, IsFields, IsItems, has_key, chain, chain-no_fields, chain_assoc}
use srtmp.Amf.Scalars.{be_number4, read_uint-be_bytes, decode_string-encode_string}
use srtmp.Amf.Scalars.{
  Encoded, EncodedFields, EncodedItems, Encoded-by, string-Encoded, nil-Encoded, number-Encoded,
  boolean-Encoded,
}
use srtmp.Amf.Valid.{Apart, Apart-no_fields, Apart-assign, assign-new}

object-Encoded :
    (amf3 : Amf3) (fs : Fields) (bs : List ℕ)
    → EncodedFields amf3 fs bs
    → Encoded amf3 (object fs) (code object_marker ∷ (bs ++ object_end))
unfolding encode decode chain
object-Encoded amf3 fs bs (e, next) =
    Encoded-by amf3 (object fs) (code object_marker ∷ (bs ++ object_end)) (rw e refl) (omega arith)
      λ fuel rest lt. rw (append_assoc bs object_end rest) (
        ap (λ r. and_then r (λ t more. done (object t) more))
          (next fuel no_fields rest (Apart-no_fields fs)
            (omega (arith, length-append bs object_end))))

array-Encoded :
    (amf3 : Amf3) (vs : Items) (bs : List ℕ)
    → count_items vs < 2 ^ 32
    → EncodedItems amf3 vs bs
    → Encoded amf3 (array vs) (code strict_array_marker ∷ (be_bytes 4 (count_items vs) ++ bs))
unfolding encode decode decode_strict_array
array-Encoded amf3 vs bs h (e, next) =
    let n = count_items vs in
    let whole : uint32 n ≡ n = omega arith in
    Encoded-by amf3 (array vs) (code strict_array_marker ∷ (be_bytes 4 n ++ bs))
      (rw (e, whole) refl) (omega arith)
      λ fuel rest lt.
        rw
          (
            append_assoc (be_bytes 4 n) bs rest,
            read_uint-be_bytes 4 n (bs ++ rest) (be_number4 n h),
          )
          (ap (λ r. and_then r (λ t more. done (array t) more))
            (next fuel rest (omega (arith, length-append (be_bytes 4 n) bs, length-be_bytes 4 n))))

-- One round of the loop over an object's fields, for the empty key and for another.
last_round :
    (amf3 : Amf3) (fuel : ℕ) (acc : Fields) (rest : List ℕ)
    → decode_fields amf3 (suc fuel) acc (object_end ++ rest) ≡ done acc rest
unfolding decode_fields object_end assert_marker read_byte encode_string decode_string read_uint
    be_bytes
last_round amf3 fuel acc rest = ground arith

field_round :
    (amf3 : Amf3) (fuel c : ℕ) (cs : List ℕ) (acc : Fields) (rest : List ℕ)
    → length (c ∷ cs) ≤ 65535
    → decode_fields amf3 (suc fuel) acc (encode_string (c ∷ cs) false ++ rest)
      ≡ and_then
          (wrapped (decode amf3 fuel rest))
          (λ v more. decode_fields amf3 fuel (assign (c ∷ cs) v acc) more)
unfolding decode_fields
field_round amf3 fuel c cs acc rest h =
    ap (λ r. and_then r (after_key acc (decode amf3 fuel) (decode_fields amf3 fuel)))
      (decode_string-encode_string (c ∷ cs) rest h)

no_fields-Encoded : (amf3 : Amf3) → EncodedFields amf3 no_fields []
unfolding encode_fields
no_fields-Encoded amf3 = (refl, last)
  where
    last :
        (fuel : ℕ) (acc : Fields) (rest : List ℕ)
        → Apart acc no_fields
        → length {A = ℕ} [] < fuel
        → decode_fields amf3 fuel acc (object_end ++ rest) ≡ done (chain acc no_fields) rest
    last zero acc rest new lt = absurd (omega arith)
    last (suc fuel) acc rest new lt = rw (chain-no_fields acc) (last_round amf3 fuel acc rest)

length-encode_string : (s : List ℕ) → length (encode_string s false) ≡ length s + 2
unfolding encode_string
length-encode_string s =
    omega (
      arith,
      length-append (be_bytes 2 (uint16 (length s))) s,
      length-be_bytes 2 (uint16 (length s)),
    )

field-Encoded :
    (amf3 : Amf3) (c : ℕ) (cs : List ℕ) (v : Value) (fs : Fields) (bs more : List ℕ)
    → length (c ∷ cs) ≤ 65535
    → has_key (c ∷ cs) fs ≡ false
    → Encoded amf3 v bs
    → EncodedFields amf3 fs more
    → EncodedFields amf3 (field (c ∷ cs) v fs) (encode_string (c ∷ cs) false ++ (bs ++ more))
unfolding encode_fields Apart chain
field-Encoded amf3 c cs v fs bs more short once (e, vpos, value) (es, next) = (simp (e, es), loop)
  where
    key : List ℕ
    key = c ∷ cs

    loop :
        (fuel : ℕ) (acc : Fields) (rest : List ℕ)
        → Apart acc (field key v fs)
        → length (encode_string key false ++ (bs ++ more)) < fuel
        → decode_fields amf3 fuel acc
            ((encode_string key false ++ (bs ++ more)) ++ (object_end ++ rest))
          ≡ done (chain acc (field key v fs)) rest
    loop zero acc rest new lt = absurd (omega arith)
    loop (suc fuel) acc rest (new, apart) lt =
        let size : length key + 2 + (length bs + length more) < suc fuel = omega (
          arith,
          length-append (encode_string key false) (bs ++ more),
          length-append bs more,
          length-encode_string key,
        ) in
        let acc' = chain acc (field key v no_fields) in
        simp
          (
            append_assoc,
            field_round amf3 fuel c cs acc (bs ++ (more ++ (object_end ++ rest))) short,
            value fuel (more ++ (object_end ++ rest)) (omega arith),
            assign-new key v acc new,
          )
          (next fuel acc' rest (Apart-assign key v acc fs once apart) (omega arith)
            ∙ ap (λ t. done t rest) (chain_assoc acc (field key v no_fields) fs))

no_items-Encoded : (amf3 : Amf3) → EncodedItems amf3 no_items []
unfolding encode_items decode_items count_items
no_items-Encoded amf3 = (refl, last)
  where
    last :
        (fuel : ℕ) (rest : List ℕ)
        → length {A = ℕ} [] + 1 < fuel
        → decode_items amf3 fuel 0 rest ≡ done no_items rest
    last zero rest lt = absurd (omega arith)
    last (suc fuel) rest lt = refl

item-Encoded :
    (amf3 : Amf3) (v : Value) (vs : Items) (bs more : List ℕ)
    → Encoded amf3 v bs
    → EncodedItems amf3 vs more
    → EncodedItems amf3 (item v vs) (bs ++ more)
unfolding encode_items decode_items count_items
item-Encoded amf3 v vs bs more (e, vpos, value) (es, next) = (simp (e, es), loop)
  where
    loop :
        (fuel : ℕ) (rest : List ℕ)
        → length (bs ++ more) + 1 < fuel
        → decode_items amf3 fuel (suc (count_items vs)) ((bs ++ more) ++ rest)
          ≡ done (item v vs) rest
    loop zero rest lt = absurd (omega arith)
    loop (suc fuel) rest lt =
        let size : length bs + length more + 1 < suc fuel = omega (arith, length-append bs more) in
        simp (append_assoc, value fuel (more ++ rest) (omega arith), next fuel rest (omega arith))

mutual
  unfolding IsValue IsFields IsItems

  pub encoded : (amf3 : Amf3) (v : Value) → IsValue v → (bs : List ℕ) × Encoded amf3 v bs
  encoded amf3 nil h = (encode_null true, nil-Encoded amf3)
  encoded amf3 (number n) h = (encode_number n true, number-Encoded amf3 n h)
  encoded amf3 (boolean b) h = (encode_boolean b true, boolean-Encoded amf3 b)
  encoded amf3 (string s) h = string-Encoded amf3 s h
  encoded amf3 (object fs) h =
      let (bs, e) = encoded_fields amf3 fs h in (_, object-Encoded amf3 fs bs e)
  encoded amf3 (array vs) (n, h) =
      let (bs, e) = encoded_items amf3 vs h in (_, array-Encoded amf3 vs bs n e)
  encoded amf3 (typed_object name fs) h = absurd h

  encoded_fields :
      (amf3 : Amf3) (fs : Fields) → IsFields fs → (bs : List ℕ) × EncodedFields amf3 fs bs
  encoded_fields amf3 no_fields h = ([], no_fields-Encoded amf3)
  encoded_fields amf3 (field [] v fs) (pos, short, once, hv, hs) = absurd (omega arith)
  encoded_fields amf3 (field (c ∷ cs) v fs) (pos, short, once, hv, hs) =
      let (bs, e) = encoded amf3 v hv in
      let (more, es) = encoded_fields amf3 fs hs in
      (_, field-Encoded amf3 c cs v fs bs more short once e es)

  encoded_items : (amf3 : Amf3) (vs : Items) → IsItems vs → (bs : List ℕ) × EncodedItems amf3 vs bs
  encoded_items amf3 no_items h = ([], no_items-Encoded amf3)
  encoded_items amf3 (item v vs) (hv, hs) =
      let (bs, e) = encoded amf3 v hv in
      let (more, es) = encoded_items amf3 vs hs in (_, item-Encoded amf3 v vs bs more e es)

-- A value that can be sent is encoded without an error, and DecodeAmf0 takes exactly the encoding
-- from the input and returns the value, whatever follows and whatever decodes AMF3. Fuel above the
-- number of bytes is enough.
pub decode-encode :
    (amf3 : Amf3) (v : Value) (extra : ℕ) (rest : List ℕ)
    → IsValue v
    → (bs : List ℕ) × (encode v ≡ ok bs)
      × (decode amf3 (suc (length bs + extra)) (bs ++ rest) ≡ done v rest)
decode-encode amf3 v extra rest h =
    let (bs, f) = encoded amf3 v h in (bs, f.0, f.2 (suc (length bs + extra)) rest (omega arith))
