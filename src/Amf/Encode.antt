-- ===== src/Amf/Encode.antt =====
-- The encoder of protocol/amf/encoder_amf0.go and EncodeBatch of amf.go, into a buffer that takes
-- every byte. The number of bytes that the functions return besides is the length of the result.
use srtmp.Prelude.{ℕ, suc, Bool, true, false, List, [], ◌∷◌, ◌++◌, length, leb}
use srtmp.Prelude.{if◌then◌else◌, uint16, uint32, Result, ok, err, bind, failure}
use srtmp.Wire.Writes.{be_bytes}
use srtmp.Amf.{Value, nil, number, boolean, string, object, array, typed_object, Fields, no_fields}
use srtmp.Amf.{field, Items, no_items, item, Marker, code, number_marker, boolean_marker}
use srtmp.Amf.{string_marker, object_marker, null_marker, ecma_array_marker}
use srtmp.Amf.{undefined_marker, unsupported_marker, acmplus_object_marker}
use srtmp.Amf.{object_end_marker, strict_array_marker, long_string_marker}

abbrev pub marked : Bool → Marker → List ℕ → List ℕ
marked true m bs = code m ∷ bs
marked false m bs = bs

unfoldable pub encode_number : ℕ → Bool → List ℕ
unfolding code
encode_number bits mark = marked mark number_marker (be_bytes 8 bits)

unfoldable pub encode_boolean : Bool → Bool → List ℕ
unfolding code
encode_boolean b mark = marked mark boolean_marker ((if b then 0x01 else 0x00) ∷ [])

unfoldable pub encode_string : List ℕ → Bool → List ℕ
unfolding code
encode_string s mark = marked mark string_marker (be_bytes 2 (uint16 (length s)) ++ s)

unfoldable pub encode_long_string : List ℕ → Bool → List ℕ
unfolding code
encode_long_string s mark = marked mark long_string_marker (be_bytes 4 (uint32 (length s)) ++ s)

unfoldable pub encode_null : Bool → List ℕ
unfolding code
encode_null mark = marked mark null_marker []

unfoldable pub encode_undefined : Bool → List ℕ
unfolding code
encode_undefined mark = marked mark undefined_marker []

unfoldable pub encode_unsupported : Bool → List ℕ
unfolding code
encode_unsupported mark = marked mark unsupported_marker []

-- EncodeAmf0Amf3Marker: what follows is AMF3.
unfoldable pub encode_amf3_marker : List ℕ
unfolding code
encode_amf3_marker = code acmplus_object_marker ∷ []

unfoldable pub count_fields : Fields → ℕ
count_fields no_fields = 0
count_fields (field k v fs) = suc (count_fields fs)

unfoldable pub count_items : Items → ℕ
count_items no_items = 0
count_items (item v vs) = suc (count_items vs)

-- The empty key and the end marker behind an object's fields.
unfoldable pub object_end : List ℕ
unfolding encode_string code
object_end = encode_string [] false ++ (code object_end_marker ∷ [])

-- EncodeAmf0, and the loops of EncodeAmf0Object and EncodeAmf0StrictArray.
unfoldable mutual
  unfolding code

  pub encode : Value → Result (List ℕ)
  encode nil = ok (encode_null true)
  encode (number bits) = ok (encode_number bits true)
  encode (boolean b) = ok (encode_boolean b true)
  encode (string s) =
      ok (if leb (length s) 65535 then encode_string s true else encode_long_string s true)
  encode (object fs) =
      bind (encode_fields fs) λ bs. ok (marked true object_marker (bs ++ object_end))
  encode (array vs) =
      bind (encode_items vs)
        λ bs. ok (marked true strict_array_marker (be_bytes 4 (uint32 (count_items vs)) ++ bs))
  encode (typed_object name fs) = err failure

  pub encode_fields : Fields → Result (List ℕ)
  encode_fields no_fields = ok []
  encode_fields (field key v fs) =
      bind (encode v)
        λ bs. bind (encode_fields fs) λ more. ok (encode_string key false ++ (bs ++ more))

  pub encode_items : Items → Result (List ℕ)
  encode_items no_items = ok []
  encode_items (item v vs) = bind (encode v) λ bs. bind (encode_items vs) λ more. ok (bs ++ more)

-- EncodeAmf0EcmaArray, which EncodeAmf0 never calls.
unfoldable pub encode_ecma_array : Fields → Bool → Result (List ℕ)
unfolding code object_end
encode_ecma_array fs mark = bind (encode_fields fs) λ bs.
    ok (marked mark ecma_array_marker (be_bytes 4 (uint32 (count_fields fs)) ++ (bs ++ object_end)))

unfoldable pub encode_batch : List Value → Result (List ℕ)
encode_batch [] = ok []
encode_batch (v ∷ vs) = bind (encode v) λ bs. bind (encode_batch vs) λ more. ok (bs ++ more)
