-- ===== src/Amf/Decode.antt =====
-- The decoder of protocol/amf/decoder_amf0.go, with util.go, and DecodeBatch of amf.go, on a
-- bytes.Reader. The cache of references is filled and never read, and left out; a value behind the
-- AMF3 marker is for DecodeAmf3 of decoder_amf3.go, whose reading of integers, strings, dates, arrays,
-- objects and byte arrays is the parameter `amf3`.
use srtmp.Prelude.{ℕ, zero, suc, Bool, true, false, List, [], ◌∷◌, length, take, drop, Option, none}
use srtmp.Prelude.{some, leb, ◌==◌, if◌then◌else◌, ◌+◌, ◌*◌, Error, eof, failure}
use srtmp.Amf.{Value, nil, number, boolean, string, object, array, typed_object, Fields, no_fields}
use srtmp.Amf.{Items, no_items, item, Marker, code, marker_of, assign, Decoded, done}
use srtmp.Amf.{
  rejected, crashed, out_of_fuel, and_then, number_marker, boolean_marker, string_marker,
}
use srtmp.Amf.{object_marker, movieclip_marker, null_marker, undefined_marker, reference_marker}
use srtmp.Amf.{ecma_array_marker, object_end_marker, strict_array_marker, date_marker}
use srtmp.Amf.{long_string_marker, unsupported_marker, recordset_marker, xml_document_marker}
use srtmp.Amf.{typed_object_marker, acmplus_object_marker}

abbrev pub Decoder : Type 0 → Type 0
Decoder A = List ℕ → Decoded A

-- Error(...) replaces an error by one of the package's own.
abbrev pub wrapped : {A : Type 0} → Decoded A → Decoded A
wrapped (done a rest) = done a rest
wrapped (rejected e) = rejected failure
wrapped crashed = crashed
wrapped out_of_fuel = out_of_fuel

-- bytes.Reader's Read reports the end even to a caller that wants no byte.
unfoldable pub read_bytes : ℕ → Decoder (List ℕ)
read_bytes n [] = rejected eof
read_bytes n (b ∷ bs) =
    if leb n (length (b ∷ bs)) then done (take n (b ∷ bs)) (drop n (b ∷ bs)) else rejected failure

unfoldable pub read_byte : Decoder ℕ
read_byte [] = rejected eof
read_byte (b ∷ bs) = done b bs

abbrev pub be_number : ℕ → List ℕ → ℕ
be_number n [] = n
be_number n (b ∷ bs) = be_number (n * 256 + b) bs

-- binary.Read of a big-endian integer of `n` bytes, in the error that its callers make of it.
unfoldable pub read_uint : ℕ → Decoder ℕ
read_uint n bs =
    if leb n (length bs) then done (be_number 0 (take n bs)) (drop n bs) else rejected failure

unfoldable pub assert_marker : Bool → Marker → Decoder (Unit {0})
unfolding read_byte code
assert_marker false m bs = done tt bs
assert_marker true m bs =
    and_then (read_byte bs) λ b rest. if b == code m then done tt rest else rejected failure

unfoldable pub decode_number : Bool → Decoder ℕ
unfolding assert_marker
decode_number check bs = and_then (assert_marker check number_marker bs) λ _ rest. read_uint 8 rest

unfoldable pub decode_boolean : Bool → Decoder Bool
unfolding assert_marker
decode_boolean check bs = and_then (assert_marker check boolean_marker bs) λ _ rest.
    and_then (read_byte rest) λ b more.
      if b == 0x00 then done false more else if b == 0x01 then done true more else rejected failure

-- A string of length 0 is returned without a read.
unfoldable pub decode_string : Bool → Decoder (List ℕ)
unfolding assert_marker
decode_string check bs = and_then (assert_marker check string_marker bs) λ _ rest.
    and_then (read_uint 2 rest)
      λ n more. if n == 0 then done [] more else wrapped (read_bytes n more)

unfoldable pub decode_long_string : Bool → Decoder (List ℕ)
unfolding assert_marker
decode_long_string check bs =
    and_then (assert_marker check long_string_marker bs)
      λ _ rest. and_then (read_uint 4 rest) λ n more. wrapped (read_bytes n more)

unfoldable pub decode_xml_document : Bool → Decoder (List ℕ)
unfolding assert_marker
decode_xml_document check bs =
    and_then (assert_marker check xml_document_marker bs) λ _ rest. decode_long_string false rest

unfoldable pub decode_date : Bool → Decoder ℕ
unfolding assert_marker
decode_date check bs = and_then (assert_marker check date_marker bs) λ _ rest.
    and_then (wrapped (decode_number false rest))
      λ n more. and_then (wrapped (read_bytes 2 more)) λ _ left. done n left

-- DecodeAmf0Null, DecodeAmf0Undefined and DecodeAmf0Unsupported.
unfoldable pub decode_nothing : Bool → Marker → Decoder Value
unfolding assert_marker
decode_nothing check m bs = and_then (assert_marker check m bs) λ _ rest. done nil rest

-- The loop of DecodeAmf0Object after a key was read.
abbrev pub after_key : Fields → Decoder Value → (Fields → Decoder Fields) → List ℕ → Decoder Fields
after_key acc value next [] bs =
    and_then (wrapped (assert_marker true object_end_marker bs)) λ _ rest. done acc rest
after_key acc value next (c ∷ cs) bs =
    and_then (wrapped (value bs)) λ v rest. next (assign (c ∷ cs) v acc) rest

-- The error of the length's read is dropped; a read that fails has used up what was left.
unfoldable pub decode_ecma_array : Decoder Fields → Decoder Fields
decode_ecma_array fields bs = wrapped (fields (drop 4 bs))

unfoldable pub decode_strict_array : (ℕ → Decoder Items) → Decoder Items
decode_strict_array items bs = and_then (read_uint 4 bs) items

unfoldable pub decode_typed_object : Decoder Fields → Decoder Value
decode_typed_object fields bs =
    and_then (wrapped (decode_string false bs))
      λ name rest. and_then (wrapped (fields rest)) λ fs more. done (typed_object name fs) more

-- What DecodeAmf3 does behind a marker: it returns a value and has read a number of bytes, it returns
-- an error, or it panics.
pub data Taken : Type 0 where
  took : Value → ℕ → Taken
  failed : Error → Taken
  broke : Taken

-- Every marker and the bytes behind it have an outcome. Within a batch no two calls see the same bytes
-- left, so that the outcomes may depend on the references that earlier values have filled in.
abbrev pub Amf3 : Type 0
Amf3 = ℕ → List ℕ → Taken

abbrev pub taken : Taken → Decoder Value
taken (took v n) bs = done v (drop n bs)
taken (failed e) bs = rejected e
taken broke bs = crashed

-- DecodeAmf3: undefined, null, the Booleans and numbers; what is not a marker; and the rest.
unfoldable pub decode_amf3 : Amf3 → Decoder Value
decode_amf3 amf3 [] = rejected eof
decode_amf3 amf3 (m ∷ bs) =
    if m == 0x00
    then done nil bs
    else if m == 0x01
    then done nil bs
    else if m == 0x02
    then done (boolean false) bs
    else if m == 0x03
    then done (boolean true) bs
    else if m == 0x05
    then (and_then (read_uint 8 bs) λ n rest. done (number n) rest)
    else if leb m 0x0c
    then taken (amf3 m bs) bs
    else rejected failure

-- The switch of DecodeAmf0, with the decoders of what an object's and an array's values are.
abbrev pub decode_marked :
    Amf3 → Decoder Fields → (ℕ → Decoder Items) → Option Marker → Decoder Value
decode_marked amf3 fields items (some number_marker) bs =
    and_then (decode_number false bs) λ n rest. done (number n) rest
decode_marked amf3 fields items (some boolean_marker) bs =
    and_then (decode_boolean false bs) λ b rest. done (boolean b) rest
decode_marked amf3 fields items (some string_marker) bs =
    and_then (decode_string false bs) λ s rest. done (string s) rest
decode_marked amf3 fields items (some object_marker) bs =
    and_then (fields bs) λ fs rest. done (object fs) rest
decode_marked amf3 fields items (some movieclip_marker) bs = rejected failure
decode_marked amf3 fields items (some null_marker) bs = decode_nothing false null_marker bs
decode_marked amf3 fields items (some undefined_marker) bs =
    decode_nothing false undefined_marker bs
decode_marked amf3 fields items (some reference_marker) bs = rejected failure
decode_marked amf3 fields items (some ecma_array_marker) bs =
    and_then (decode_ecma_array fields bs) λ fs rest. done (object fs) rest
decode_marked amf3 fields items (some object_end_marker) bs = rejected failure
decode_marked amf3 fields items (some strict_array_marker) bs =
    and_then (decode_strict_array items bs) λ vs rest. done (array vs) rest
decode_marked amf3 fields items (some date_marker) bs =
    and_then (decode_date false bs) λ n rest. done (number n) rest
decode_marked amf3 fields items (some long_string_marker) bs =
    and_then (decode_long_string false bs) λ s rest. done (string s) rest
decode_marked amf3 fields items (some unsupported_marker) bs =
    decode_nothing false unsupported_marker bs
decode_marked amf3 fields items (some recordset_marker) bs = rejected failure
decode_marked amf3 fields items (some xml_document_marker) bs =
    and_then (decode_xml_document false bs) λ s rest. done (string s) rest
decode_marked amf3 fields items (some typed_object_marker) bs = decode_typed_object fields bs
decode_marked amf3 fields items (some acmplus_object_marker) bs = decode_amf3 amf3 bs
decode_marked amf3 fields items none bs = rejected failure

-- DecodeAmf0, and the loops of DecodeAmf0Object and DecodeAmf0StrictArray.
unfoldable mutual
  unfolding marker_of read_byte

  pub decode : Amf3 → ℕ → Decoder Value
  decode amf3 zero bs = out_of_fuel
  decode amf3 (suc fuel) bs = and_then (read_byte bs) λ b rest.
      decode_marked amf3 (decode_fields amf3 fuel no_fields) (decode_items amf3 fuel) (marker_of b)
        rest

  pub decode_fields : Amf3 → ℕ → Fields → Decoder Fields
  decode_fields amf3 zero acc bs = out_of_fuel
  decode_fields amf3 (suc fuel) acc bs =
      and_then (decode_string false bs) (after_key acc (decode amf3 fuel) (decode_fields amf3 fuel))

  pub decode_items : Amf3 → ℕ → ℕ → Decoder Items
  decode_items amf3 zero n bs = out_of_fuel
  decode_items amf3 (suc fuel) zero bs = done no_items bs
  decode_items amf3 (suc fuel) (suc n) bs =
      and_then (wrapped (decode amf3 fuel bs))
        λ v rest. and_then (decode_items amf3 fuel n rest) λ vs more. done (item v vs) more

-- How the loop of DecodeBatch ends: by an error, or by a panic.
pub data BatchEnd : Type 0 where
  stopped : Error → BatchEnd
  died : BatchEnd

abbrev pub keep_value : Value → Option (List Value × BatchEnd) → Option (List Value × BatchEnd)
keep_value v (some (vs, e)) = some (v ∷ vs, e)
keep_value v none = none

-- The values before the first error or panic, and what ended the loop. `none`: the fuel ran out.
abbrev pub after_value :
    Decoded Value → (List ℕ → Option (List Value × BatchEnd)) → Option (List Value × BatchEnd)
after_value (done v rest) next = keep_value v (next rest)
after_value (rejected e) next = some ([], stopped e)
after_value crashed next = some ([], died)
after_value out_of_fuel next = none

unfoldable pub decode_batch : Amf3 → ℕ → List ℕ → Option (List Value × BatchEnd)
decode_batch amf3 zero bs = none
decode_batch amf3 (suc fuel) bs = after_value (decode amf3 (suc fuel) bs) (decode_batch amf3 fuel)
