-- ===== src/Tests/Amf.antt =====
-- Runs of protocol/amf: the command play("a"), with an object and an array.
use srtmp.Amf.Decode.{Amf3, BatchEnd, stopped, failed}
use srtmp.Amf.Decode.{decode_boolean}
use srtmp.Amf.Decode.{decode_nothing, Taken, took, broke, died, decode_amf3}
use srtmp.Amf.{Decoded, rejected, crashed, out_of_fuel}
use srtmp.Prelude.{
  replicate, min, take, if◌then◌else◌, ◌==◌, ◌%◌, ◌/◌, ◌-◌, ℕ, ◌≡◌, refl, true, [], ◌∷◌, ◌++◌, List,
  ok, some, suc, ◌+◌, length, arith, eof, failure,
}
use srtmp.Amf.{
  Value, nil, number, boolean, string, object, array, no_fields, field, no_items, item, done, same,
}
use srtmp.Amf.Encode.{
  encode, encode_string, encode_batch, encode_undefined, encode_unsupported, encode_amf3_marker,
}
use srtmp.Amf.Decode.{decode, decode_batch}
use srtmp.Amf.Valid.{IsValue}
use srtmp.Amf.Leaves.{Leaves}
use srtmp.Amf.Fuel.{decode-Leaves, decode_batch-total}
use srtmp.Amf.RoundTrip.{decode-encode}
use srtmp.Amf.Batch.{decode_batch-encode_batch}
use srtmp.Prelude.{◌≤◌}
use srtmp.Amf.U29.{encode_u29, decode_u29, decode_u29_loop}
use srtmp.Amf.U29.RoundTrip.{decode_u29-encode_u29}
use srtmp.Amf.Metadata.{set_frame_frame, metadata_reform, metadata_reform_lem}

-- A decoder of AMF3 that rejects every input.
no_amf3 : Amf3
no_amf3 m bs = failed failure

abbrev settings : Value
settings = object (
    field (97 ∷ []) (number 4607182418800017408)
      (field (98 ∷ []) (array (item (boolean true) (item nil no_items))) no_fields))

abbrev command : List Value
command = string (112 ∷ 108 ∷ 97 ∷ 121 ∷ []) ∷ number 0 ∷ nil ∷ settings ∷ []

settings-IsValue : IsValue settings
unfolding IsValue
settings-IsValue = (
  omega arith,
  omega arith,
  refl,
  omega arith,
  (omega arith, omega arith, refl, (omega arith, (tt, (tt, tt))), tt),
)

decode-encode_example :
    (bs : List ℕ) × (encode settings ≡ ok bs)
    × (decode no_amf3 (suc (length bs + 3)) (bs ++ (1 ∷ [])) ≡ done settings (1 ∷ []))
decode-encode_example = decode-encode no_amf3 settings 3 (1 ∷ []) settings-IsValue

decode_batch-encode_batch_example :
    (bs : List ℕ) × (encode_batch command ≡ ok bs)
    × (decode_batch no_amf3 (suc (length bs)) bs ≡ some (command, stopped eof))
unfolding IsValue
decode_batch-encode_batch_example =
    decode_batch-encode_batch no_amf3 command
      (omega arith, (omega arith, (tt, (settings-IsValue, tt))))

-- What a new decoder does with its first value of AMF3, where that is a string: a reference to an
-- earlier string panics, as there is none; the bytes of another one are copied into a buffer of the
-- length that is told. Other values are turned away.
first_string : Decoded ℕ → ℕ → Taken
first_string (done n []) size = if n % 2 == 0 then broke else failed failure
first_string (done n (b ∷ bs)) size =
    if n % 2 == 0
    then broke
    else took (string (take (n / 2) ((b ∷ bs) ++ replicate (n / 2) 0)))
        (size - length (b ∷ bs) + min (n / 2) (length (b ∷ bs)))
first_string (rejected e) size = failed failure
first_string crashed size = broke
first_string out_of_fuel size = failed failure

first_amf3 : Amf3
first_amf3 m bs = if m == 0x06 then first_string (decode_u29 bs) (length bs) else failed failure

decode-Leaves_example : Leaves 4 (decode first_amf3 5 (17 ∷ 6 ∷ 3 ∷ 97 ∷ []))
decode-Leaves_example = decode-Leaves first_amf3 5 (17 ∷ 6 ∷ 3 ∷ 97 ∷ []) (omega arith)

-- Null, and a reference behind the marker of AMF3.
decode_batch-total_example :
    (vs : List Value) × (e : BatchEnd) × (decode_batch first_amf3 6 (5 ∷ 17 ∷ 6 ∷ 0 ∷ [])
      ≡ some (vs, e))
decode_batch-total_example = decode_batch-total first_amf3 6 (5 ∷ 17 ∷ 6 ∷ 0 ∷ []) (omega arith)

-- The reference panics, and a string of one byte is read.
decode_batch-first :
    (decode_batch first_amf3 6 (5 ∷ 17 ∷ 6 ∷ 0 ∷ []) ≡ some (nil ∷ [], died))
    × (decode_batch first_amf3 6 (17 ∷ 6 ∷ 3 ∷ 97 ∷ []) ≡ some (string (97 ∷ []) ∷ [], stopped eof))
unfolding first_amf3 first_string decode_batch decode decode_nothing decode_amf3 decode_u29
    decode_u29_loop
decode_batch-first = (refl, refl)

-- onMetaData, and null behind it.
abbrev on_meta_data : List ℕ
on_meta_data = 111 ∷ 110 ∷ 77 ∷ 101 ∷ 116 ∷ 97 ∷ 68 ∷ 97 ∷ 116 ∷ 97 ∷ []

metadata_reform_lem_example :
    let p = encode_string on_meta_data true ++ (5 ∷ []) in
    (metadata_reform no_amf3 p 0x0 ≡ some (ok (set_frame_frame ++ p)))
    × (metadata_reform no_amf3 (set_frame_frame ++ p) 0x0 ≡ some (ok (set_frame_frame ++ p)))
    × (metadata_reform no_amf3 (set_frame_frame ++ p) 0x3 ≡ some (ok p))
    × (metadata_reform no_amf3 p 0x3 ≡ some (ok p))
unfolding same
metadata_reform_lem_example = metadata_reform_lem no_amf3 on_meta_data (5 ∷ []) (omega arith) refl

-- DecodeBatch takes a Boolean that is cut off for the end of the input.
decode_batch-cut : decode_batch no_amf3 3 (5 ∷ 1 ∷ []) ≡ some (nil ∷ [], stopped eof)
unfolding decode_batch decode decode_nothing decode_boolean
decode_batch-cut = refl

decode_u29-encode_u29_example :
    (bs : List ℕ) × (encode_u29 0x4000 ≡ ok bs)
    × (length bs ≤ 4)
    × (decode_u29 (bs ++ (7 ∷ [])) ≡ done 0x4000 (7 ∷ []))
decode_u29-encode_u29_example = decode_u29-encode_u29 0x4000 (7 ∷ []) (omega arith)

-- A value of no content is read back as null.
undefined_read : decode no_amf3 9 (encode_undefined true) ≡ done nil []
unfolding decode encode_undefined decode_nothing
undefined_read = refl

unsupported_read :
    decode no_amf3 9 (encode_unsupported true ++ encode_amf3_marker) ≡ done nil (17 ∷ [])
unfolding decode encode_unsupported decode_nothing encode_amf3_marker
unsupported_read = refl
