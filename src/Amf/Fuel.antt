-- ===== src/Amf/Fuel.antt =====
-- The decoder of protocol/amf/decoder_amf0.go and DecodeBatch of amf.go: the fuel is enough.
use srtmp.Prelude.{ℕ, zero, suc, ◌+◌, ◌<◌, ◌≡◌, refl, ap, true, false, List, [], ◌∷◌, length}
use srtmp.Prelude.{drop, length-drop, Option, none, some, arith}
use srtmp.Amf.{Value, number, boolean, string, object, array, typed_object, Fields, no_fields}
use srtmp.Amf.{Items, item, Marker, marker_of, assign, Decoded, done}
use srtmp.Amf.{
  rejected, crashed, nil, out_of_fuel, and_then, number_marker, boolean_marker, string_marker,
}
use srtmp.Amf.{object_marker, movieclip_marker, null_marker, undefined_marker, reference_marker}
use srtmp.Amf.{ecma_array_marker, object_end_marker, strict_array_marker, date_marker}
use srtmp.Amf.{long_string_marker, unsupported_marker, recordset_marker, xml_document_marker}
use srtmp.Amf.{typed_object_marker, acmplus_object_marker}
use srtmp.Amf.Decode.{Amf3, BatchEnd}
use srtmp.Amf.Decode.{Decoder, wrapped, read_byte, read_uint, assert_marker}
use srtmp.Amf.Decode.{decode_string}
use srtmp.Amf.Decode.{decode_xml_document, decode_nothing, after_key}
use srtmp.Amf.Decode.{decode_ecma_array, decode_strict_array, decode_typed_object, decode_marked}
use srtmp.Amf.Decode.{decode, decode_fields, decode_items, keep_value, after_value, decode_batch}
use srtmp.Prelude.{◌≤◌, if_cases, leb, ◌==◌}
use srtmp.Amf.Decode.{Taken, took, failed, broke, taken, decode_amf3, stopped, died}
use srtmp.Amf.Leaves.{
  Leaves, checked-Leaves, and_then-Leaves, wrapped-Leaves, Leaves-more, read_uint-Leaves,
  assert_marker-Leaves, decode_number-Leaves, decode_boolean-Leaves, decode_string-Leaves,
  decode_long_string-Leaves, decode_date-Leaves, got-Leaves,
}

module _ (amf3 : Amf3) where
  taken-Leaves : (r : Taken) (k : ℕ) (bs : List ℕ) → length bs < k → Leaves k (taken r bs)
  taken-Leaves (took v n) k bs h = omega (arith, length-drop n bs)
  taken-Leaves (failed e) k bs h = tt
  taken-Leaves broke k bs h = tt

  pub decode_amf3-Leaves : (k : ℕ) (bs : List ℕ) → length bs ≤ k → Leaves k (decode_amf3 amf3 bs)
  unfolding decode_amf3
  decode_amf3-Leaves k [] h = tt
  decode_amf3-Leaves k (m ∷ bs) h = checked-Leaves k (m == 0x00) nil bs _ (omega arith) (
      checked-Leaves k (m == 0x01) nil bs _ (omega arith) (
        checked-Leaves k (m == 0x02) (boolean false) bs _ (omega arith) (
          checked-Leaves k (m == 0x03) (boolean true) bs _ (omega arith) (
            if_cases (Leaves {A = Value} k) (m == 0x05) _ _
              (read_uint-Leaves 8 k bs _ λ n rest g. omega arith)
              (if_cases (Leaves {A = Value} k) (leb m 0x0c) _ _
                (taken-Leaves (amf3 m bs) k bs (omega arith)) tt)))))

  decode_marked-Leaves :
      (fields : Decoder Fields) (items : ℕ → Decoder Items) (k : ℕ) (m : Option Marker)
      (bs : List ℕ)
      → ((cs : List ℕ) → length cs < k → Leaves k (fields cs))
      → ((n : ℕ) (cs : List ℕ) → length cs + 4 < k → Leaves k (items n cs))
      → length bs < k
      → Leaves k (decode_marked amf3 fields items m bs)
  unfolding decode_nothing assert_marker decode_ecma_array decode_strict_array decode_typed_object
      decode_xml_document
  decode_marked-Leaves fields items k (some number_marker) bs hf hi h =
      got-Leaves k _ number (decode_number-Leaves k bs h)
  decode_marked-Leaves fields items k (some boolean_marker) bs hf hi h =
      got-Leaves k _ boolean (decode_boolean-Leaves k bs h)
  decode_marked-Leaves fields items k (some string_marker) bs hf hi h =
      got-Leaves k _ string (decode_string-Leaves k bs (omega arith))
  decode_marked-Leaves fields items k (some object_marker) bs hf hi h =
      got-Leaves k (fields bs) object (hf bs h)
  decode_marked-Leaves fields items k (some movieclip_marker) bs hf hi h = tt
  decode_marked-Leaves fields items k (some null_marker) bs hf hi h = h
  decode_marked-Leaves fields items k (some undefined_marker) bs hf hi h = h
  decode_marked-Leaves fields items k (some reference_marker) bs hf hi h = tt
  decode_marked-Leaves fields items k (some ecma_array_marker) bs hf hi h =
      got-Leaves k (wrapped (fields (drop 4 bs))) object
        (wrapped-Leaves k _ (hf (drop 4 bs) (omega (arith, length-drop 4 bs))))
  decode_marked-Leaves fields items k (some object_end_marker) bs hf hi h = tt
  decode_marked-Leaves fields items k (some strict_array_marker) bs hf hi h =
      got-Leaves k (and_then (read_uint 4 bs) items) array
        (read_uint-Leaves 4 k bs items (λ n rest g. hi n rest (omega arith)))
  decode_marked-Leaves fields items k (some date_marker) bs hf hi h =
      got-Leaves k _ number (decode_date-Leaves k bs h)
  decode_marked-Leaves fields items k (some long_string_marker) bs hf hi h =
      got-Leaves k _ string (decode_long_string-Leaves k bs h)
  decode_marked-Leaves fields items k (some unsupported_marker) bs hf hi h = h
  decode_marked-Leaves fields items k (some recordset_marker) bs hf hi h = tt
  decode_marked-Leaves fields items k (some xml_document_marker) bs hf hi h =
      got-Leaves k _ string (decode_long_string-Leaves k bs h)
  decode_marked-Leaves fields items k (some typed_object_marker) bs hf hi h =
      and_then-Leaves k k (wrapped (decode_string false bs)) _
        (wrapped-Leaves k _ (decode_string-Leaves k bs (omega arith)))
        λ name rest g.
          got-Leaves k (wrapped (fields rest)) (typed_object name) (wrapped-Leaves k _ (hf rest g))
  decode_marked-Leaves fields items k (some acmplus_object_marker) bs hf hi h =
      decode_amf3-Leaves k bs (omega arith)
  decode_marked-Leaves fields items k none bs hf hi h = tt

  -- All three loops at once, by induction on the fuel.
  record Ends (fuel : ℕ) : Type 0 where
    value : (bs : List ℕ) → length bs < fuel → Leaves (length bs) (decode amf3 fuel bs)
    fields :
        (acc : Fields) (bs : List ℕ)
        → length bs < fuel
        → Leaves (suc (length bs)) (decode_fields amf3 fuel acc bs)
    items :
        (n : ℕ) (bs : List ℕ)
        → length bs + 1 < fuel
        → Leaves (suc (length bs)) (decode_items amf3 fuel n bs)

  value-Ends :
      (fuel : ℕ)
      → Ends fuel
      → (bs : List ℕ) → length bs < suc fuel
      → Leaves (length bs) (decode amf3 (suc fuel) bs)
  unfolding decode read_byte
  value-Ends fuel h [] lt = tt
  value-Ends fuel h (b ∷ bs) lt =
      decode_marked-Leaves (decode_fields amf3 fuel no_fields) (decode_items amf3 fuel)
        (suc (length bs)) (marker_of b) bs
        (λ cs g.
          Leaves-more (suc (length cs)) (suc (length bs)) _ (omega arith)
            (h.fields no_fields cs (omega arith)))
        (λ n cs g.
          Leaves-more (suc (length cs)) (suc (length bs)) _ (omega arith)
            (h.items n cs (omega arith)))
        (omega arith)

  fields-Ends :
      (fuel : ℕ)
      → Ends fuel
      → (acc : Fields) (bs : List ℕ) → length bs < suc fuel
      → Leaves (suc (length bs)) (decode_fields amf3 (suc fuel) acc bs)
  unfolding decode_fields
  fields-Ends fuel h acc bs lt =
      and_then-Leaves (length bs) (suc (length bs)) (decode_string false bs) _
        (decode_string-Leaves (length bs) bs (omega arith)) after_key-Leaves
    where
      after_key-Leaves :
          (key : List ℕ) (rest : List ℕ)
          → length rest < length bs
          → Leaves
              (suc (length bs))
              (after_key acc (decode amf3 fuel) (decode_fields amf3 fuel) key rest)
      after_key-Leaves [] rest g =
          and_then-Leaves (length bs) (suc (length bs))
            (wrapped (assert_marker true object_end_marker rest)) _
            (wrapped-Leaves (length bs) _
              (assert_marker-Leaves true object_end_marker (length bs) rest g))
            (λ u more f. omega arith)
      after_key-Leaves (c ∷ cs) rest g =
          and_then-Leaves (length bs) (suc (length bs)) (wrapped (decode amf3 fuel rest)) _
            (wrapped-Leaves (length bs) _
              (Leaves-more (length rest) (length bs) _ (omega arith) (h.value rest (omega arith))))
            (λ v more f.
              Leaves-more (suc (length more)) (suc (length bs)) _ (omega arith)
                (h.fields (assign (c ∷ cs) v acc) more (omega arith)))

  items-Ends :
      (fuel : ℕ)
      → Ends fuel
      → (n : ℕ) (bs : List ℕ) → length bs + 1 < suc fuel
      → Leaves (suc (length bs)) (decode_items amf3 (suc fuel) n bs)
  unfolding decode_items
  items-Ends fuel h zero bs lt = omega arith
  items-Ends fuel h (suc n) bs lt =
      and_then-Leaves (length bs) (suc (length bs)) (wrapped (decode amf3 fuel bs)) _
        (wrapped-Leaves (length bs) _ (h.value bs (omega arith)))
        λ v rest g. got-Leaves (suc (length bs)) (decode_items amf3 fuel n rest) (item v) (
          Leaves-more (suc (length rest)) (suc (length bs)) _ (omega arith)
            (h.items n rest (omega arith)))

  ends : (fuel : ℕ) → Ends fuel
  ends zero = record {
    value = λ bs lt. absurd (omega arith);
    fields = λ acc bs lt. absurd (omega arith);
    items = λ n bs lt. absurd (omega arith);
  }
  ends (suc fuel) = record {
    value = value-Ends fuel (ends fuel);
    fields = fields-Ends fuel (ends fuel);
    items = items-Ends fuel (ends fuel);
  }

  -- DecodeAmf0 returns or panics on every input, whatever its calls for the larger values of AMF3 do,
  -- if each of them returns or panics: fuel above the number of bytes is enough, and a value takes at
  -- least one byte.
  pub decode-Leaves :
      (fuel : ℕ) (bs : List ℕ) → length bs < fuel → Leaves (length bs) (decode amf3 fuel bs)
  decode-Leaves fuel bs lt = (ends fuel).value bs lt

  after_value-total :
      (k : ℕ) (r : Decoded Value) (next : List ℕ → Option (List Value × BatchEnd))
      → Leaves k r
      → ((rest : List ℕ)
          → length rest < k
          → (vs : List Value) × (e : BatchEnd) × (next rest ≡ some (vs, e)))
      → (vs : List Value) × (e : BatchEnd) × (after_value r next ≡ some (vs, e))
  after_value-total k (done v rest) next h g =
      let (vs, e, eq) = g rest h in (v ∷ vs, e, ap (keep_value v) eq)
  after_value-total k (rejected e) next h g = ([], stopped e, refl)
  after_value-total k crashed next h g = ([], died, refl)
  after_value-total k out_of_fuel next h g = absurd h

  -- DecodeBatch ends on every input, with its values and the error that stopped it or a panic,
  -- whatever its calls for the larger values of AMF3 do, if each of them returns or panics: fuel above
  -- the number of bytes is enough.
  pub decode_batch-total :
      (fuel : ℕ) (bs : List ℕ)
      → length bs < fuel
      → (vs : List Value) × (e : BatchEnd) × (decode_batch amf3 fuel bs ≡ some (vs, e))
  unfolding decode_batch
  decode_batch-total zero bs lt = absurd (omega arith)
  decode_batch-total (suc fuel) bs lt =
      after_value-total (length bs) (decode amf3 (suc fuel) bs) (decode_batch amf3 fuel)
        (decode-Leaves (suc fuel) bs lt) (λ rest g. decode_batch-total fuel rest (omega arith))
