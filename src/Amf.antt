-- ===== src/Amf.antt =====
-- AMF0, the encoding of commands and metadata: protocol/amf, less AMF3. Its values and its markers
-- (const.go). A Go map is an association list, in the order in which the encoder meets its keys; a
-- float64 is the number of its 64 bits; an integer that is to be encoded is given as its float64.
use srtmp.Prelude.{
  ℕ, zero, suc, Bool, true, false, ◌&&◌, List, [], ◌∷◌, Option, none, some, ◌==◌, if◌then◌else◌,
}
use srtmp.Prelude.{Error}
pub mod Encode
pub mod Decode
pub mod Leaves
pub mod Fuel
pub mod Valid
pub mod Scalars
pub mod RoundTrip
pub mod Batch
pub mod Metadata
pub mod U29

mutual
  pub data Value : Type 0 where
    nil : Value
    number : ℕ → Value
    boolean : Bool → Value
    string : List ℕ → Value
    object : Fields → Value
    array : Items → Value
    typed_object : List ℕ → Fields → Value

  pub data Fields : Type 0 where
    no_fields : Fields
    field : List ℕ → Value → Fields → Fields

  pub data Items : Type 0 where
    no_items : Items
    item : Value → Items → Items

pub data Marker : Type 0 where
  number_marker boolean_marker string_marker object_marker movieclip_marker : Marker
  null_marker undefined_marker reference_marker ecma_array_marker object_end_marker : Marker
  strict_array_marker date_marker long_string_marker unsupported_marker : Marker
  recordset_marker xml_document_marker typed_object_marker acmplus_object_marker : Marker

unfoldable pub code : Marker → ℕ
code number_marker = 0x00
code boolean_marker = 0x01
code string_marker = 0x02
code object_marker = 0x03
code movieclip_marker = 0x04
code null_marker = 0x05
code undefined_marker = 0x06
code reference_marker = 0x07
code ecma_array_marker = 0x08
code object_end_marker = 0x09
code strict_array_marker = 0x0a
code date_marker = 0x0b
code long_string_marker = 0x0c
code unsupported_marker = 0x0d
code recordset_marker = 0x0e
code xml_document_marker = 0x0f
code typed_object_marker = 0x10
code acmplus_object_marker = 0x11

abbrev markers : List Marker
markers =
    number_marker ∷ boolean_marker ∷ string_marker ∷ object_marker ∷ movieclip_marker ∷ null_marker
    ∷ undefined_marker ∷ reference_marker ∷ ecma_array_marker ∷ object_end_marker
    ∷ strict_array_marker ∷ date_marker ∷ long_string_marker ∷ unsupported_marker ∷ recordset_marker
    ∷ xml_document_marker ∷ typed_object_marker ∷ acmplus_object_marker ∷ []

abbrev find_marker : ℕ → List Marker → Option Marker
find_marker b [] = none
find_marker b (m ∷ ms) = if code m == b then some m else find_marker b ms

-- The case of DecodeAmf0's switch that a byte selects.
unfoldable pub marker_of : ℕ → Option Marker
unfolding code
marker_of b = find_marker b markers

-- Equality of strings.
unfoldable pub same : List ℕ → List ℕ → Bool
same [] [] = true
same (x ∷ xs) (y ∷ ys) = x == y && same xs ys
same _ _ = false

-- result[key] = value
unfoldable pub assign : List ℕ → Value → Fields → Fields
unfolding same
assign key v no_fields = field key v no_fields
assign key v (field k w fs) = if same k key then field key v fs else field k w (assign key v fs)

-- What a decoder does on the bytes that are left: it returns a value or an error, or panics.
-- `out_of_fuel` is the model's own.
pub data Decoded (A : Type 0) : Type 0 where
  done : A → List ℕ → Decoded A
  rejected : Error → Decoded A
  crashed : Decoded A
  out_of_fuel : Decoded A

abbrev pub and_then : {A B : Type 0} → Decoded A → (A → List ℕ → Decoded B) → Decoded B
and_then (done a rest) f = f a rest
and_then (rejected e) f = rejected e
and_then crashed f = crashed
and_then out_of_fuel f = out_of_fuel
