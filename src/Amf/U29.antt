-- ===== src/Amf/U29.antt =====
-- The integers of AMF3, of 29 bits in one to four bytes: encodeAmf3Uint29 of
-- protocol/amf/encoder_amf3.go and decodeU29 of protocol/amf/decoder_amf3.go, on a bytes.Reader.
use srtmp.Prelude.{
  ℕ, zero, suc, ◌+◌, ◌*◌, ◌/◌, ◌%◌, ◌^◌, ◌≤◌, ◌<◌, ◌≡◌, refl, ◌∙◌, bit_and, bit_or, Bool, true,
  false, ◌&&◌, List, [], ◌∷◌, ◌++◌, length,
}
use srtmp.Prelude.{
  leb, ltb, ◌==◌, if◌then◌else◌, byte, shr, shl32, add32, Result, ok, err, failure, eof, arith,
  Bool-cases, inl, inr, ap, subst, not, bit_and_mask,
}
use srtmp.Amf.{Decoded, done, rejected, and_then}
use srtmp.Amf.Decode.{Decoder, read_byte}
pub mod RoundTrip

unfoldable pub encode_u29 : ℕ → Result (List ℕ)
encode_u29 val =
    if leb val 0x7f
    then ok (byte val ∷ [])
    else if leb val 0x3fff
    then ok (byte (bit_or (shr val 7) 0x80) ∷ byte (bit_and val 0x7f) ∷ [])
    else if leb val 0x1fffff
    then ok (
        byte (bit_or (shr val 14) 0x80)
        ∷ byte (bit_or (bit_and (shr val 7) 0x7f) 0x80)
        ∷ byte (bit_and val 0x7f)
        ∷ [])
    else if leb val 0x1fffffff
    then ok (
        byte (bit_or (shr val 22) 0x80)
        ∷ byte (bit_or (bit_and (shr val 15) 0x7f) 0x80)
        ∷ byte (bit_or (bit_and (shr val 8) 0x7f) 0x80)
        ∷ byte val
        ∷ [])
    else err failure

-- The loop with the number of rounds that are left, and the fourth byte behind it.
unfoldable pub decode_u29_loop : ℕ → ℕ → Decoder ℕ
unfolding read_byte
decode_u29_loop zero result bs =
    and_then (read_byte bs) λ b rest. done (add32 (shl32 result 8) b) rest
decode_u29_loop (suc n) result bs = and_then (read_byte bs) λ b rest.
    let result' = add32 (shl32 result 7) (bit_and b 0x7f) in
    let more = decode_u29_loop n result' rest in
    if bit_and b 0x80 == 0 then done result' rest else more

unfoldable pub decode_u29 : Decoder ℕ
decode_u29 bs = decode_u29_loop 3 0 bs
