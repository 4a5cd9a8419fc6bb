-- ===== src/Aac.antt =====
-- The AAC configuration and the ADTS header: media/aac/parser.go. The buffer of the header is written
-- in full before it is sent, and no part of the state here. The writer takes every byte.
use srtmp.Prelude.{
  ℕ, ◌+◌, ◌*◌, ◌/◌, ◌%◌, ◌^◌, ◌<◌, ◌≡◌, refl, ap, ◌∙◌, length-append, bit_and, bit_or, Bool, true,
  false, List, [], ◌∷◌, ◌++◌,
}
use srtmp.Prelude.{
  length, Option, none, some, ◌==◌, if◌then◌else◌, byte, uint16, shr, shl8, shl16, Result, ok, err,
  bind, failure,
}
use srtmp.Prelude.{bit_or_fields, bit_and_mask, arith}

pub record Parser : Type 0 where
  pub getted_specific : Bool
  pub object_type : ℕ
  pub sample_rate : ℕ
  pub channel : ℕ

unfoldable pub new_parser : Parser
new_parser = record { getted_specific = false; object_type = 0; sample_rate = 0; channel = 0 }

unfoldable pub specific_info : List ℕ → Parser → Result Parser
specific_info (a ∷ b ∷ _) parser = ok (record {
  getted_specific = true;
  object_type = bit_and (shr a 3) 0xff;
  sample_rate = bit_or (shl8 (bit_and a 0x07) 1) (shr b 7);
  channel = bit_and (shr b 3) 0x0f;
})
specific_info _ parser = err failure

-- data[0] and data[1] start at 0.
unfoldable pub specific_config : ℕ → ℕ → ℕ → List ℕ
specific_config object_type sampling_frequency_index channel_config =
    bit_or (bit_or 0 (shl8 object_type 3)) (shr sampling_frequency_index 1)
    ∷ bit_or (bit_or 0 (shl8 sampling_frequency_index 7)) (shl8 channel_config 3)
    ∷ []

-- The header of a frame of `frame_len` bytes, header included.
unfoldable pub adts_header : Parser → ℕ → List ℕ
adts_header parser frame_len =
    0xff
    ∷ 0xf1
    ∷ bit_or (shl8 ((parser.object_type + 255) % 256) 6) (shl8 parser.sample_rate 2)
    ∷ bit_or (shl8 (shl8 parser.channel 2) 4) (byte (shr (shl16 frame_len 3) 14))
    ∷ byte (shr (shl16 frame_len 5) 8)
    ∷ bit_or (byte (shl16 (shr (shl16 frame_len 13) 13) 5)) 31
    ∷ 0xfc
    ∷ []

unfoldable pub adts : List ℕ → Parser → Result (List ℕ)
adts [] parser = err failure
adts (b ∷ bs) parser =
    if parser.getted_specific
    then ok (adts_header parser (uint16 (length (b ∷ bs) + 7)) ++ (b ∷ bs))
    else err failure

-- Parse: what it writes, and the parser afterwards.
unfoldable pub parse : List ℕ → ℕ → Parser → Result (List ℕ × Parser)
parse b packet_type parser =
    if packet_type == 0
    then (bind (specific_info b parser) λ p. ok ([], p))
    else if packet_type == 1
    then (bind (adts b parser) λ out. ok (out, parser))
    else ok ([], parser)

zero_or : (x : ℕ) → x < 256 → bit_or 0 x ≡ x
zero_or x h = omega (arith, bit_or_fields 8 0 x h)

-- The configuration of an object type of five bits, a frequency index of four and a channel
-- configuration of four is read back by every parser.
pub specific_info-specific_config :
    (object_type index channel : ℕ) (parser : Parser)
    → object_type < 32
    → index < 16
    → channel < 16
    → specific_info (specific_config object_type index channel) parser
      ≡ ok (record {
        getted_specific = true;
        object_type = object_type;
        sample_rate = index;
        channel = channel;
      })
unfolding specific_info specific_config
specific_info-specific_config object_type index channel parser ho hi hc =
    let high : shl8 object_type 3 ≡ object_type * 2 ^ 3 = omega arith in
    let last : shl8 index 7 ≡ index % 2 * 2 ^ 7 = omega arith in
    let chan : shl8 channel 3 ≡ channel * 8 = omega arith in
    let a = object_type * 2 ^ 3 + shr index 1 in
    let b = index % 2 * 2 ^ 7 + channel * 8 in
    let type : bit_and (shr a 3) 0xff ≡ object_type = omega (arith, bit_and_mask 8 (shr a 3)) in
    let upper : shl8 (bit_and a 0x07) 1 ≡ shr index 1 * 2 ^ 1 = omega (arith, bit_and_mask 3 a) in
    let lower : shr b 7 ≡ index % 2 = omega arith in
    let number : bit_and (shr b 3) 0x0f ≡ channel = omega (arith, bit_and_mask 4 (shr b 3)) in
    let rate : shr index 1 * 2 ^ 1 + index % 2 ≡ index = omega arith in
    simp (
      high,
      last,
      chan,
      zero_or (object_type * 2 ^ 3) (omega arith),
      zero_or (index % 2 * 2 ^ 7) (omega arith),
      bit_or_fields 3 object_type (shr index 1) (omega arith),
      bit_or_fields 7 (index % 2) (channel * 8) (omega arith),
      type,
      upper,
      lower,
      bit_or_fields 1 (shr index 1) (index % 2) (omega arith),
      rate,
      number,
    )

-- Where a frame's length is read in an ADTS header: 13 bits from the low bits of the fourth byte on.
abbrev pub frame_length : List ℕ → Option ℕ
frame_length (_ ∷ _ ∷ _ ∷ b3 ∷ b4 ∷ b5 ∷ _) = some (b3 % 4 * 2048 + b4 * 8 + b5 / 32)
frame_length _ = none

frame_length-adts_header :
    (parser : Parser) (l : ℕ) → l < 8192 → frame_length (adts_header parser l) ≡ some l
unfolding adts_header
frame_length-adts_header parser l h =
    let c = parser.channel in
    let top : shl8 (shl8 c 2) 4 ≡ c % 4 * 2 ^ 6 = omega arith in
    let low : byte (shl16 (shr (shl16 l 13) 13) 5) ≡ l % 8 * 2 ^ 5 = omega arith in
    let whole : (c % 4 * 2 ^ 6 + byte (shr (shl16 l 3) 14)) % 4 * 2048
          + byte (shr (shl16 l 5) 8) * 8
          + (l % 8 * 2 ^ 5 + 31) / 32
        ≡ l =
      omega arith in
    rw (
      top,
      low,
      bit_or_fields 6 (c % 4) (byte (shr (shl16 l 3) 14)) (omega arith),
      bit_or_fields 5 (l % 8) 31 (omega arith),
      whole,
    )

length-adts_header : (parser : Parser) (l : ℕ) → length (adts_header parser l) ≡ 7
unfolding adts_header
length-adts_header parser l = refl

-- Once the configuration was read, every non-empty frame of up to 8184 bytes is written behind a
-- header of seven bytes that tells the length of both.
pub adts-frame_length :
    (bs : List ℕ) (parser : Parser)
    → parser.getted_specific ≡ true
    → 0 < length bs
    → length bs + 7 < 8192
    → (out : List ℕ) × (adts bs parser ≡ ok (out ++ bs))
      × (length out ≡ 7)
      × (frame_length out ≡ some (length (out ++ bs)))
unfolding adts
adts-frame_length [] parser ready pos small = absurd (omega arith)
adts-frame_length (b ∷ bs) parser ready pos small =
    let l = length (b ∷ bs) + 7 in
    let whole : uint16 l ≡ l = omega arith in
    (
      adts_header parser l,
      simp (ready, whole),
      length-adts_header parser l,
      frame_length-adts_header parser l small
          ∙ ap some (
              omega (
                arith,
                length-append (adts_header parser l) (b ∷ bs),
                length-adts_header parser l,
              )),
    )
