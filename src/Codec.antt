-- ===== src/Codec.antt =====
-- The parser of all codecs, media/coder_parser.go, with media/mp3/parser.go and the sample rate of
-- media/aac/parser.go. The io.Writer is the bytes written to it, and takes them all.
use srtmp.Prelude.{ℕ, ◌+◌, Bool, ◌&&◌, List, [], ◌∷◌, ◌++◌}
use srtmp.Prelude.{Option, none, some, get_elem?, leb, ◌==◌, if◌then◌else◌, bit_and, shr}
use srtmp.Prelude.{Result, ok, err, panic, failure}
use srtmp.Av.{Packet}
use srtmp.Aac
use srtmp.H264
pub mod Streams

-- media/mp3/parser.go: the frequency, or 0 before the first frame.
pub record Mp3Parser : Type 0 where
  pub sampling_frequency : ℕ

abbrev mp3_rates : List ℕ
mp3_rates = 44100 ∷ 48000 ∷ 32000 ∷ []

unfoldable pub parse_mp3 : List ℕ → Mp3Parser → Mp3Parser × Result (Unit {0})
parse_mp3 (_ ∷ _ ∷ b ∷ _) parser = elim (get_elem? mp3_rates (bit_and (shr b 2) 0x3)) [
  | some rate ↦ (record { sampling_frequency = rate }, ok tt)
  | none ↦ (parser, err failure)
]
parse_mp3 _ parser = (parser, err failure)

-- SampleRate keeps the rate that it falls back to.
unfoldable pub mp3_sample_rate : Mp3Parser → Mp3Parser × ℕ
mp3_sample_rate parser =
    if parser.sampling_frequency == 0
    then (record { sampling_frequency = 44100 }, 44100)
    else (parser, parser.sampling_frequency)

abbrev aac_rates : List ℕ
aac_rates =
    96000 ∷ 88200 ∷ 64000 ∷ 48000 ∷ 44100 ∷ 32000 ∷ 24000 ∷ 22050 ∷ 16000 ∷ 12000 ∷ 11025 ∷ 8000
    ∷ 7350 ∷ []

unfoldable pub aac_sample_rate : Aac.Parser → ℕ
aac_sample_rate parser = elim (get_elem? aac_rates parser.sample_rate) [
  | some rate ↦ rate
  | none ↦ 44100
]

-- A parser is made when the first packet of its codec comes.
pub record CodecParser : Type 0 where
  pub aac : Option Aac.Parser
  pub mp3 : Option Mp3Parser
  pub h264 : Option H264.Parser

unfoldable pub new_codec_parser : CodecParser
new_codec_parser = record { aac = none; mp3 = none; h264 = none }

unfoldable pub sample_rate : CodecParser → CodecParser × Result ℕ
sample_rate code_parser = elim code_parser.aac [
  | some parser ↦ (code_parser, ok (aac_sample_rate parser))
  | none ↦ elim code_parser.mp3 [
    | some parser ↦
        let r = mp3_sample_rate parser in (record code_parser { mp3 = some r.0 }, ok r.1)
    | none ↦ (code_parser, err failure)
  ]
]

unfoldable pub h264_of : Option H264.Parser → H264.Parser
unfolding H264.new_parser
h264_of (some parser) = parser
h264_of none = H264.new_parser

unfoldable pub aac_of : Option Aac.Parser → Aac.Parser
unfolding Aac.new_parser
aac_of (some parser) = parser
aac_of none = Aac.new_parser

unfoldable pub mp3_of : Option Mp3Parser → Mp3Parser
mp3_of (some parser) = parser
mp3_of none = record { sampling_frequency = 0 }

-- After an error the AAC parser is as it was, and has written nothing.
abbrev after_aac :
    Aac.Parser
    → List ℕ
    → CodecParser
    → Result (List ℕ × Aac.Parser)
    → (CodecParser × List ℕ) × Result (Unit {0})
after_aac parser w code_parser (ok r) = ((record code_parser { aac = some r.1 }, w ++ r.0), ok tt)
after_aac parser w code_parser (err e) = ((record code_parser { aac = some parser }, w), err e)
after_aac parser w code_parser panic = ((record code_parser { aac = some parser }, w), panic)

unfoldable pub parse_video :
    Packet → CodecParser → List ℕ → (CodecParser × List ℕ) × Result (Unit {0})
parse_video p code_parser w =
    let is_seq = p.v_header.frame_type == 1 && p.v_header.avc_packet_type == 0 in
    let r = H264.parse (h264_of code_parser.h264) p.payload is_seq w in
    if p.v_header.codec_id == 7
    then ((record code_parser { h264 = some r.0.0 }, r.0.1), r.1)
    else ((code_parser, w), ok tt)

unfoldable pub parse_audio :
    Packet → CodecParser → List ℕ → (CodecParser × List ℕ) × Result (Unit {0})
parse_audio p code_parser w =
    let parser = aac_of code_parser.aac in
    let r = parse_mp3 p.payload (mp3_of code_parser.mp3) in
    if p.a_header.sound_format == 10
    then after_aac parser w code_parser (Aac.parse p.payload p.a_header.aac_packet_type parser)
    else if p.a_header.sound_format == 2
    then ((record code_parser { mp3 = some r.0 }, w), r.1)
    else ((code_parser, w), ok tt)

unfoldable pub parse_packet :
    Packet → CodecParser → List ℕ → (CodecParser × List ℕ) × Result (Unit {0})
parse_packet p code_parser w =
    if p.packet_type == 1
    then parse_video p code_parser w
    else if p.packet_type == 2
    then parse_audio p code_parser w
    else ((code_parser, w), err failure)
