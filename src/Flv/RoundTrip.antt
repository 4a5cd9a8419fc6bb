-- ===== src/Flv/RoundTrip.antt =====
-- The tag headers of container/flv/tag.go are read as they were written.
use srtmp.Prelude.{
  ℕ, zero, suc, ◌+◌, ◌*◌, ◌%◌, ◌^◌, ◌<◌, ◌≡◌, refl, bit_and, bit_or, true, List, ◌∷◌, ◌++◌,
}
use srtmp.Prelude.{◌==◌, byte, shr, shl8, shl32, add32, ok}
use srtmp.Prelude.{bit_or_fields, bit_and_mask, arith}
use srtmp.Av.{AudioPacketHeader, VideoPacketHeader, Packet}
use srtmp.Flv.{Tag, zero_tag, parse_audio_header, parse_video_header, muxer_tag_data, audio_tag}
use srtmp.Flv.{pack_audio_data, demux}

low1 : (x : ℕ) → bit_and x 0x1 ≡ x % 2
low1 x = bit_and_mask 1 x

low2 : (x : ℕ) → bit_and x 0x3 ≡ x % 4
low2 x = bit_and_mask 2 x

low4 : (x : ℕ) → bit_and x 0xf ≡ x % 16
low4 x = bit_and_mask 4 x

rate_bits : (r : ℕ) → r < 4 → bit_and (shl8 r 2) 0x0c ≡ r * 4
rate_bits zero h = refl
rate_bits (suc zero) h = refl
rate_bits (suc (suc zero)) h = refl
rate_bits (suc (suc (suc zero))) h = refl
rate_bits (suc (suc (suc (suc r)))) h = absurd (omega arith)

size_bits : (s : ℕ) → s < 2 → bit_and (shl8 s 1) 0x02 ≡ s * 2
size_bits zero h = refl
size_bits (suc zero) h = refl
size_bits (suc (suc s)) h = absurd (omega arith)

video_flags : (f c : ℕ) → f < 16 → c < 16 → bit_or (shl8 f 4) (bit_and c 0xf) ≡ f * 16 + c
video_flags f c hf hc =
    let whole : shl8 f 4 ≡ f * 2 ^ 4 = omega arith in
    let low : bit_and c 0xf ≡ c = omega (arith, low4 c) in rw (whole, low) (bit_or_fields 4 f c hc)

audio_flags :
    (f r s t : ℕ)
    → f < 16
    → r < 4
    → s < 2
    → t < 2
    → bit_or
        (bit_or (bit_or (shl8 f 4) (bit_and (shl8 r 2) 0x0c)) (bit_and (shl8 s 1) 0x02))
        (bit_and t 0x01)
      ≡ f * 16 + r * 4 + s * 2 + t
audio_flags f r s t hf hr hs ht =
    let whole : shl8 f 4 ≡ f * 2 ^ 4 = omega arith in
    let low : bit_and t 0x1 ≡ t = omega (arith, low1 t) in
    let fr : f * 2 ^ 4 + r * 4 ≡ (f * 4 + r) * 2 ^ 2 = omega arith in
    let frs : (f * 4 + r) * 2 ^ 2 + s * 2 ≡ (f * 8 + r * 2 + s) * 2 ^ 1 = omega arith in
    rw
      (
        whole,
        rate_bits r hr,
        size_bits s hs,
        low,
        bit_or_fields 4 f (r * 4) (omega arith),
        fr,
        bit_or_fields 2 (f * 4 + r) (s * 2) (omega arith),
        frs,
        bit_or_fields 1 (f * 8 + r * 2 + s) t ht,
      )
      (omega arith)

-- Fields that fit the header's bits.
pub record IsAudioHeader (ah : AudioPacketHeader) : Type 0 where
  pub format_fits : ah.sound_format < 16
  pub rate_fits : ah.sound_rate < 4
  pub size_fits : ah.sound_size < 2
  pub type_fits : ah.sound_type < 2

pub record IsVideoHeader (vh : VideoPacketHeader) : Type 0 where
  pub frame_fits : vh.frame_type < 16
  pub codec_fits : vh.codec_id < 16
  pub time_fits : vh.composition_time < 2 ^ 24

abbrev pub video_tag : VideoPacketHeader → Tag
video_tag vh = record zero_tag {
  f_type = 9;
  frame_type = vh.frame_type;
  codec_id = vh.codec_id;
  avc_packet_type = vh.avc_packet_type;
  composition_time = vh.composition_time;
}

parse_aac :
    (f r s t apt : ℕ) (src : List ℕ) (tag : Tag)
    → f ≡ 10
    → r < 4
    → s < 2
    → t < 2
    → parse_audio_header ((f * 16 + r * 4 + s * 2 + t) ∷ apt ∷ src) tag
      ≡ ok (
        2,
        record tag {
          sound_format = f;
          sound_rate = r;
          sound_size = s;
          sound_type = t;
          aac_packet_type = apt;
        },
      )
unfolding parse_audio_header
parse_aac f r s t apt src tag aac hr hs ht =
    let flags = f * 16 + r * 4 + s * 2 + t in
    let format : shr flags 4 ≡ f = omega arith in
    let is_aac : (f == 10) ≡ true = ground arith in
    let rate : bit_and (shr flags 2) 0x3 ≡ r = omega (arith, low2 (shr flags 2)) in
    let size : bit_and (shr flags 1) 0x1 ≡ s = omega (arith, low1 (shr flags 1)) in
    let type : bit_and flags 0x1 ≡ t = omega (arith, low1 flags) in
    simp (format, rate, size, type, is_aac)

parse_avc :
    (f c apt time : ℕ) (src : List ℕ)
    → c ≡ 7
    → time < 2 ^ 24
    → parse_video_header
        ((f * 16 + c) ∷ apt ∷ byte (shr time 16) ∷ byte (shr time 8) ∷ byte time ∷ src)
        zero_tag
      ≡ ok (
        5,
        record zero_tag {
          frame_type = f;
          codec_id = c;
          avc_packet_type = apt;
          composition_time = time;
        },
      )
unfolding parse_video_header
parse_avc f c apt time src avc ht =
    let frame : shr (f * 16 + c) 4 ≡ f = omega arith in
    let codec : bit_and (f * 16 + c) 0xf ≡ c = omega (arith, low4 (f * 16 + c)) in
    let is_avc : (c == 7) ≡ true = ground arith in
    let whole : add32
          (shl32 (add32 (shl32 (add32 (shl32 0 8) (byte (shr time 16))) 8) (byte (shr time 8))) 8)
          (byte time)
        ≡ time =
      omega arith in
    simp (frame, codec, whole, is_avc)

pub demux-audio_tag :
    (p : Packet) (ah : AudioPacketHeader) (apt : ℕ) (src : List ℕ)
    → p.packet_type ≡ 2
    → IsAudioHeader ah
    → ah.sound_format ≡ 10
    → demux (record p { payload = muxer_tag_data (audio_tag ah apt) ++ src })
      ≡ ok (record p { a_header = record ah { aac_packet_type = apt }; payload = src })
unfolding demux muxer_tag_data
demux-audio_tag p ah apt src k h aac =
    let is_aac : (ah.sound_format == 10) ≡ true = ground arith in
    simp (
      k,
      is_aac,
      audio_flags ah.sound_format ah.sound_rate ah.sound_size ah.sound_type h.format_fits
          h.rate_fits h.size_fits h.type_fits,
      parse_aac ah.sound_format ah.sound_rate ah.sound_size ah.sound_type apt src zero_tag aac
          h.rate_fits h.size_fits h.type_fits,
    )

-- A packet of AAC data whose fields fit the header is packed without an error, and Demux gives its
-- header, with the type of raw data, and its data back.
pub demux-pack_audio_data :
    (p : Packet) (ah : AudioPacketHeader) (src : List ℕ)
    → p.packet_type ≡ 2
    → IsAudioHeader ah
    → ah.sound_format ≡ 10
    → (bs : List ℕ) × (pack_audio_data ah src ≡ ok bs)
      × (demux (record p { payload = bs })
          ≡ ok (record p { a_header = record ah { aac_packet_type = 1 }; payload = src }))
unfolding pack_audio_data
demux-pack_audio_data p ah src k h aac =
    (muxer_tag_data (audio_tag ah 1) ++ src, ground arith, demux-audio_tag p ah 1 src k h aac)

-- The header of an H.264 packet is five bytes that ParseVideoHeader reads back, and Demux leaves the
-- data behind them, where the fields fit the header and the composition time is not negative.
pub demux-muxer_tag_data :
    (p : Packet) (vh : VideoPacketHeader) (src : List ℕ)
    → p.packet_type ≡ 1
    → IsVideoHeader vh
    → vh.codec_id ≡ 7
    → demux (record p { payload = muxer_tag_data (video_tag vh) ++ src })
      ≡ ok (record p { v_header = vh; payload = src })
unfolding demux muxer_tag_data
demux-muxer_tag_data p vh src k h avc =
    let is_avc : (vh.codec_id == 7) ≡ true = ground arith in
    simp (
      k,
      is_avc,
      video_flags vh.frame_type vh.codec_id h.frame_fits h.codec_fits,
      parse_avc vh.frame_type vh.codec_id vh.avc_packet_type vh.composition_time src avc
          h.time_fits,
    )
