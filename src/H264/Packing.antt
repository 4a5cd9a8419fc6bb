-- ===== src/H264/Packing.antt =====
-- The way of an access unit through PackVideoData and the demuxer of container/flv, and Parse of
-- media/h264/parser.go.
use srtmp.Prelude.{ℕ, ◌^◌, ◌≤◌, ◌<◌, ◌≡◌, refl, ap, ◌∙◌, true, false, List, [], ◌∷◌, ◌++◌}
use srtmp.Prelude.{
  some, append-nil, ◌⊎◌, Bool-cases, inl, inr, length, ◌==◌, if◌then◌else◌, All, uint32,
  append_assoc, ok, arith,
}
use srtmp.Wire.Writes.{be_bytes}
use srtmp.Av.{VideoPacketHeader, Packet}
use srtmp.Flv.{muxer_tag_data, demux}
use srtmp.Flv.Packing.{copy_nalus, copy_whole, pack_h264, pack_video_data}
use srtmp.Flv.RoundTrip.{video_tag, demux-muxer_tag_data}
use srtmp.Flv.Config.{start_code4}
use srtmp.H264.{Parser, Conversion, is_nalu_header, put_nalu, write_sps_pps, parse, nalu_aud}
use srtmp.H264.Nalus.{join_nalus, AreUnits, parse_nalus_n-join_nalus}
use srtmp.H264.Annexb.{
  prefix_nalus, nal_type, put_nalus, HasLength, started, get_annexb_h264-prefix_nalus,
}

copy_nalus-prefix_nalus :
    (units : List (List ℕ)) → All HasLength units → copy_nalus units ≡ prefix_nalus units
unfolding copy_nalus prefix_nalus
copy_nalus-prefix_nalus [] h = refl
copy_nalus-prefix_nalus ([] ∷ units) h = absurd (omega (arith, h.0))
copy_nalus-prefix_nalus ((b ∷ x) ∷ units) h =
    let whole : uint32 (length (b ∷ x)) ≡ length (b ∷ x) = omega (arith, h.0) in
    rw (whole, copy_nalus-prefix_nalus units h.1) refl

-- The header that PackVideoData gives a frame.
abbrev pub framed : ℕ → VideoPacketHeader → VideoPacketHeader
framed frame_type vh = record vh { frame_type = frame_type; composition_time = 0 }

-- Parameter sets and a picture.
pub record IsKeyUnit (sps pps idr : List ℕ) : Type 0 where
  pub are_units : AreUnits (sps ∷ pps ∷ idr ∷ [])
  pub are_short : All HasLength (sps ∷ pps ∷ idr ∷ [])
  pub is_sps : nal_type sps ≡ 7
  pub is_pps : nal_type pps ≡ 8
  pub is_idr : nal_type idr ≡ 5

pack_h264-key :
    (vh : VideoPacketHeader) (sps pps idr : List ℕ)
    → vh.codec_id ≡ 7
    → IsKeyUnit sps pps idr
    → pack_video_data vh (start_code4 ++ join_nalus (sps ∷ pps ∷ idr ∷ []))
      ≡ ok (muxer_tag_data (video_tag (framed 1 vh)) ++ prefix_nalus (sps ∷ pps ∷ idr ∷ []))
unfolding pack_video_data pack_h264 is_nalu_header join_nalus
pack_h264-key vh [] pps idr avc h = absurd (omega (arith, h.is_sps))
pack_h264-key vh (b ∷ sps) pps idr avc h =
    let units = (b ∷ sps) ∷ pps ∷ idr ∷ [] in
    let found = (parse_nalus_n-join_nalus units (some 3) h.are_units (omega arith)).0 in
    simp (avc, h.is_sps, found, copy_nalus-prefix_nalus units h.are_short)

-- A parameter set is kept for the packet's IDR slice, which is written behind them.
abbrev with_set : List ℕ → Conversion → Conversion
with_set x s = record s {
  has_sps_pps = true;
  parser = record s.parser { pps = (s.parser.pps ++ start_code4) ++ x };
}

put_nalu-sps :
    (x : List ℕ) (s : Conversion) → nal_type x ≡ 7 → put_nalu (nal_type x) x s ≡ with_set x s
unfolding put_nalu
put_nalu-sps x s h = rw h refl

put_nalu-pps :
    (x : List ℕ) (s : Conversion) → nal_type x ≡ 8 → put_nalu (nal_type x) x s ≡ with_set x s
unfolding put_nalu
put_nalu-pps x s h = rw h refl

put_nalu-idr :
    (x : List ℕ) (s : Conversion)
    → nal_type x ≡ 5
    → s.has_sps_pps ≡ true
    → s.has_write_sps_pps ≡ false
    → put_nalu (nal_type x) x s
      ≡ record s { has_write_sps_pps = true; out = ((s.out ++ s.parser.pps) ++ start_code4) ++ x }
unfolding put_nalu write_sps_pps
put_nalu-idr x s h has write = simp (h, has, write)

put_nalus-key :
    (sps pps idr : List ℕ) (parser : Parser) (w : List ℕ)
    → IsKeyUnit sps pps idr
    → put_nalus (sps ∷ pps ∷ idr ∷ []) (started parser w) ≡ record {
      parser = record parser { pps = ((start_code4 ++ sps) ++ start_code4) ++ pps };
      out =
          (((w ++ nalu_aud) ++ (((start_code4 ++ sps) ++ start_code4) ++ pps)) ++ start_code4)
          ++ idr;
      has_sps_pps = true;
      has_write_sps_pps = true;
    }
unfolding put_nalus
put_nalus-key sps pps idr parser w h =
    let s = with_set pps (with_set sps (started parser w)) in
    ap (λ (t : Conversion). put_nalu (nal_type idr) idr (put_nalu (nal_type pps) pps t))
      (put_nalu-sps sps (started parser w) h.is_sps)
    ∙ ap (put_nalu (nal_type idr) idr) (put_nalu-pps pps (with_set sps (started parser w)) h.is_pps)
    ∙ put_nalu-idr idr s h.is_idr refl refl

-- The bytes written, with and without the brackets of the writes.
key_unit_out :
    (sps pps idr w : List ℕ)
    → (((w ++ nalu_aud) ++ (((start_code4 ++ sps) ++ start_code4) ++ pps)) ++ start_code4) ++ idr
      ≡ w ++ (nalu_aud ++ (start_code4 ++ join_nalus (sps ∷ pps ∷ idr ∷ [])))
unfolding join_nalus
key_unit_out sps pps idr w = simp append_assoc

is_nalu_header-prefix_nalus :
    (x : List ℕ) (units : List (List ℕ))
    → HasLength x
    → 2 ≤ length x
    → is_nalu_header (prefix_nalus (x ∷ units)) ≡ false
unfolding is_nalu_header prefix_nalus be_bytes
is_nalu_header-prefix_nalus x units h long =
    elim (Bool-cases (is_nalu_header (prefix_nalus (x ∷ units)))) [
      | inl e ↦ absurd (ground arith)
      | inr e ↦ e
    ]

-- An access unit of an SPS, a PPS and an IDR slice, each behind 00 00 00 01, is packed as a key frame
-- with their lengths in front of them. Demux gives that header and the payload back, and Parse writes
-- the access unit behind an access unit delimiter. The units hold no start code, the SPS has two bytes
-- or more and the slice four, their lengths fit 32 bits.
pub parse-demux-pack_video_data :
    (p : Packet) (vh : VideoPacketHeader) (sps pps idr : List ℕ) (parser : Parser) (w : List ℕ)
    → p.packet_type ≡ 1
    → vh.codec_id ≡ 7
    → IsKeyUnit sps pps idr
    → 2 ≤ length sps
    → (packed body : List ℕ) × (pack_video_data vh
          (start_code4 ++ join_nalus (sps ∷ pps ∷ idr ∷ []))
        ≡ ok packed)
      × (demux (record p { payload = packed })
          ≡ ok (record p { v_header = framed 1 vh; payload = body }))
      × ((parse parser body false w).1 ≡ ok tt)
      × ((parse parser body false w).0.1
          ≡ w ++ (nalu_aud ++ (start_code4 ++ join_nalus (sps ∷ pps ∷ idr ∷ []))))
unfolding parse
parse-demux-pack_video_data p vh sps pps idr parser w k avc h long =
    let body = prefix_nalus (sps ∷ pps ∷ idr ∷ []) in
    let converted =
      get_annexb_h264-prefix_nalus parser sps (pps ∷ idr ∷ []) w h.are_short
      ∙ ap (λ (s : Conversion). (s, ok tt)) (put_nalus-key sps pps idr parser w h) in
    let not_annexb = is_nalu_header-prefix_nalus sps (pps ∷ idr ∷ []) h.are_short.0 long in
    (
      muxer_tag_data (video_tag (framed 1 vh)) ++ body,
      body,
      pack_h264-key vh sps pps idr avc h,
      demux-muxer_tag_data p (framed 1 vh) body k
          record { frame_fits = omega arith; codec_fits = omega arith; time_fits = omega arith }
          avc,
      simp (not_annexb, converted),
      simp (not_annexb, converted, key_unit_out sps pps idr w),
    )

-- A slice of another kind than parameter sets.
pack_h264-slice :
    (vh : VideoPacketHeader) (x : List ℕ)
    → vh.codec_id ≡ 7
    → (nal_type x ≡ 1) ⊎ (nal_type x ≡ 5)
    → HasLength x
    → pack_video_data vh (start_code4 ++ x)
      ≡ ok (
          muxer_tag_data (video_tag (framed (if nal_type x == 5 then 1 else 2) vh))
          ++ prefix_nalus (x ∷ []))
unfolding pack_video_data pack_h264 copy_whole is_nalu_header prefix_nalus
pack_h264-slice vh [] avc kind h = absurd (omega arith)
pack_h264-slice vh (b ∷ x) avc (inl kind) h =
    let whole : uint32 (length (b ∷ x)) ≡ length (b ∷ x) = omega arith in
    simp (avc, kind, whole, append-nil)
pack_h264-slice vh (b ∷ x) avc (inr kind) h =
    let whole : uint32 (length (b ∷ x)) ≡ length (b ∷ x) = omega arith in
    simp (avc, kind, whole, append-nil)

-- What stands in front of a slice: the delimiter, and before an IDR slice the stream's parameter sets.
put_nalus-slice :
    (x : List ℕ) (parser : Parser) (w : List ℕ)
    → (nal_type x ≡ 1) ⊎ (nal_type x ≡ 5)
    → (put_nalus (x ∷ []) (started parser w)).out
      ≡ w
        ++ (nalu_aud
            ++ ((if nal_type x == 5 then parser.specific_info else []) ++ (start_code4 ++ x)))
unfolding put_nalus put_nalu write_sps_pps
put_nalus-slice x parser w (inl kind) = simp (kind, append_assoc)
put_nalus-slice x parser w (inr kind) = simp (kind, append_assoc)

-- A single slice behind 00 00 00 01 is packed with its length in front, as a key frame exactly when it
-- is an IDR slice. Demux gives that header and the payload back, and Parse writes an access unit
-- delimiter, the stream's parameter sets if the slice is an IDR slice, and the slice behind its start
-- code. The slice has two bytes or more, and its length fits 32 bits.
pub parse-demux-pack_slice :
    (p : Packet) (vh : VideoPacketHeader) (x : List ℕ) (parser : Parser) (w : List ℕ)
    → p.packet_type ≡ 1
    → vh.codec_id ≡ 7
    → (nal_type x ≡ 1) ⊎ (nal_type x ≡ 5)
    → 2 ≤ length x
    → length x < 2 ^ 32
    → (packed body : List ℕ) × (pack_video_data vh (start_code4 ++ x) ≡ ok packed)
      × (demux (record p { payload = packed })
          ≡ ok (record p {
            v_header = framed (if nal_type x == 5 then 1 else 2) vh;
            payload = body;
          }))
      × ((parse parser body false w).1 ≡ ok tt)
      × ((parse parser body false w).0.1
          ≡ w
            ++ (nalu_aud
                ++ ((if nal_type x == 5 then parser.specific_info else []) ++ (start_code4 ++ x))))
unfolding parse
parse-demux-pack_slice p vh x parser w k avc kind long fits =
    let body = prefix_nalus (x ∷ []) in
    let frame : ℕ = if nal_type x == 5 then 1 else 2 in
    let short : HasLength x = (omega arith, fits) in
    let converted = get_annexb_h264-prefix_nalus parser x [] w (short, tt) in
    let not_annexb = is_nalu_header-prefix_nalus x [] short long in
    (
      muxer_tag_data (video_tag (framed frame vh)) ++ body,
      body,
      pack_h264-slice vh x avc kind short,
      demux-muxer_tag_data p (framed frame vh) body k
          record { frame_fits = ground arith; codec_fits = omega arith; time_fits = omega arith }
          avc,
      simp (not_annexb, converted),
      simp (not_annexb, converted, put_nalus-slice x parser w kind),
    )
