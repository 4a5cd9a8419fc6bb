-- ===== src/Flv/Config.antt =====
-- The H.264 configuration that a stream sends first: NewAVCSequenceHeader and ParseAVCSequenceHeader of
-- container/flv/tag.go, AVCDecoderConfigurationRecord of media/h264/parser.go.
use srtmp.Prelude.{
  ℕ, zero, suc, ◌+◌, ◌-◌, ◌≤◌, ◌<◌, ◌≡◌, refl, ap, sym, ◌∙◌, bit_and, bit_or, false, List, [], ◌∷◌,
  ◌++◌,
}
use srtmp.Prelude.{
  append-nil, length, length-append, take, drop, replicate, take-append_exact, drop-append_exact,
  ◌==◌, if◌then◌else◌,
}
use srtmp.Prelude.{uint16, shl8, Result, ok, err, bind, failure, arith}
use srtmp.Wire.Writes.{length-be_bytes, be_bytes}
use srtmp.Amf.{same}
use srtmp.Amf.Decode.{be_number}
use srtmp.Amf.Scalars.{be_number2}
use srtmp.Flv.{zero_tag, muxer_tag_data}

abbrev pub start_code4 : List ℕ
start_code4 = 0 ∷ 0 ∷ 0 ∷ 1 ∷ []

-- The comparison is with the whole parameter set, not with its first bytes.
unfoldable pub without_start_code : List ℕ → List ℕ
unfolding same
without_start_code ps = if same ps start_code4 then drop 4 ps else ps

unfoldable pub avc_decoder_configuration_record : List ℕ → List ℕ → List ℕ
avc_decoder_configuration_record sps pps =
    let s = without_start_code sps in
    let p = without_start_code pps in
    1
    ∷ 66
    ∷ 0
    ∷ 40
    ∷ bit_or (shl8 0x3f 2) (bit_and 3 0x03)
    ∷ bit_or (shl8 0x07 5) (bit_and 1 0x1f)
    ∷ (be_bytes 2 (uint16 (length s)) ++ (s ++ (1 ∷ (be_bytes 2 (uint16 (length p)) ++ p))))

unfoldable pub new_avc_sequence_header : List ℕ → List ℕ → List ℕ
new_avc_sequence_header sps pps =
    muxer_tag_data (record zero_tag { f_type = 9; frame_type = 1; codec_id = 7 })
    ++ avc_decoder_configuration_record sps pps

-- bytes.Reader's Read into `n` zero bytes: what is missing at the end stays 0, and only an empty rest
-- is an error.
unfoldable pub read_some : ℕ → List ℕ → Result (List ℕ × List ℕ)
read_some n [] = err failure
read_some n (b ∷ bs) = ok (take n (b ∷ bs) ++ replicate (n - length (b ∷ bs)) 0, drop n (b ∷ bs))

-- The loop over the parameter sets of one kind.
unfoldable pub parse_sets : ℕ → List ℕ → Result (List (List ℕ) × List ℕ)
parse_sets zero bs = ok ([], bs)
parse_sets (suc n) bs = bind (read_some 2 bs) λ len.
    bind (read_some (be_number 0 len.0) len.1)
      λ set. bind (parse_sets n set.1) λ sets. ok (set.0 ∷ sets.0, sets.1)

abbrev next_byte : List ℕ → Result (ℕ × List ℕ)
next_byte [] = err failure
next_byte (b ∷ bs) = ok (b, bs)

-- The version, three bytes, one that Seek skips, and the two lists. A count is in the low five bits,
-- or in the whole byte.
unfoldable pub parse_avc_sequence_header : List ℕ → Result (List (List ℕ) × List (List ℕ))
parse_avc_sequence_header bs = bind (next_byte bs) λ version.
    if version.0 == 1
    then (bind (read_some 3 version.1) λ apa. bind (next_byte (drop 1 apa.1)) λ spss_n.
        bind (parse_sets (bit_and spss_n.0 0x1f) spss_n.1) λ spss.
          bind (next_byte spss.1)
            λ ppss_n. bind (parse_sets ppss_n.0 ppss_n.1) λ ppss. ok (spss.0, ppss.0))
    else err failure

read_some-short :
    (n : ℕ) (bs : List ℕ)
    → 0 < length bs
    → n ≤ length bs
    → read_some n bs ≡ ok (take n bs, drop n bs)
unfolding read_some
read_some-short n [] pos h = absurd (omega arith)
read_some-short n (b ∷ bs) pos h =
    let none_missing : n - length (b ∷ bs) ≡ 0 = omega arith in simp (none_missing, append-nil)

read_some-append :
    (n : ℕ) (bs rest : List ℕ)
    → length bs ≡ n
    → 0 < length bs + length rest
    → read_some n (bs ++ rest) ≡ ok (bs, rest)
read_some-append n bs rest e pos =
    read_some-short n (bs ++ rest) (omega (arith, length-append bs rest))
      (omega (arith, length-append bs rest))
    ∙ simp (take-append_exact bs rest n e, drop-append_exact bs rest n e)

-- One parameter set, with its length in front of it.
parse_set :
    (s rest : List ℕ)
    → length s ≤ 65535
    → 0 < length s + length rest
    → parse_sets 1 (be_bytes 2 (uint16 (length s)) ++ (s ++ rest)) ≡ ok (s ∷ [], rest)
unfolding parse_sets
parse_set s rest h pos =
    let n = length s in
    let whole : uint16 n ≡ n = omega arith in
    let len : read_some 2 (be_bytes 2 n ++ (s ++ rest)) ≡ ok (be_bytes 2 n, s ++ rest) =
      read_some-append 2 (be_bytes 2 n) (s ++ rest) (length-be_bytes 2 n)
        (omega (arith, length-be_bytes 2 n)) in
    simp (whole, len, be_number2 n (omega arith), read_some-append n s rest refl pos)

pub own_set : (s : List ℕ) → same s start_code4 ≡ false → without_start_code s ≡ s
unfolding without_start_code
own_set s h = simp h

-- A record with one parameter set of each kind, neither of them the bare start code, is parsed to the
-- two sets. The second is not empty, and their lengths fit 16 bits.
pub parse_avc_sequence_header_lem :
    (sps pps : List ℕ)
    → same sps start_code4 ≡ false
    → same pps start_code4 ≡ false
    → length sps ≤ 65535
    → length pps ≤ 65535
    → 0 < length pps
    → parse_avc_sequence_header (avc_decoder_configuration_record sps pps) ≡ ok (sps ∷ [], pps ∷ [])
unfolding parse_avc_sequence_header avc_decoder_configuration_record
parse_avc_sequence_header_lem sps pps hs hp ls lp pos =
    let tail = 1 ∷ (be_bytes 2 (uint16 (length pps)) ++ pps) in
    let first = parse_set sps tail ls (omega arith) in
    let second : parse_sets 1 (be_bytes 2 (uint16 (length pps)) ++ pps) ≡ ok (pps ∷ [], []) =
      ap (λ (l : List ℕ). parse_sets 1 (be_bytes 2 (uint16 (length pps)) ++ l))
        (sym (append-nil pps))
      ∙ parse_set pps [] lp (omega arith) in
    let body = be_bytes 2 (uint16 (length sps)) ++ (sps ++ tail) in
    let profile : read_some 3 (66 ∷ 0 ∷ 40 ∷ 255 ∷ 225 ∷ body)
        ≡ ok (66 ∷ 0 ∷ 40 ∷ [], 255 ∷ 225 ∷ body) =
      read_some-append 3 (66 ∷ 0 ∷ 40 ∷ []) (255 ∷ 225 ∷ body) refl (omega arith) in
    rw (own_set sps hs, own_set pps hp) (simp (profile, first, second))
