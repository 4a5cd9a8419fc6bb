-- ===== src/H264.antt =====
-- The H.264 parser of media/h264/parser.go: from the packets of a stream to Annex B, and a byte stream
-- split at its start codes.
-- The io.Writer is the bytes written to it, and takes them all. A slice has no room behind its end.
use srtmp.Prelude.{
  ℕ, zero, suc, ◌+◌, ◌*◌, bit_and, Bool, true, false, ◌&&◌, ◌||◌, not, List, [], ◌∷◌, ◌++◌,
}
use srtmp.Prelude.{length, take, drop, replicate, ltb, leb, ◌==◌, if◌then◌else◌}
use srtmp.Prelude.{Result, ok, err, panic, failure}
use srtmp.Prelude.{Option, none, some, bind}
use srtmp.Amf.Decode.{be_number}
use srtmp.Flv.Config.{start_code4}
pub mod Nalus
pub mod Annexb
pub mod Packing
pub mod Records

-- The parser, with the field of frame types that nothing reads left out.
pub record Parser : Type 0 where
  pub specific_info : List ℕ
  pub pps : List ℕ

abbrev pub nalu_aud : List ℕ
nalu_aud = 0 ∷ 0 ∷ 0 ∷ 1 ∷ 0x09 ∷ 0xf0 ∷ []

-- The buffer starts with its 2048 zero bytes as its contents.
unfoldable pub new_parser : Parser
new_parser = record { specific_info = []; pps = replicate 2048 0 }

-- The first picture parameter set takes all that is left, also what lies behind its length.
unfoldable pub parse_pps : Parser → List ℕ → List ℕ → Parser × Result (Unit {0})
parse_pps parser sps (_ ∷ len1 ∷ len0 ∷ b ∷ rest) =
    let pps_len = len1 * 256 + len0 in
    if ltb (length (b ∷ rest)) pps_len || leb pps_len 0 then (parser, err failure) else (
      record parser {
        specific_info =
            (parser.specific_info ++ (start_code4 ++ sps)) ++ (start_code4 ++ (b ∷ rest));
      },
      ok tt,
    )
parse_pps parser sps _ = (parser, err failure)

unfoldable pub parse_specific_info : Parser → List ℕ → Parser × Result (Unit {0})
parse_specific_info parser (_ ∷ _ ∷ _ ∷ _ ∷ _ ∷ _ ∷ len1 ∷ len0 ∷ b ∷ rest) =
    let sps_len = len1 * 256 + len0 in
    if ltb (length (b ∷ rest)) sps_len || leb sps_len 0
    then (parser, err failure)
    else parse_pps parser (take sps_len (b ∷ rest)) (drop sps_len (b ∷ rest))
parse_specific_info parser _ = (parser, err failure)

unfoldable pub is_nalu_header : List ℕ → Bool
is_nalu_header (a ∷ b ∷ c ∷ d ∷ _) = a == 0 && (b == 0 && (c == 0 && d == 1))
is_nalu_header _ = false

unfoldable pub nalu_size : List ℕ → Result ℕ
nalu_size (a ∷ b ∷ c ∷ d ∷ _) = ok (be_number 0 (a ∷ b ∷ c ∷ d ∷ []))
nalu_size _ = err failure

-- The parser, what was written, and the two flags of getAnnexbH264.
pub record Conversion : Type 0 where
  pub parser : Parser
  pub out : List ℕ
  pub has_sps_pps : Bool
  pub has_write_sps_pps : Bool

abbrev write_out : List ℕ → Conversion → Conversion
write_out bs s = record s { out = s.out ++ bs }

-- Before the first IDR slice the parameter sets are written: those of this packet, or the stream's.
unfoldable pub write_sps_pps : Conversion → Conversion
write_sps_pps s = if s.has_write_sps_pps then s else record s {
  has_write_sps_pps = true;
  out = s.out ++ (if s.has_sps_pps then s.parser.pps else s.parser.specific_info);
}

-- One round's switch on the type of the unit.
unfoldable pub put_nalu : ℕ → List ℕ → Conversion → Conversion
put_nalu nal_type nalu s =
    if nal_type == 5
    then write_out nalu (write_out start_code4 (write_sps_pps s))
    else if nal_type == 1 || nal_type == 6
    then write_out nalu (write_out start_code4 s)
    else if nal_type == 7 || nal_type == 8
    then record s {
      has_sps_pps = true;
      parser = record s.parser { pps = (s.parser.pps ++ start_code4) ++ nalu };
    }
    else s

-- The loop: a length, and as many bytes, which are at least one. `rest` is src[index:], of dataSize
-- bytes. The fuel is at least its length.
unfoldable pub annexb_loop : ℕ → List ℕ → Conversion → Conversion × Result (Unit {0})
annexb_loop fuel [] s = (s, ok tt)
annexb_loop zero (_ ∷ _) s = (s, panic)
annexb_loop (suc fuel) (a ∷ b ∷ c ∷ d ∷ t ∷ rest) s =
    let n = be_number 0 (a ∷ b ∷ c ∷ d ∷ []) in
    let more =
      annexb_loop fuel (drop n (t ∷ rest)) (put_nalu (bit_and t 0x1f) (take n (t ∷ rest)) s) in
    if leb n (length (t ∷ rest)) && ltb 0 n then more else (s, err failure)
annexb_loop (suc fuel) _ s = (s, err failure)

unfoldable pub get_annexb_h264 : Parser → List ℕ → List ℕ → Conversion × Result (Unit {0})
get_annexb_h264 parser src w =
    let s : Conversion = record {
      parser = parser;
      out = w;
      has_sps_pps = false;
      has_write_sps_pps = false;
    } in
    if ltb (length src) 4
    then (s, err failure)
    else annexb_loop (length src) src
        (record s { parser = record parser { pps = [] }; out = w ++ nalu_aud })

-- Parse: the parser and the written bytes afterwards, and the error.
unfoldable pub parse : Parser → List ℕ → Bool → List ℕ → (Parser × List ℕ) × Result (Unit {0})
parse parser b true w = let r = parse_specific_info parser b in ((r.0, w), r.1)
parse parser b false w =
    let r = get_annexb_h264 parser b w in
    if is_nalu_header b then ((parser, w ++ b), ok tt) else ((r.0.parser, r.0.out), r.1)

abbrev pub is_code3 : ℕ → ℕ → ℕ → Bool
is_code3 a b c = a == 0 && (b == 0 && c == 1)

abbrev pub is_code4 : ℕ → ℕ → ℕ → ℕ → Bool
is_code4 a b c d = a == 0 && (b == 0 && (c == 0 && d == 1))

-- The limit n of ParseNalusN is `none` where it is negative.
abbrev pub is_one : Option ℕ → Bool
is_one (some n) = n == 1
is_one none = false

abbrev pub count_down : Option ℕ → Option ℕ
count_down (some (suc n)) = some n
count_down n = n

-- What stands before a start code is a unit, unless it is empty.
abbrev pub close_unit :
    List ℕ → (Option ℕ → Result (List (List ℕ))) → Option ℕ → Result (List (List ℕ))
close_unit [] more n = more n
close_unit (x ∷ cur) more n = bind (more (count_down n)) λ units. ok ((x ∷ cur) ∷ units)

-- What is left at the end is the last unit.
abbrev pub last_unit : List ℕ → List (List ℕ)
last_unit [] = []
last_unit (x ∷ l) = (x ∷ l) ∷ []

-- The loop, with src[pre:index] and src[index:]. A comparison behind the end of src panics.
unfoldable pub split_nalus : List ℕ → List ℕ → Option ℕ → Result (List (List ℕ))
split_nalus cur [] n = if is_one n then ok (last_unit cur) else panic
split_nalus cur (a ∷ []) n = if is_one n then ok (last_unit (cur ++ (a ∷ []))) else panic
split_nalus cur (a ∷ b ∷ []) n = if is_one n then ok (last_unit (cur ++ (a ∷ b ∷ []))) else panic
split_nalus cur (a ∷ b ∷ c ∷ []) n =
    if is_one n
    then ok (last_unit (cur ++ (a ∷ b ∷ c ∷ [])))
    else if is_code3 a b c
    then close_unit cur (split_nalus [] []) n
    else panic
split_nalus cur (a ∷ b ∷ c ∷ d ∷ []) n =
    if is_one n
    then ok (last_unit (cur ++ (a ∷ b ∷ c ∷ d ∷ [])))
    else if is_code3 a b c
    then close_unit cur (split_nalus [] (d ∷ [])) n
    else if is_code4 a b c d
    then close_unit cur (split_nalus [] []) n
    else ok (last_unit (cur ++ (a ∷ b ∷ c ∷ d ∷ [])))
split_nalus cur (a ∷ b ∷ c ∷ d ∷ e ∷ rest) n =
    let after3 = split_nalus [] (d ∷ e ∷ rest) in
    let after4 = split_nalus [] (e ∷ rest) in
    let next = split_nalus (cur ++ (a ∷ [])) (b ∷ c ∷ d ∷ e ∷ rest) n in
    if is_one n
    then ok (last_unit (cur ++ (a ∷ b ∷ c ∷ d ∷ e ∷ rest)))
    else if is_code3 a b c
    then close_unit cur after3 n
    else if is_code4 a b c d
    then close_unit cur after4 n
    else next

unfoldable pub parse_nalus_n : List ℕ → Option ℕ → Result (List (List ℕ))
parse_nalus_n src (some zero) = ok []
parse_nalus_n src n = if ltb (length src) 4 then ok [] else split_nalus [] src n

unfoldable pub parse_nalus : List ℕ → Result (List (List ℕ))
unfolding parse_nalus_n
parse_nalus src = parse_nalus_n src none
