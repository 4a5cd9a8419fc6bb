-- ===== src/H264/Annexb.antt =====
-- What media/h264/parser.go makes of the units of one packet, each behind its length.
use srtmp.Prelude.{
  ℕ, zero, suc, ◌+◌, ◌^◌, ◌≤◌, ◌<◌, ◌≡◌, refl, ◌∙◌, bit_and, true, false, List, [], ◌∷◌, ◌++◌,
}
use srtmp.Prelude.{
  length, take, drop, ltb, leb, All, length-append, take-append_exact, drop-append_exact,
  not_lt→ltb, le→leb, lt→ltb, length-drop, if_cases, ◌≢◌, Result, ok, err, panic, failure, arith,
}
use srtmp.Amf.Decode.{be_number}
use srtmp.Amf.Scalars.{be_number4}
use srtmp.Wire.Writes.{be_bytes, length-be_bytes}
use srtmp.H264.{Parser, Conversion, put_nalu, annexb_loop, get_annexb_h264, nalu_aud}

-- Units, each behind its length in four bytes.
unfoldable pub prefix_nalus : List (List ℕ) → List ℕ
prefix_nalus [] = []
prefix_nalus (x ∷ units) = be_bytes 4 (length x) ++ (x ++ prefix_nalus units)

-- nalu[0] & 0x1f
abbrev pub nal_type : List ℕ → ℕ
nal_type [] = 0
nal_type (b ∷ _) = bit_and b 0x1f

-- The switch for each unit in turn.
unfoldable pub put_nalus : List (List ℕ) → Conversion → Conversion
put_nalus [] s = s
put_nalus (x ∷ units) s = put_nalus units (put_nalu (nal_type x) x s)

-- A length that four bytes hold, and not 0.
abbrev pub HasLength : List ℕ → Type 0
HasLength x = (0 < length x) × (length x < 2 ^ 32)

-- One round, where the length in front of the unit is right.
annexb_loop-round :
    (fuel a b c d n t : ℕ) (x rest : List ℕ) (s : Conversion)
    → be_number 0 (a ∷ b ∷ c ∷ d ∷ []) ≡ n
    → length (t ∷ x) ≡ n
    → annexb_loop (suc fuel) (a ∷ b ∷ c ∷ d ∷ t ∷ (x ++ rest)) s
      ≡ annexb_loop fuel rest (put_nalu (bit_and t 0x1f) (t ∷ x) s)
unfolding annexb_loop
annexb_loop-round fuel a b c d n t x rest s e k =
    let fits : leb n (length (t ∷ (x ++ rest))) ≡ true =
      le→leb n (length (t ∷ (x ++ rest))) (omega (arith, length-append x rest)) in
    let some_bytes : ltb 0 n ≡ true = lt→ltb 0 n (omega arith) in
    simp
      (e, fits, some_bytes, take-append_exact (t ∷ x) rest n k, drop-append_exact (t ∷ x) rest n k)

annexb_loop-unit :
    (fuel : ℕ) (x rest : List ℕ) (s : Conversion)
    → HasLength x
    → annexb_loop (suc fuel) (be_bytes 4 (length x) ++ (x ++ rest)) s
      ≡ annexb_loop fuel rest (put_nalu (nal_type x) x s)
unfolding be_bytes
annexb_loop-unit fuel [] rest s h = absurd (omega arith)
annexb_loop-unit fuel (b ∷ x) rest s h =
    let n = length (b ∷ x) in annexb_loop-round fuel _ _ _ _ n b x rest s (be_number4 n h.1) refl

length-prefix_nalus :
    (x : List ℕ) (units : List (List ℕ))
    → length (prefix_nalus (x ∷ units)) ≡ 4 + length x + length (prefix_nalus units)
unfolding prefix_nalus
length-prefix_nalus x units = omega (
  arith,
  length-append (be_bytes 4 (length x)) (x ++ prefix_nalus units),
  length-append x (prefix_nalus units),
  length-be_bytes 4 (length x),
)

annexb_loop-nothing : (fuel : ℕ) (s : Conversion) → annexb_loop fuel [] s ≡ (s, ok tt)
unfolding annexb_loop
annexb_loop-nothing zero s = refl
annexb_loop-nothing (suc fuel) s = refl

annexb_loop-prefix_nalus :
    (fuel : ℕ) (units : List (List ℕ)) (s : Conversion)
    → length (prefix_nalus units) ≤ fuel
    → All HasLength units
    → annexb_loop fuel (prefix_nalus units) s ≡ (put_nalus units s, ok tt)
unfolding prefix_nalus put_nalus
annexb_loop-prefix_nalus fuel [] s room h = annexb_loop-nothing fuel s
annexb_loop-prefix_nalus zero (x ∷ units) s room h =
    absurd (omega (arith, length-prefix_nalus x units))
annexb_loop-prefix_nalus (suc fuel) (x ∷ units) s room h =
    annexb_loop-unit fuel x (prefix_nalus units) s h.0
    ∙ annexb_loop-prefix_nalus fuel units (put_nalu (nal_type x) x s)
        (omega (arith, length-prefix_nalus x units)) h.1

-- The conversion before the loop.
abbrev pub started : Parser → List ℕ → Conversion
started parser w = record {
  parser = record parser { pps = [] };
  out = w ++ nalu_aud;
  has_sps_pps = false;
  has_write_sps_pps = false;
}

-- The rounds of getAnnexbH264 are those of put_nalu, one for each unit.
pub get_annexb_h264-prefix_nalus :
    (parser : Parser) (x : List ℕ) (units : List (List ℕ)) (w : List ℕ)
    → All HasLength (x ∷ units)
    → get_annexb_h264 parser (prefix_nalus (x ∷ units)) w
      ≡ (put_nalus (x ∷ units) (started parser w), ok tt)
unfolding get_annexb_h264
get_annexb_h264-prefix_nalus parser x units w h =
    let src = prefix_nalus (x ∷ units) in
    simp (
      not_lt→ltb (length src) 4 (omega (arith, length-prefix_nalus x units)),
      annexb_loop-prefix_nalus (length src) (x ∷ units) (started parser w) (omega arith) h,
    )

-- The loop's fuel is enough.
annexb_loop-total :
    (fuel : ℕ) (rest : List ℕ) (s : Conversion)
    → length rest ≤ fuel
    → (annexb_loop fuel rest s).1 ≢ panic
unfolding annexb_loop
annexb_loop-total zero [] s h = λ e. absurd (grind arith)
annexb_loop-total (suc fuel) [] s h = λ e. absurd (grind arith)
annexb_loop-total zero (a ∷ rest) s h = absurd (omega arith)
annexb_loop-total (suc fuel) (a ∷ []) s h = λ e. absurd (grind arith)
annexb_loop-total (suc fuel) (a ∷ b ∷ []) s h = λ e. absurd (grind arith)
annexb_loop-total (suc fuel) (a ∷ b ∷ c ∷ []) s h = λ e. absurd (grind arith)
annexb_loop-total (suc fuel) (a ∷ b ∷ c ∷ d ∷ []) s h = λ e. absurd (grind arith)
annexb_loop-total (suc fuel) (a ∷ b ∷ c ∷ d ∷ t ∷ rest) s h =
    let n = be_number 0 (a ∷ b ∷ c ∷ d ∷ []) in
    let next = put_nalu (bit_and t 0x1f) (take n (t ∷ rest)) s in
    if_cases (λ (r : Conversion × Result (Unit {0})). r.1 ≢ panic) _ _ (s, err failure)
      (annexb_loop-total fuel (drop n (t ∷ rest)) next (omega (arith, length-drop n (t ∷ rest))))
      (λ e. absurd (grind arith))
