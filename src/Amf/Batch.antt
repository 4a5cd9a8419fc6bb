-- ===== src/Amf/Batch.antt =====
-- EncodeBatch and DecodeBatch of protocol/amf/amf.go.
use srtmp.Prelude.{ℕ, zero, suc, ◌+◌, ◌<◌, ◌≡◌, refl, ap}
use srtmp.Prelude.{List, [], ◌∷◌, ◌++◌, length, length-append, some}
use srtmp.Prelude.{ok}
use srtmp.Prelude.{arith, All, eof}
use srtmp.Amf.{Value}
use srtmp.Amf.Encode.{encode_batch}
use srtmp.Amf.Decode.{Amf3, stopped}
use srtmp.Amf.Decode.{read_byte}
use srtmp.Amf.Decode.{decode}
use srtmp.Amf.Decode.{decode_batch, keep_value}
use srtmp.Amf.Valid.{IsValue}
use srtmp.Amf.Scalars.{Encoded}
use srtmp.Amf.RoundTrip.{encoded}

decode_batch-end :
    (amf3 : Amf3) (fuel : ℕ) → decode_batch amf3 (suc fuel) [] ≡ some ([], stopped eof)
unfolding decode_batch decode read_byte
decode_batch-end amf3 fuel = refl

batch_step :
    (amf3 : Amf3) (v : Value) (vs : List Value) (bs more : List ℕ)
    → Encoded amf3 v bs
    → ((fuel : ℕ) → length more < fuel → decode_batch amf3 fuel more ≡ some (vs, stopped eof))
    → (fuel : ℕ) → length (bs ++ more) < fuel
    → decode_batch amf3 fuel (bs ++ more) ≡ some (v ∷ vs, stopped eof)
unfolding decode_batch
batch_step amf3 v vs bs more f next zero lt = absurd (omega arith)
batch_step amf3 v vs bs more (e, pos, value) next (suc fuel) lt =
    let size : length bs + length more < suc fuel = omega (arith, length-append bs more) in
    rw (value (suc fuel) more (omega arith)) (ap (keep_value v) (next fuel (omega arith)))

batch :
    (amf3 : Amf3) (vs : List Value)
    → All IsValue vs
    → (bs : List ℕ) × (encode_batch vs ≡ ok bs)
      × ((fuel : ℕ) → length bs < fuel → decode_batch amf3 fuel bs ≡ some (vs, stopped eof))
unfolding encode_batch
batch amf3 [] h = ([], refl, last)
  where
    last :
        (fuel : ℕ) → length {A = ℕ} [] < fuel → decode_batch amf3 fuel [] ≡ some ([], stopped eof)
    last zero lt = absurd (omega arith)
    last (suc fuel) lt = decode_batch-end amf3 fuel
batch amf3 (v ∷ vs) (hv, hs) =
    let (bs, f) = encoded amf3 v hv in
    let (more, es, next) = batch amf3 vs hs in
    (bs ++ more, simp (f.0, es), batch_step amf3 v vs bs more f next)

-- A list of values that can be sent, a command with its arguments say, is encoded without an error,
-- and DecodeBatch returns the same list, stopped by the end of the input, whatever decodes AMF3.
pub decode_batch-encode_batch :
    (amf3 : Amf3) (vs : List Value)
    → All IsValue vs
    → (bs : List ℕ) × (encode_batch vs ≡ ok bs)
      × (decode_batch amf3 (suc (length bs)) bs ≡ some (vs, stopped eof))
decode_batch-encode_batch amf3 vs h =
    let (bs, e, all) = batch amf3 vs h in (bs, e, all (suc (length bs)) (omega arith))
