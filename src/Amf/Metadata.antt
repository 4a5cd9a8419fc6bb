-- ===== src/Amf/Metadata.antt =====
-- MetaDataReform of protocol/amf/metadata.go: it puts the name @setDataFrame before the metadata that
-- a publisher sends, and takes it away where the metadata goes to a player.
use srtmp.Prelude.{ℕ, suc, ◌≤◌, ◌≡◌, refl, ap, ◌∙◌, true, false, List, [], ◌∷◌, ◌++◌, length, drop}
use srtmp.Prelude.{Option, none, some, leb, ◌==◌, if◌then◌else◌, Result, ok, err, panic, failure}
use srtmp.Prelude.{length-append, drop-append_exact, arith, le→leb}
use srtmp.Amf.{Value, string, Decoded, done, rejected, crashed, out_of_fuel, same}
use srtmp.Amf.Encode.{encode_string}
use srtmp.Amf.Decode.{Amf3}
use srtmp.Amf.Decode.{decode}
use srtmp.Amf.Scalars.{short-Encoded}

-- @setDataFrame
abbrev pub set_data_frame : List ℕ
set_data_frame = 64 ∷ 115 ∷ 101 ∷ 116 ∷ 68 ∷ 97 ∷ 116 ∷ 97 ∷ 70 ∷ 114 ∷ 97 ∷ 109 ∷ 101 ∷ []

-- The encoding that the package's init makes of it.
unfoldable pub set_frame_frame : List ℕ
set_frame_frame = encode_string set_data_frame true

unfoldable pub add_frame : List ℕ → List ℕ → Result (List ℕ)
add_frame p s = ok (if same s set_data_frame then p else set_frame_frame ++ p)

-- p[len(setFrameFrame):] panics where p is shorter.
unfoldable pub del_frame : List ℕ → List ℕ → Result (List ℕ)
del_frame p s =
    if same s set_data_frame
    then (if leb (length set_frame_frame) (length p)
        then ok (drop (length set_frame_frame) p)
        else panic)
    else ok p

-- The type switch on the first value. `none`: the model's fuel ran out.
abbrev pub with_name : Decoded Value → (List ℕ → Result (List ℕ)) → Option (Result (List ℕ))
with_name (done (string s) rest) f = some (f s)
with_name (done _ rest) f = some (err failure)
with_name (rejected e) f = some (err e)
with_name crashed f = some panic
with_name out_of_fuel f = none

unfoldable pub metadata_reform : Amf3 → List ℕ → ℕ → Option (Result (List ℕ))
metadata_reform amf3 p flag =
    let first = decode amf3 (suc (length p)) p in
    if flag == 0x0
    then with_name first (add_frame p)
    else if flag == 0x3
    then with_name first (del_frame p)
    else some (err failure)

named :
    (amf3 : Amf3) (s rest : List ℕ)
    → length s ≤ 65535
    → decode amf3 (suc (length (encode_string s true ++ rest))) (encode_string s true ++ rest)
      ≡ done (string s) rest
named amf3 s rest h =
    (short-Encoded amf3 s h).2 _ rest (omega (arith, length-append (encode_string s true) rest))

reformed :
    (amf3 : Amf3) (s rest : List ℕ) (flag : ℕ)
    → length s ≤ 65535
    → metadata_reform amf3 (encode_string s true ++ rest) flag ≡ (
        if flag == 0x0
        then some (add_frame (encode_string s true ++ rest) s)
        else if flag == 0x3
        then some (del_frame (encode_string s true ++ rest) s)
        else some (err failure))
unfolding metadata_reform
reformed amf3 s rest flag h = simp (named amf3 s rest h)

add-other :
    (p s : List ℕ) → same s set_data_frame ≡ false → add_frame p s ≡ ok (set_frame_frame ++ p)
unfolding add_frame
add-other p s h = simp h

add-own : (p : List ℕ) → add_frame p set_data_frame ≡ ok p
unfolding add_frame same
add-own p = refl

del-other : (p s : List ℕ) → same s set_data_frame ≡ false → del_frame p s ≡ ok p
unfolding del_frame
del-other p s h = simp h

del-own : (p : List ℕ) → del_frame (set_frame_frame ++ p) set_data_frame ≡ ok p
unfolding del_frame same
del-own p =
    let n = length set_frame_frame in
    simp (
      le→leb n (length (set_frame_frame ++ p)) (omega (arith, length-append set_frame_frame p)),
      drop-append_exact set_frame_frame p n refl,
    )

-- On metadata whose first value is another short string than @setDataFrame: adding the name puts its
-- encoding in front, a second addition changes nothing, deleting gives the metadata back, and
-- metadata without the name is left by a deletion. Whatever decodes AMF3, and whatever follows.
pub metadata_reform_lem :
    (amf3 : Amf3) (s rest : List ℕ)
    → length s ≤ 65535
    → same s set_data_frame ≡ false
    → let p = encode_string s true ++ rest in
      (metadata_reform amf3 p 0x0 ≡ some (ok (set_frame_frame ++ p)))
      × (metadata_reform amf3 (set_frame_frame ++ p) 0x0 ≡ some (ok (set_frame_frame ++ p)))
      × (metadata_reform amf3 (set_frame_frame ++ p) 0x3 ≡ some (ok p))
      × (metadata_reform amf3 p 0x3 ≡ some (ok p))
unfolding set_frame_frame
metadata_reform_lem amf3 s rest h other =
    let p = encode_string s true ++ rest in
    (
      reformed amf3 s rest 0x0 h ∙ ap some (add-other p s other),
      reformed amf3 set_data_frame p 0x0 (omega arith) ∙ ap some (add-own (set_frame_frame ++ p)),
      reformed amf3 set_data_frame p 0x3 (omega arith) ∙ ap some (del-own p),
      reformed amf3 s rest 0x3 h ∙ ap some (del-other p s other),
    )
