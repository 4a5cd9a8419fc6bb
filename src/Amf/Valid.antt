-- ===== src/Amf/Valid.antt =====
-- The values that the encoder of protocol/amf/encoder_amf0.go can send, and maps as lists of fields.
use srtmp.Prelude.{ℕ, ◌<◌, ◌≤◌, ◌^◌, ◌≡◌, refl, ap, Bool, false, ◌||◌, List, [], ◌∷◌, length}
use srtmp.Prelude.{arith}
use srtmp.Amf.{Value, nil, number, boolean, string, object, array, typed_object, Fields, no_fields}
use srtmp.Amf.{field, Items, no_items, item, same, assign}
use srtmp.Amf.Encode.{count_items}

unfoldable pub has_key : List ℕ → Fields → Bool
unfolding same
has_key key no_fields = false
has_key key (field k v fs) = same k key || has_key key fs

-- A float64 has 64 bits; a string, an array and a key fit the width of their length; a key is not
-- empty and stands once. A typed object cannot be sent.
unfoldable mutual
  unfolding has_key count_items

  pub IsValue : Value → Type 0
  IsValue nil = Unit
  IsValue (number bits) = bits < 2 ^ 64
  IsValue (boolean b) = Unit
  IsValue (string s) = length s < 2 ^ 32
  IsValue (object fs) = IsFields fs
  IsValue (array vs) = (count_items vs < 2 ^ 32) × IsItems vs
  IsValue (typed_object name fs) = ⊥

  pub IsFields : Fields → Type 0
  IsFields no_fields = Unit
  IsFields (field key v fs) =
      (0 < length key) × (length key ≤ 65535) × (has_key key fs ≡ false) × IsValue v × IsFields fs

  pub IsItems : Items → Type 0
  IsItems no_items = Unit
  IsItems (item v vs) = IsValue v × IsItems vs

-- The fields of one map behind those of another.
unfoldable pub chain : Fields → Fields → Fields
chain no_fields fs = fs
chain (field k v es) fs = field k v (chain es fs)

pub chain-no_fields : (fs : Fields) → chain fs no_fields ≡ fs
unfolding chain
chain-no_fields no_fields = refl
chain-no_fields (field k v fs) = ap (field k v) (chain-no_fields fs)

pub chain_assoc : (a b c : Fields) → chain (chain a b) c ≡ chain a (chain b c)
unfolding chain
chain_assoc no_fields b c = refl
chain_assoc (field k v a) b c = ap (field k v) (chain_assoc a b c)

-- The keys of `fs` are new to `acc`.
unfoldable pub Apart : Fields → Fields → Type 0
unfolding has_key
Apart acc no_fields = Unit
Apart acc (field k v fs) = (has_key k acc ≡ false) × Apart acc fs

pub Apart-no_fields : (fs : Fields) → Apart no_fields fs
unfolding Apart has_key
Apart-no_fields no_fields = tt
Apart-no_fields (field k v fs) = (refl, Apart-no_fields fs)

same_sym : (a b : List ℕ) → same a b ≡ same b a
unfolding same
same_sym [] [] = refl
same_sym [] (y ∷ ys) = refl
same_sym (x ∷ xs) [] = refl
same_sym (x ∷ xs) (y ∷ ys) = ground (arith, same_sym xs ys)

pub assign-new :
    (key : List ℕ) (v : Value) (acc : Fields)
    → has_key key acc ≡ false
    → assign key v acc ≡ chain acc (field key v no_fields)
unfolding assign chain has_key
assign-new key v no_fields h = refl
assign-new key v (field k w fs) h = ground (arith, assign-new key v fs)

has_key-chain :
    (key k : List ℕ) (v : Value) (acc : Fields)
    → has_key key acc ≡ false
    → same k key ≡ false
    → has_key key (chain acc (field k v no_fields)) ≡ false
unfolding has_key chain
has_key-chain key k v no_fields h g = ground arith
has_key-chain key k v (field j w fs) h g = ground (arith, has_key-chain key k v fs)

-- A key that is new to both leaves the rest new.
pub Apart-assign :
    (k : List ℕ) (v : Value) (acc fs : Fields)
    → has_key k fs ≡ false
    → Apart acc fs
    → Apart (chain acc (field k v no_fields)) fs
unfolding Apart has_key
Apart-assign k v acc no_fields h a = tt
Apart-assign k v acc (field j w fs) h (new, a) = (
  has_key-chain j k v acc new (ground (arith, same_sym j k)),
  Apart-assign k v acc fs (ground arith) a,
)
