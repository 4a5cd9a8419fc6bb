-- ===== src/Amf/U29/RoundTrip.antt =====
-- The 29-bit integers of protocol/amf are decoded as they were encoded.
use srtmp.Prelude.{
  ℕ, zero, suc, ◌+◌, ◌*◌, ◌/◌, ◌%◌, ◌^◌, ◌≤◌, ◌<◌, ◌≡◌, refl, ◌∙◌, bit_and, bit_or, Bool, true,
  false, ◌&&◌, List, [], ◌∷◌, ◌++◌, length,
}
use srtmp.Prelude.{
  leb, ◌==◌, if◌then◌else◌, shr, shl32, add32, ok, arith, Bool-cases, inl, inr, ap, subst, not,
  bit_and_mask,
}
use srtmp.Amf.{done}
use srtmp.Amf.U29.{encode_u29, decode_u29_loop, decode_u29}

-- A test that every number below a bound passes.
all_below : ℕ → (ℕ → Bool) → Bool
all_below zero p = true
all_below (suc n) p = p n && all_below n p

and-left : (a b : Bool) → (a && b) ≡ true → a ≡ true
and-left true b h = refl
and-left false b h = h

and-right : (a b : Bool) → (a && b) ≡ true → b ≡ true
and-right true b h = h
and-right false b h = absurd (ground arith)

all_below_lem : (n : ℕ) (p : ℕ → Bool) (b : ℕ) → all_below n p ≡ true → b < n → p b ≡ true
unfolding all_below
all_below_lem zero p b h lt = absurd (omega arith)
all_below_lem (suc n) p b h lt = elim (Bool-cases (b == n)) [
  | inl last ↦ subst (λ (k : ℕ). p k ≡ true) (ground arith) (and-left (p n) (all_below n p) h)
  | inr before ↦ all_below_lem n p b (and-right (p n) (all_below n p) h) (ground arith)
]

-- Setting the high bit of seven bits, and testing and clearing it.
high_bit : (x : ℕ) → x < 128 → bit_or x 0x80 ≡ x + 128
unfolding all_below
high_bit x h = ground (arith, all_below_lem 128 (λ y. bit_or y 0x80 == y + 128) x refl h)

high_set : (x : ℕ) → x < 128 → (bit_and (x + 128) 0x80 == 0) ≡ false
unfolding all_below
high_set x h = ground (arith, all_below_lem 128 (λ y. not (bit_and (y + 128) 0x80 == 0)) x refl h)

high_clear : (x : ℕ) → x < 128 → (bit_and x 0x80 == 0) ≡ true
unfolding all_below
high_clear x h = all_below_lem 128 (λ y. bit_and y 0x80 == 0) x refl h

low_seven : (x : ℕ) → bit_and x 0x7f ≡ x % 128
low_seven x = bit_and_mask 7 x

-- A byte of seven bits ends the number, and one with the high bit set goes on.
last_byte :
    (n r x : ℕ) (bs : List ℕ)
    → x < 128
    → r < 2 ^ 21
    → decode_u29_loop (suc n) r (x ∷ bs) ≡ done (r * 128 + x) bs
unfolding decode_u29_loop
last_byte n r x bs h k =
    let seven : bit_and x 0x7f ≡ x = omega (arith, low_seven x) in
    let sum : add32 (shl32 r 7) x ≡ r * 128 + x = omega arith in simp (high_clear x h, seven, sum)

inner_byte :
    (n r x : ℕ) (bs : List ℕ)
    → x < 128
    → r < 2 ^ 21
    → decode_u29_loop (suc n) r ((x + 128) ∷ bs) ≡ decode_u29_loop n (r * 128 + x) bs
unfolding decode_u29_loop
inner_byte n r x bs h k =
    let seven : bit_and (x + 128) 0x7f ≡ x = omega (arith, low_seven (x + 128)) in
    let sum : add32 (shl32 r 7) x ≡ r * 128 + x = omega arith in simp (high_set x h, seven, sum)

fourth_byte :
    (r x : ℕ) (bs : List ℕ)
    → x < 256
    → r < 2 ^ 21
    → decode_u29_loop 0 r (x ∷ bs) ≡ done (r * 256 + x) bs
unfolding decode_u29_loop
fourth_byte r x bs h k = let sum : add32 (shl32 r 8) x ≡ r * 256 + x = omega arith in simp sum

-- The encoding in plain arithmetic.
unfoldable u29_bytes : ℕ → List ℕ
u29_bytes val =
    if leb val 0x7f
    then val ∷ []
    else if leb val 0x3fff
    then (val / 128 + 128) ∷ (val % 128) ∷ []
    else if leb val 0x1fffff
    then (val / 2 ^ 14 + 128) ∷ (val / 128 % 128 + 128) ∷ (val % 128) ∷ []
    else (val / 2 ^ 22 + 128)
      ∷ (val / 2 ^ 15 % 128 + 128)
      ∷ (val / 2 ^ 8 % 128 + 128)
      ∷ (val % 256)
      ∷ []

u29_bytes-short : (val : ℕ) → length (u29_bytes val) ≤ 4
unfolding u29_bytes
u29_bytes-short val = ground arith

encode_u29-bytes : (val : ℕ) → val ≤ 0x1fffffff → encode_u29 val ≡ ok (u29_bytes val)
unfolding encode_u29 u29_bytes
encode_u29-bytes val h = ground (
  arith,
  low_seven val,
  low_seven (shr val 7),
  low_seven (shr val 15),
  low_seven (shr val 8),
  high_bit (shr val 7),
  high_bit (shr val 14),
  high_bit (shr val 22),
  high_bit (shr val 7 % 128),
  high_bit (shr val 15 % 128),
  high_bit (shr val 8 % 128),
)

got : (a b : ℕ) (rest : List ℕ) → a ≡ b → done a rest ≡ done b rest
got a b rest e = ap (λ (x : ℕ). done x rest) e

two_bytes :
    (a b : ℕ) (rest : List ℕ)
    → a < 128
    → b < 128
    → decode_u29 ((a + 128) ∷ b ∷ rest) ≡ done (a * 128 + b) rest
unfolding decode_u29
two_bytes a b rest ha hb =
    inner_byte 2 0 a (b ∷ rest) ha (omega arith)
    ∙ last_byte 1 (0 * 128 + a) b rest hb (omega arith)
    ∙ got _ (a * 128 + b) rest (omega arith)

three_bytes :
    (a b c : ℕ) (rest : List ℕ)
    → a < 128
    → b < 128
    → c < 128
    → decode_u29 ((a + 128) ∷ (b + 128) ∷ c ∷ rest) ≡ done ((a * 128 + b) * 128 + c) rest
unfolding decode_u29
three_bytes a b c rest ha hb hc =
    inner_byte 2 0 a _ ha (omega arith)
    ∙ inner_byte 1 (0 * 128 + a) b _ hb (omega arith)
    ∙ last_byte 0 ((0 * 128 + a) * 128 + b) c rest hc (omega arith)
    ∙ got _ ((a * 128 + b) * 128 + c) rest (omega arith)

four_bytes :
    (a b c d : ℕ) (rest : List ℕ)
    → a < 128
    → b < 128
    → c < 128
    → d < 256
    → decode_u29 ((a + 128) ∷ (b + 128) ∷ (c + 128) ∷ d ∷ rest)
      ≡ done (((a * 128 + b) * 128 + c) * 256 + d) rest
unfolding decode_u29
four_bytes a b c d rest ha hb hc hd =
    inner_byte 2 0 a _ ha (omega arith)
    ∙ inner_byte 1 (0 * 128 + a) b _ hb (omega arith)
    ∙ inner_byte 0 ((0 * 128 + a) * 128 + b) c _ hc (omega arith)
    ∙ fourth_byte (((0 * 128 + a) * 128 + b) * 128 + c) d rest hd (omega arith)
    ∙ got _ (((a * 128 + b) * 128 + c) * 256 + d) rest (omega arith)

one_byte : (a : ℕ) (rest : List ℕ) → a < 128 → decode_u29 (a ∷ rest) ≡ done a rest
unfolding decode_u29
one_byte a rest h = last_byte 2 0 a rest h (omega arith) ∙ got _ a rest (omega arith)

decode_u29-bytes :
    (val : ℕ) (rest : List ℕ)
    → val ≤ 0x1fffffff
    → decode_u29 (u29_bytes val ++ rest) ≡ done val rest
unfolding u29_bytes
decode_u29-bytes val rest h = elim (Bool-cases (leb val 0x7f)) [
  | inl one ↦ rw one (one_byte val rest (ground arith))
  | inr more ↦ elim (Bool-cases (leb val 0x3fff)) [
    | inl two ↦
        rw (more, two)
          (two_bytes (val / 128) (val % 128) rest (ground arith) (omega arith)
            ∙ got _ val rest (omega arith))
    | inr yet_more ↦ elim (Bool-cases (leb val 0x1fffff)) [
      | inl three ↦
          rw (more, yet_more, three)
            (three_bytes (val / 2 ^ 14) (val / 128 % 128) (val % 128) rest (ground arith)
                (omega arith) (omega arith)
              ∙ got _ val rest (omega arith))
      | inr four ↦
          rw (more, yet_more, four)
            (four_bytes (val / 2 ^ 22) (val / 2 ^ 15 % 128) (val / 2 ^ 8 % 128) (val % 256) rest
                (omega arith) (omega arith) (omega arith) (omega arith)
              ∙ got _ val rest (omega arith))
    ]
  ]
]

-- Every integer of 29 bits is encoded without an error, in at most four bytes, and decoded from them
-- whatever follows.
pub decode_u29-encode_u29 :
    (val : ℕ) (rest : List ℕ)
    → val ≤ 0x1fffffff
    → (bs : List ℕ) × (encode_u29 val ≡ ok bs)
      × (length bs ≤ 4)
      × (decode_u29 (bs ++ rest) ≡ done val rest)
decode_u29-encode_u29 val rest h =
    (u29_bytes val, encode_u29-bytes val h, u29_bytes-short val, decode_u29-bytes val rest h)
