-- ===== src/Session/Number.antt =====
-- Go's conversions between int and float64, on the 64 bits of either. protocol/core takes command
-- numbers apart with them, and protocol/amf encodes an int as a float64.
use srtmp.Prelude.{ℕ, zero, suc, ◌+◌, ◌-◌, ◌*◌, ◌/◌, ◌%◌, ◌^◌, ◌≤◌, ◌<◌, ◌≡◌, refl, ltb, ◌==◌}
use srtmp.Prelude.{if◌then◌else◌, arith, true, false, lt→ltb, Bool-cases, inl, inr}

-- int(f): the fraction is cut off. An exponent of 63 or more, infinities and NaN included, gives the
-- smallest int, as the conversion on amd64 does.
unfoldable pub to_int : ℕ → ℕ
to_int bits =
    let exponent = bits / 2 ^ 52 % 2048 in
    let size = (2 ^ 52 + bits % 2 ^ 52) * 2 ^ (exponent - 1023) / 2 ^ 52 in
    if ltb exponent 1023
    then 0
    else if ltb 1085 exponent
    then 2 ^ 63
    else if bits / 2 ^ 63 == 0
    then size
    else (2 ^ 64 - size) % 2 ^ 64

-- The significand `m` of m * 2 ^ (exponent - 1075) is brought to 53 bits. Where `m` has more, what
-- is cut off is 0, since every such number of the program was a float64 before.
unfoldable pub scaled : ℕ → ℕ → ℕ → ℕ
scaled zero m exponent = 0
scaled (suc fuel) m exponent =
    let up = scaled fuel (m * 2) (exponent - 1) in
    let down = scaled fuel (m / 2) (exponent + 1) in
    if ltb m (2 ^ 52) then up else if ltb m (2 ^ 53) then exponent * 2 ^ 52 + (m - 2 ^ 52) else down

-- float64(n) of the int with these bits. 64 rounds are enough: the significand has 64 bits.
unfoldable pub of_int : ℕ → ℕ
of_int n =
    if n == 0
    then 0
    else if ltb n (2 ^ 63)
    then scaled 64 n 1075
    else 2 ^ 63 + scaled 64 (2 ^ 64 - n) 1075

one_bits : of_int 1 ≡ 4607182418800017408
unfolding of_int scaled
one_bits = refl

minus_bits : to_int (of_int (2 ^ 64 - 5)) ≡ 2 ^ 64 - 5
unfolding of_int to_int scaled
minus_bits = refl

doubled : (m k n : ℕ) → m * 2 ^ suc k ≡ n → m * 2 * 2 ^ k ≡ n
doubled m k n h = grind arith

-- The float64 with this exponent and this significand.
packed-to_int :
    (m k n : ℕ)
    → 2 ^ 52 ≤ m
    → m < 2 ^ 53
    → k ≤ 52
    → m * 2 ^ k ≡ n * 2 ^ 52
    → to_int ((k + 1023) * 2 ^ 52 + (m - 2 ^ 52)) ≡ n
unfolding to_int
packed-to_int m k n low high small h =
    let bits = (k + 1023) * 2 ^ 52 + (m - 2 ^ 52) in
    let e : bits / 2 ^ 52 % 2048 ≡ k + 1023 = omega arith in
    let f : 2 ^ 52 + bits % 2 ^ 52 ≡ m = omega arith in
    let g : (bits / 2 ^ 63 == 0) ≡ true = ground arith in
    let back : k + 1023 - 1023 ≡ k = omega arith in
    let a : ltb (k + 1023) 1023 ≡ false = ground arith in
    let b : ltb 1085 (k + 1023) ≡ false = ground arith in simp (e, f, g, back, a, b) (omega arith)

scaled-to_int :
    (fuel m k n : ℕ)
    → 0 < m
    → m < 2 ^ 53
    → k ≤ 52
    → m * 2 ^ k ≡ n * 2 ^ 52
    → 2 ^ 53 ≤ m * 2 ^ fuel
    → (to_int (scaled fuel m (k + 1023)) ≡ n) × (scaled fuel m (k + 1023) < 2 ^ 63)
unfolding scaled
scaled-to_int zero m k n pos high small h enough = absurd (omega arith)
scaled-to_int (suc fuel) m zero n pos high small h enough = elim (Bool-cases (ltb m (2 ^ 52))) [
  | inl low ↦ absurd (ground arith)
  | inr full ↦
      simp (full, lt→ltb m (2 ^ 53) high)
        (packed-to_int m zero n (ground arith) high small h, omega arith)
]
scaled-to_int (suc fuel) m (suc k) n pos high small h enough = elim (Bool-cases (ltb m (2 ^ 52))) [
  | inl low ↦
      let ih =
        scaled-to_int fuel (m * 2) k n (omega arith) (ground arith) (omega arith)
          (doubled m k (n * 2 ^ 52) h) (omega (arith, doubled m fuel (m * 2 ^ suc fuel) refl)) in
      let e : suc k + 1023 - 1 ≡ k + 1023 = omega arith in simp (low, e) ih
  | inr full ↦
      simp (full, lt→ltb m (2 ^ 53) high)
        (packed-to_int m (suc k) n (ground arith) high small h, omega arith)
]

-- A positive int below 2 ^ 53 is kept by both conversions.
kept : (n : ℕ) → 0 < n → n < 2 ^ 53 → (to_int (of_int n) ≡ n) × (of_int n < 2 ^ 63)
unfolding of_int
kept n pos small =
    let z : (n == 0) ≡ false = ground arith in
    let l : ltb n (2 ^ 63) ≡ true = ground arith in
    simp (z, l) (scaled-to_int 64 n 52 n pos small (omega arith) refl (omega arith))

pub to_int-of_int : (n : ℕ) → n < 2 ^ 53 → to_int (of_int n) ≡ n
unfolding of_int to_int
to_int-of_int zero small = refl
to_int-of_int (suc n) small = (kept (suc n) (omega arith) small).0

pub of_int-lt : (n : ℕ) → n < 2 ^ 53 → of_int n < 2 ^ 64
unfolding of_int
of_int-lt zero small = omega arith
of_int-lt (suc n) small = omega (arith, (kept (suc n) (omega arith) small).1)
