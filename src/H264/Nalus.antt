-- ===== src/H264/Nalus.antt =====
-- What ParseNalus and ParseNalusN of media/h264/parser.go make of units with start codes between them.
use srtmp.Prelude.{
  ℕ, zero, suc, ◌≤◌, ◌<◌, ◌≡◌, ◌≢◌, refl, Bool, true, false, ◌&&◌, not, List, [], ◌∷◌, ◌++◌,
}
use srtmp.Prelude.{Option, none, some, length, Result, ok}
use srtmp.Prelude.{
  append-nil, append_assoc, not_lt→ltb, length-append, if_cases, Bool-cases, inl, inr, ap, sym, ◌∙◌,
  arith,
}
use srtmp.Flv.Config.{start_code4}
use srtmp.H264.{
  is_code3, is_code4, is_one, close_unit, last_unit, split_nalus, parse_nalus_n, parse_nalus,
}

-- No three bytes of the unit in a row are 00 00 01.
abbrev pub has_no_code : List ℕ → Bool
has_no_code (a ∷ b ∷ c ∷ rest) = not (is_code3 a b c) && has_no_code (b ∷ c ∷ rest)
has_no_code _ = true

-- Units with the four-byte start code between them.
unfoldable pub join_nalus : List (List ℕ) → List ℕ
join_nalus [] = []
join_nalus (x ∷ []) = x
join_nalus (x ∷ y ∷ units) = x ++ (start_code4 ++ join_nalus (y ∷ units))

-- At least one unit, each of them without a start code, none empty, and the last of four bytes or more.
unfoldable pub AreUnits : List (List ℕ) → Type 0
AreUnits [] = ⊥
AreUnits (x ∷ []) = (4 ≤ length x) × (has_no_code x ≡ true)
AreUnits (x ∷ y ∷ units) = ((0 < length x) × (has_no_code x ≡ true)) × AreUnits (y ∷ units)

-- The limit leaves room for `k` units.
abbrev pub Allows : Option ℕ → ℕ → Type 0
Allows none k = Unit
Allows (some n) k = k ≤ n

-- One round that finds no start code, and one that finds the long one.
split_nalus-next :
    (cur : List ℕ) (a b c d e : ℕ) (rest : List ℕ) (n : Option ℕ)
    → is_one n ≡ false
    → is_code3 a b c ≡ false
    → is_code4 a b c d ≡ false
    → split_nalus cur (a ∷ b ∷ c ∷ d ∷ e ∷ rest) n
      ≡ split_nalus (cur ++ (a ∷ [])) (b ∷ c ∷ d ∷ e ∷ rest) n
unfolding split_nalus
split_nalus-next cur a b c d e rest n many no3 no4 = simp (many, no3, no4)

split_nalus-code :
    (cur rest : List ℕ) (n : Option ℕ)
    → is_one n ≡ false
    → split_nalus cur (start_code4 ++ rest) n ≡ close_unit cur (split_nalus [] rest) n
unfolding split_nalus
split_nalus-code cur [] n many = simp many
split_nalus-code cur (r ∷ rest) n many = simp many

joined :
    (cur : List ℕ) (a : ℕ) (x rest : List ℕ) (n : Option ℕ)
    → close_unit ((cur ++ (a ∷ [])) ++ x) (split_nalus [] rest) n
      ≡ close_unit (cur ++ (a ∷ x)) (split_nalus [] rest) n
joined cur a x rest n =
    ap (λ (l : List ℕ). close_unit l (split_nalus [] rest) n) (append_assoc cur (a ∷ []) x)

-- The bytes of a unit, up to the start code behind it.
split_nalus-unit :
    (cur x rest : List ℕ) (n : Option ℕ)
    → has_no_code x ≡ true
    → is_one n ≡ false
    → split_nalus cur (x ++ (start_code4 ++ rest)) n ≡ close_unit (cur ++ x) (split_nalus [] rest) n
split_nalus-unit cur [] rest n h many =
    split_nalus-code cur rest n many
    ∙ ap (λ (l : List ℕ). close_unit l (split_nalus [] rest) n) (sym (append-nil cur))
split_nalus-unit cur (a ∷ []) rest n h many =
    split_nalus-next cur a 0 0 0 1 rest n many (ground arith) (ground arith)
    ∙ split_nalus-unit (cur ++ (a ∷ [])) [] rest n refl many
    ∙ joined cur a [] rest n
split_nalus-unit cur (a ∷ b ∷ []) rest n h many =
    split_nalus-next cur a b 0 0 0 (1 ∷ rest) n many (ground arith) (ground arith)
    ∙ split_nalus-unit (cur ++ (a ∷ [])) (b ∷ []) rest n refl many
    ∙ joined cur a (b ∷ []) rest n
split_nalus-unit cur (a ∷ b ∷ c ∷ []) rest n h many =
    split_nalus-next cur a b c 0 0 (0 ∷ 1 ∷ rest) n many (ground arith) (ground arith)
    ∙ split_nalus-unit (cur ++ (a ∷ [])) (b ∷ c ∷ []) rest n refl many
    ∙ joined cur a (b ∷ c ∷ []) rest n
split_nalus-unit cur (a ∷ b ∷ c ∷ d ∷ []) rest n h many =
    split_nalus-next cur a b c d 0 (0 ∷ 0 ∷ 1 ∷ rest) n many (ground arith) (ground arith)
    ∙ split_nalus-unit (cur ++ (a ∷ [])) (b ∷ c ∷ d ∷ []) rest n (ground arith) many
    ∙ joined cur a (b ∷ c ∷ d ∷ []) rest n
split_nalus-unit cur (a ∷ b ∷ c ∷ d ∷ e ∷ x) rest n h many =
    split_nalus-next cur a b c d e (x ++ (start_code4 ++ rest)) n many (ground arith) (ground arith)
    ∙ split_nalus-unit (cur ++ (a ∷ [])) (b ∷ c ∷ d ∷ e ∷ x) rest n (ground arith) many
    ∙ joined cur a (b ∷ c ∷ d ∷ e ∷ x) rest n

split_nalus-last :
    (cur x : List ℕ) (n : Option ℕ)
    → 4 ≤ length x
    → has_no_code x ≡ true
    → split_nalus cur x n ≡ ok (last_unit (cur ++ x))
unfolding split_nalus
split_nalus-last cur [] n k h = absurd (omega arith)
split_nalus-last cur (a ∷ []) n k h = absurd (omega arith)
split_nalus-last cur (a ∷ b ∷ []) n k h = absurd (omega arith)
split_nalus-last cur (a ∷ b ∷ c ∷ []) n k h = absurd (omega arith)
split_nalus-last cur (a ∷ b ∷ c ∷ d ∷ []) n k h =
    let whole = cur ++ (a ∷ b ∷ c ∷ d ∷ []) in
    let no3 : is_code3 a b c ≡ false = ground arith in
    let no4 : is_code4 a b c d ≡ false = ground arith in
    if_cases (λ (r : Result (List (List ℕ))). r ≡ ok (last_unit whole)) (is_one n)
      (ok (last_unit whole)) _ refl (simp (no3, no4))
split_nalus-last cur (a ∷ b ∷ c ∷ d ∷ e ∷ x) n k h = elim (Bool-cases (is_one n)) [
  | inl one ↦ simp one
  | inr many ↦
      split_nalus-next cur a b c d e x n many (ground arith) (ground arith)
      ∙ split_nalus-last (cur ++ (a ∷ [])) (b ∷ c ∷ d ∷ e ∷ x) n (omega arith) (ground arith)
      ∙ ap (λ (l : List ℕ). ok (last_unit l)) (append_assoc cur (a ∷ []) (b ∷ c ∷ d ∷ e ∷ x))
]

-- From a unit's first byte on, every unit is found.
split_nalus-units :
    (units : List (List ℕ)) (n : Option ℕ)
    → AreUnits units
    → Allows n (length units)
    → split_nalus [] (join_nalus units) n ≡ ok units
unfolding AreUnits join_nalus
split_nalus-units [] n h room = absurd h
split_nalus-units ([] ∷ []) n h room = absurd (omega (arith, h.0))
split_nalus-units ((b ∷ x) ∷ []) n h room = split_nalus-last [] (b ∷ x) n h.0 h.1
split_nalus-units ([] ∷ y ∷ units) n h room = absurd (omega (arith, h.0.0))
split_nalus-units ((b ∷ x) ∷ y ∷ units) none h room =
    split_nalus-unit [] (b ∷ x) (join_nalus (y ∷ units)) none h.0.1 refl
    ∙ simp (split_nalus-units (y ∷ units) none h.1 tt)
split_nalus-units ((b ∷ x) ∷ y ∷ units) (some zero) h room = absurd (omega arith)
split_nalus-units ((b ∷ x) ∷ y ∷ units) (some (suc n)) h room =
    split_nalus-unit [] (b ∷ x) (join_nalus (y ∷ units)) (some (suc n)) h.0.1 (ground arith)
    ∙ simp (split_nalus-units (y ∷ units) (some n) h.1 (omega arith))

length-join_nalus : (units : List (List ℕ)) → AreUnits units → 4 ≤ length (join_nalus units)
unfolding AreUnits join_nalus
length-join_nalus [] h = absurd h
length-join_nalus (x ∷ []) h = h.0
length-join_nalus (x ∷ y ∷ units) h =
    omega (arith, length-append x (start_code4 ++ join_nalus (y ∷ units)))

parse_nalus_n-long :
    (src : List ℕ) (n : Option ℕ)
    → 4 ≤ length src
    → n ≢ some 0
    → parse_nalus_n src n ≡ split_nalus [] src n
unfolding parse_nalus_n
parse_nalus_n-long src none k h = simp (not_lt→ltb (length src) 4 k)
parse_nalus_n-long src (some zero) k h = absurd (h refl)
parse_nalus_n-long src (some (suc n)) k h = simp (not_lt→ltb (length src) 4 k)

not_zero :
    (units : List (List ℕ)) (n : Option ℕ) → AreUnits units → Allows n (length units) → n ≢ some 0
unfolding AreUnits
not_zero [] n h room e = absurd h
not_zero (x ∷ units) none h room e = grind arith
not_zero (x ∷ units) (some zero) h room e = absurd (omega arith)
not_zero (x ∷ units) (some (suc n)) h room e = grind arith

-- Units that stand one behind the other with 00 00 00 01 between them are what ParseNalusN finds,
-- where the limit is negative or no less than their number, and what ParseNalus finds with the code in
-- front of the first too. No unit holds 00 00 01 or is empty, and the last has four bytes or more.
pub parse_nalus_n-join_nalus :
    (units : List (List ℕ)) (n : Option ℕ)
    → AreUnits units
    → Allows n (length units)
    → (parse_nalus_n (join_nalus units) n ≡ ok units)
      × (parse_nalus (start_code4 ++ join_nalus units) ≡ ok units)
unfolding parse_nalus
parse_nalus_n-join_nalus units n h room = (
  parse_nalus_n-long (join_nalus units) n (length-join_nalus units h) (not_zero units n h room)
      ∙ split_nalus-units units n h room,
  parse_nalus_n-long (start_code4 ++ join_nalus units) none (omega arith) (grind arith)
      ∙ split_nalus-code [] (join_nalus units) none refl
      ∙ split_nalus-units units none h tt,
)
