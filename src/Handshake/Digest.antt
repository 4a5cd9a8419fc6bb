-- ===== src/Handshake/Digest.antt =====
-- The digest of protocol/core/handshake.go is found where it was put.
use srtmp.Prelude.{
  ℕ, zero, suc, ◌+◌, ◌%◌, ◌-◌, ◌≡◌, ◌≤◌, ◌<◌, refl, ap, sym, subst, ◌∙◌, List, [], ◌∷◌, ◌++◌,
  append_assoc, length, length-append, length-take, length-drop, take, drop, take-append_exact,
  drop-append_exact, get_elem?, some, ok, arith, ◌==◌, true, false, leb, le→leb, ne→==,
}
use srtmp.Prelude.{byte, shr}
use srtmp.Bytes.{put_u32_be}
use srtmp.Amf.{same}
use srtmp.Chunk.Reader.{overwrite}
use srtmp.Handshake.{hs_calc_digest_pos, hs_make_digest, hs_find_digest, hs_create01}

same_refl : (xs : List ℕ) → same xs xs ≡ true
unfolding same
same_refl [] = refl
same_refl (x ∷ xs) = ground (arith, same_refl xs)

get_elem?-some : (p : List ℕ) (i : ℕ) → i < length p → (b : ℕ) × (get_elem? p i ≡ some b)
get_elem?-some [] i h = absurd (omega arith)
get_elem?-some (x ∷ xs) zero h = (x, refl)
get_elem?-some (x ∷ xs) (suc i) h = get_elem?-some xs i (omega arith)

get_elem?-take :
    (p q : List ℕ) (g i : ℕ) → i < g → g ≤ length p → get_elem? (take g p ++ q) i ≡ get_elem? p i
get_elem?-take p q zero i h l = absurd (omega arith)
get_elem?-take [] q (suc g) i h l = absurd (omega arith)
get_elem?-take (x ∷ xs) q (suc g) zero h l = refl
get_elem?-take (x ∷ xs) q (suc g) (suc i) h l = get_elem?-take xs q g i (omega arith) (omega arith)

-- The position of the digest from a base, in a buffer that has the four bytes there.
digest_pos :
    (p : List ℕ) (base : ℕ)
    → base + 4 ≤ length p
    → (g : ℕ) × (hs_calc_digest_pos p base ≡ ok g) × (base + 4 ≤ g) × (g < base + 732)
unfolding hs_calc_digest_pos
digest_pos p base h =
    let (a, ea) = get_elem?-some p base (omega arith) in
    let (b, eb) = get_elem?-some p (base + 1) (omega arith) in
    let (c, ec) = get_elem?-some p (base + 2) (omega arith) in
    let (d, ed) = get_elem?-some p (base + 3) (omega arith) in
    ((a + b + c + d) % 728 + base + 4, simp (ea, eb, ec, ed), omega arith, omega arith)

-- The four bytes are the same where only what is behind them is overwritten.
digest_pos-overwrite :
    (p d : List ℕ) (base g : ℕ)
    → base + 4 ≤ g
    → g ≤ length p
    → hs_calc_digest_pos (overwrite p g d) base ≡ hs_calc_digest_pos p base
unfolding hs_calc_digest_pos
digest_pos-overwrite p d base g h l =
    let rest = d ++ drop (g + length d) p in
    simp (
      get_elem?-take p rest g base (omega arith) l,
      get_elem?-take p rest g (base + 1) (omega arith) l,
      get_elem?-take p rest g (base + 2) (omega arith) l,
      get_elem?-take p rest g (base + 3) (omega arith) l,
    )

take-overwrite : (p d : List ℕ) (g : ℕ) → g ≤ length p → take g (overwrite p g d) ≡ take g p
take-overwrite p d g h =
    take-append_exact (take g p) (d ++ drop (g + length d) p) g (omega (arith, length-take g p))

drop-overwrite :
    (p d : List ℕ) (g : ℕ) → g ≤ length p → drop g (overwrite p g d) ≡ d ++ drop (g + length d) p
drop-overwrite p d g h =
    drop-append_exact (take g p) (d ++ drop (g + length d) p) g (omega (arith, length-take g p))

drop-overwrite_behind :
    (p d : List ℕ) (g : ℕ)
    → g ≤ length p
    → drop (g + length d) (overwrite p g d) ≡ drop (g + length d) p
drop-overwrite_behind p d g h =
    ap (drop (g + length d)) (sym (append_assoc (take g p) d (drop (g + length d) p)))
    ∙ drop-append_exact (take g p ++ d) (drop (g + length d) p) (g + length d)
        (omega (arith, length-append (take g p) d, length-take g p))

length-overwrite :
    (p d : List ℕ) (g : ℕ) → g + length d ≤ length p → length (overwrite p g d) ≡ length p
length-overwrite p d g h = omega (
  arith,
  length-append (take g p) (d ++ drop (g + length d) p),
  length-append d (drop (g + length d) p),
  length-take g p,
  length-drop (g + length d) p,
)

-- Where the digest's own 32 bytes are left out, the digest does not depend on them.
make_digest-overwrite :
    (hmac : List ℕ → List ℕ → List ℕ) (key p d : List ℕ) (g : ℕ)
    → length d ≡ 32
    → 0 < g
    → g + 32 ≤ length p
    → (hs_make_digest hmac key p g ≡ ok (hmac key (take g p ++ drop (g + 32) p)))
      × (hs_make_digest hmac key (overwrite p g d) g ≡ ok (hmac key (take g p ++ drop (g + 32) p)))
unfolding hs_make_digest
make_digest-overwrite hmac key p d g e pos h =
    let some_gap : (g == 0) ≡ false = ne→== g 0 (omega arith) in
    let behind : drop (g + 32) (overwrite p g d) ≡ drop (g + 32) p =
      subst (λ (k : ℕ). drop (g + k) (overwrite p g d) ≡ drop (g + k) p) e
        (drop-overwrite_behind p d g (omega arith)) in
    (
      simp (some_gap, le→leb (g + 32) (length p) h),
      simp (
        some_gap,
        length-overwrite p d g (omega arith),
        le→leb (g + 32) (length p) h,
        take-overwrite p d g (omega arith),
        behind,
      ),
    )

-- A digest that was made of the rest of a buffer, and put where the buffer says, is found there.
find_digest-overwrite :
    (hmac : List ℕ → List ℕ → List ℕ) (key p d : List ℕ) (g : ℕ)
    → hs_calc_digest_pos p 8 ≡ ok g
    → hs_make_digest hmac key p g ≡ ok d
    → length d ≡ 32
    → 12 ≤ g
    → g + 32 ≤ length p
    → hs_find_digest hmac (overwrite p g d) key 8 ≡ ok (some g)
unfolding hs_find_digest
find_digest-overwrite hmac key p d g at made e low high =
    let digests = make_digest-overwrite hmac key p d g e (omega arith) high in
    let again : hs_make_digest hmac key (overwrite p g d) g ≡ ok d =
      digests.1 ∙ sym digests.0 ∙ made in
    let size : leb (g + 32) (length (overwrite p g d)) ≡ true =
      le→leb _ _ (omega (arith, length-overwrite p d g (omega arith))) in
    let width : g + 32 - g ≡ 32 = omega arith in
    simp (
      digest_pos-overwrite p d 8 g low (omega arith),
      at,
      again,
      size,
      width,
      drop-overwrite p d g (omega arith),
      take-append_exact d (drop (g + length d) p) 32 e,
      same_refl d,
    )

-- Where every digest has 32 bytes, as SHA-256 makes it, and the random bytes fill the rest of the
-- packet, hsCreate01 makes a packet of 1 and 1536 bytes, whose digest hsFindDigest finds with the same
-- key, at a place behind the four bytes that tell it and within the packet. Whatever the random bytes,
-- the time and the version are.
pub hs_find_digest-hs_create01 :
    (hmac : List ℕ → List ℕ → List ℕ) (random key : List ℕ) (time ver : ℕ)
    → ((k m : List ℕ) → length (hmac k m) ≡ 32)
    → length random ≡ 1528
    → (p1 : List ℕ) × (g : ℕ) × (hs_create01 hmac random time ver key ≡ ok (3 ∷ p1))
      × (length p1 ≡ 1536)
      × (hs_find_digest hmac p1 key 8 ≡ ok (some g))
      × (12 ≤ g)
      × (g + 32 ≤ length p1)
unfolding hs_create01 put_u32_be
hs_find_digest-hs_create01 hmac random key time ver size l =
    let p : List ℕ =
      byte (shr time 24)
      ∷ byte (shr time 16)
      ∷ byte (shr time 8)
      ∷ byte time
      ∷ byte (shr ver 24)
      ∷ byte (shr ver 16)
      ∷ byte (shr ver 8)
      ∷ byte ver
      ∷ random in
    let (g, at, low, high) = digest_pos p 8 (omega arith) in
    let d = hmac key (take g p ++ drop (g + 32) p) in
    let made = (make_digest-overwrite hmac key p d g (size _ _) (omega arith) (omega arith)).0 in
    let whole = length-overwrite p d g (omega (arith, size key (take g p ++ drop (g + 32) p))) in
    (
      overwrite p g d,
      g,
      simp (at, made),
      omega (arith, whole),
      find_digest-overwrite hmac key p d g at made (size _ _) low (omega arith),
      low,
      omega (arith, whole),
    )
