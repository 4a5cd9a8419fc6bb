-- ===== src/Bytes/RoundTrip.antt =====
-- What utils/writer.go puts, utils/reader.go reads back.
use srtmp.Prelude.{ℕ, ◌+◌, ◌*◌, ◌/◌, ◌%◌, ◌^◌, ◌≤◌, ◌<◌, ◌≡◌, List, [], ◌∷◌}
use srtmp.Prelude.{length, IsByte, ok, bind, bit_or_fields, arith}
use srtmp.Bytes.{push16, push32, push64, u16_be, u24_be, u32_be, u32_le, u40_be, u64_be}
use srtmp.Bytes.{put_u16_be, put_u24_be, put_u32_be, put_u32_le, put_u40_be, put_u64_be}

pub push16_lem : (i b : ℕ) → i < 2 ^ 8 → b < 256 → push16 i b ≡ i * 256 + b
unfolding push16
push16_lem i b hi hb = ground (arith, bit_or_fields 8 i b)

pub push32_lem : (i b : ℕ) → i < 2 ^ 24 → b < 256 → push32 i b ≡ i * 256 + b
unfolding push32
push32_lem i b hi hb = ground (arith, bit_or_fields 8 i b)

pub push64_lem : (i b : ℕ) → i < 2 ^ 56 → b < 256 → push64 i b ≡ i * 256 + b
unfolding push64
push64_lem i b hi hb = ground (arith, bit_or_fields 8 i b)

pub u16_be_lem :
    (a b : ℕ) (bs : List ℕ) → IsByte a → IsByte b → u16_be (a ∷ b ∷ bs) ≡ ok (a * 256 + b)
unfolding u16_be
u16_be_lem a b bs ha hb = ground (arith, push16_lem a b)

pub u24_be_lem :
    (a b c : ℕ) (bs : List ℕ)
    → IsByte a
    → IsByte b
    → IsByte c
    → u24_be (a ∷ b ∷ c ∷ bs) ≡ ok ((a * 256 + b) * 256 + c)
unfolding u24_be
u24_be_lem a b c bs ha hb hc = ground (arith, push32_lem a b, push32_lem (a * 256 + b) c)

pub u32_be_lem :
    (a b c d : ℕ) (bs : List ℕ)
    → IsByte a
    → IsByte b
    → IsByte c
    → IsByte d
    → u32_be (a ∷ b ∷ c ∷ d ∷ bs) ≡ ok (((a * 256 + b) * 256 + c) * 256 + d)
unfolding u32_be
u32_be_lem a b c d bs ha hb hc hd =
    ground
      (arith, push32_lem a b, push32_lem (a * 256 + b) c, push32_lem ((a * 256 + b) * 256 + c) d)

pub u32_le_lem :
    (a b c d : ℕ) (bs : List ℕ)
    → IsByte a
    → IsByte b
    → IsByte c
    → IsByte d
    → u32_le (a ∷ b ∷ c ∷ d ∷ bs) ≡ ok (((d * 256 + c) * 256 + b) * 256 + a)
unfolding u32_le
u32_le_lem a b c d bs ha hb hc hd =
    ground
      (arith, push32_lem d c, push32_lem (d * 256 + c) b, push32_lem ((d * 256 + c) * 256 + b) a)

pub u40_be_lem :
    (a b c d e : ℕ) (bs : List ℕ)
    → IsByte a
    → IsByte b
    → IsByte c
    → IsByte d
    → IsByte e
    → u40_be (a ∷ b ∷ c ∷ d ∷ e ∷ bs) ≡ ok ((((a * 256 + b) * 256 + c) * 256 + d) * 256 + e)
unfolding u40_be
u40_be_lem a b c d e bs ha hb hc hd he = ground (
  arith,
  push64_lem a b,
  push64_lem (a * 256 + b) c,
  push64_lem ((a * 256 + b) * 256 + c) d,
  push64_lem (((a * 256 + b) * 256 + c) * 256 + d) e,
)

pub u64_be_lem :
    (a b c d e f g h : ℕ) (bs : List ℕ)
    → IsByte a
    → IsByte b
    → IsByte c
    → IsByte d
    → IsByte e
    → IsByte f
    → IsByte g
    → IsByte h
    → u64_be (a ∷ b ∷ c ∷ d ∷ e ∷ f ∷ g ∷ h ∷ bs)
      ≡ ok (((((((a * 256 + b) * 256 + c) * 256 + d) * 256 + e) * 256 + f) * 256 + g) * 256 + h)
unfolding u64_be
u64_be_lem a b c d e f g h bs ha hb hc hd he hf hg hh = ground (
  arith,
  push64_lem a b,
  push64_lem (a * 256 + b) c,
  push64_lem ((a * 256 + b) * 256 + c) d,
  push64_lem (((a * 256 + b) * 256 + c) * 256 + d) e,
  push64_lem ((((a * 256 + b) * 256 + c) * 256 + d) * 256 + e) f,
  push64_lem (((((a * 256 + b) * 256 + c) * 256 + d) * 256 + e) * 256 + f) g,
  push64_lem ((((((a * 256 + b) * 256 + c) * 256 + d) * 256 + e) * 256 + f) * 256 + g) h,
)

u16_be-put : (v : ℕ) (bs : List ℕ) → 2 ≤ length bs → bind (put_u16_be bs v) u16_be ≡ ok (v % 2 ^ 16)
unfolding put_u16_be
u16_be-put v [] k = absurd (omega arith)
u16_be-put v (_ ∷ []) k = absurd (omega arith)
u16_be-put v (_ ∷ _ ∷ bs) k = ground (arith, u16_be_lem (v / 2 ^ 8 % 256) (v % 256) bs)

u24_be-put : (v : ℕ) (bs : List ℕ) → 3 ≤ length bs → bind (put_u24_be bs v) u24_be ≡ ok (v % 2 ^ 24)
unfolding put_u24_be
u24_be-put v [] k = absurd (omega arith)
u24_be-put v (_ ∷ []) k = absurd (omega arith)
u24_be-put v (_ ∷ _ ∷ []) k = absurd (omega arith)
u24_be-put v (_ ∷ _ ∷ _ ∷ bs) k =
    ground (arith, u24_be_lem (v / 2 ^ 16 % 256) (v / 2 ^ 8 % 256) (v % 256) bs)

u32_be-put : (v : ℕ) (bs : List ℕ) → 4 ≤ length bs → bind (put_u32_be bs v) u32_be ≡ ok (v % 2 ^ 32)
unfolding put_u32_be
u32_be-put v [] k = absurd (omega arith)
u32_be-put v (_ ∷ []) k = absurd (omega arith)
u32_be-put v (_ ∷ _ ∷ []) k = absurd (omega arith)
u32_be-put v (_ ∷ _ ∷ _ ∷ []) k = absurd (omega arith)
u32_be-put v (_ ∷ _ ∷ _ ∷ _ ∷ bs) k =
    ground (arith, u32_be_lem (v / 2 ^ 24 % 256) (v / 2 ^ 16 % 256) (v / 2 ^ 8 % 256) (v % 256) bs)

u32_le-put : (v : ℕ) (bs : List ℕ) → 4 ≤ length bs → bind (put_u32_le bs v) u32_le ≡ ok (v % 2 ^ 32)
unfolding put_u32_le
u32_le-put v [] k = absurd (omega arith)
u32_le-put v (_ ∷ []) k = absurd (omega arith)
u32_le-put v (_ ∷ _ ∷ []) k = absurd (omega arith)
u32_le-put v (_ ∷ _ ∷ _ ∷ []) k = absurd (omega arith)
u32_le-put v (_ ∷ _ ∷ _ ∷ _ ∷ bs) k =
    ground (arith, u32_le_lem (v % 256) (v / 2 ^ 8 % 256) (v / 2 ^ 16 % 256) (v / 2 ^ 24 % 256) bs)

u40_be-put : (v : ℕ) (bs : List ℕ) → 5 ≤ length bs → bind (put_u40_be bs v) u40_be ≡ ok (v % 2 ^ 40)
unfolding put_u40_be
u40_be-put v [] k = absurd (omega arith)
u40_be-put v (_ ∷ []) k = absurd (omega arith)
u40_be-put v (_ ∷ _ ∷ []) k = absurd (omega arith)
u40_be-put v (_ ∷ _ ∷ _ ∷ []) k = absurd (omega arith)
u40_be-put v (_ ∷ _ ∷ _ ∷ _ ∷ []) k = absurd (omega arith)
u40_be-put v (_ ∷ _ ∷ _ ∷ _ ∷ _ ∷ bs) k = ground (
  arith,
  u40_be_lem (v / 2 ^ 32 % 256) (v / 2 ^ 24 % 256) (v / 2 ^ 16 % 256) (v / 2 ^ 8 % 256) (v % 256)
      bs,
)

u64_be-put : (v : ℕ) (bs : List ℕ) → 8 ≤ length bs → bind (put_u64_be bs v) u64_be ≡ ok (v % 2 ^ 64)
unfolding put_u64_be
u64_be-put v [] k = absurd (omega arith)
u64_be-put v (_ ∷ []) k = absurd (omega arith)
u64_be-put v (_ ∷ _ ∷ []) k = absurd (omega arith)
u64_be-put v (_ ∷ _ ∷ _ ∷ []) k = absurd (omega arith)
u64_be-put v (_ ∷ _ ∷ _ ∷ _ ∷ []) k = absurd (omega arith)
u64_be-put v (_ ∷ _ ∷ _ ∷ _ ∷ _ ∷ []) k = absurd (omega arith)
u64_be-put v (_ ∷ _ ∷ _ ∷ _ ∷ _ ∷ _ ∷ []) k = absurd (omega arith)
u64_be-put v (_ ∷ _ ∷ _ ∷ _ ∷ _ ∷ _ ∷ _ ∷ []) k = absurd (omega arith)
u64_be-put v (_ ∷ _ ∷ _ ∷ _ ∷ _ ∷ _ ∷ _ ∷ _ ∷ bs) k = ground (
  arith,
  u64_be_lem (v / 2 ^ 56 % 256) (v / 2 ^ 48 % 256) (v / 2 ^ 40 % 256) (v / 2 ^ 32 % 256)
      (v / 2 ^ 24 % 256) (v / 2 ^ 16 % 256) (v / 2 ^ 8 % 256) (v % 256) bs,
)

-- For each of the widths below, reading a slice just after an integer was put into it
-- gives the integer modulo 2 to its width, whatever the slice held, if it has eight bytes or more.
pub read-put :
    (v : ℕ) (bs : List ℕ)
    → 8 ≤ length bs
    → (bind (put_u16_be bs v) u16_be ≡ ok (v % 2 ^ 16))
      × (bind (put_u24_be bs v) u24_be ≡ ok (v % 2 ^ 24))
      × (bind (put_u32_be bs v) u32_be ≡ ok (v % 2 ^ 32))
      × (bind (put_u32_le bs v) u32_le ≡ ok (v % 2 ^ 32))
      × (bind (put_u40_be bs v) u40_be ≡ ok (v % 2 ^ 40))
      × (bind (put_u64_be bs v) u64_be ≡ ok (v % 2 ^ 64))
read-put v bs h = (
  u16_be-put v bs (omega arith),
  u24_be-put v bs (omega arith),
  u32_be-put v bs (omega arith),
  u32_le-put v bs (omega arith),
  u40_be-put v bs (omega arith),
  u64_be-put v bs (omega arith),
)
