-- ===== src/Bytes.antt =====
-- Integers in byte slices: utils/reader.go and utils/writer.go.
-- A signed integer is its bit pattern. An access behind the end of the slice panics.
use srtmp.Prelude.{ℕ, ◌+◌, ◌*◌, ◌/◌, ◌%◌, ◌^◌, ◌-◌, bit_or, List, ◌∷◌, ltb, if◌then◌else◌}
use srtmp.Prelude.{byte, shr, shl16, shl32, Result, ok, panic}
pub mod RoundTrip

abbrev pub shl64 : ℕ → ℕ → ℕ
shl64 x k = x * 2 ^ k % 2 ^ 64

-- One round `i <<= 8; i |= b` at each width.
unfoldable pub push16 : ℕ → ℕ → ℕ
push16 i b = bit_or (shl16 i 8) b

unfoldable pub push32 : ℕ → ℕ → ℕ
push32 i b = bit_or (shl32 i 8) b

unfoldable pub push64 : ℕ → ℕ → ℕ
push64 i b = bit_or (shl64 i 8) b

-- int32(int8(b)) and int64(int8(b)), as patterns of the wider type.
unfoldable pub extend8_32 : ℕ → ℕ
extend8_32 b = if ltb b 128 then b else b + (2 ^ 32 - 256)

unfoldable pub extend8_64 : ℕ → ℕ
extend8_64 b = if ltb b 128 then b else b + (2 ^ 64 - 256)

unfoldable pub u8 : List ℕ → Result ℕ
u8 (a ∷ _) = ok a
u8 _ = panic

unfoldable pub u16_be : List ℕ → Result ℕ
u16_be (a ∷ b ∷ _) = ok (push16 a b)
u16_be _ = panic

unfoldable pub i16_be : List ℕ → Result ℕ
i16_be (a ∷ b ∷ _) = ok (push16 a b)
i16_be _ = panic

unfoldable pub i24_be : List ℕ → Result ℕ
unfolding extend8_32
i24_be (a ∷ b ∷ c ∷ _) = ok (push32 (push32 (extend8_32 a) b) c)
i24_be _ = panic

unfoldable pub u24_be : List ℕ → Result ℕ
u24_be (a ∷ b ∷ c ∷ _) = ok (push32 (push32 a b) c)
u24_be _ = panic

unfoldable pub i32_be : List ℕ → Result ℕ
unfolding extend8_32
i32_be (a ∷ b ∷ c ∷ d ∷ _) = ok (push32 (push32 (push32 (extend8_32 a) b) c) d)
i32_be _ = panic

unfoldable pub u32_le : List ℕ → Result ℕ
u32_le (a ∷ b ∷ c ∷ d ∷ _) = ok (push32 (push32 (push32 d c) b) a)
u32_le _ = panic

unfoldable pub u32_be : List ℕ → Result ℕ
u32_be (a ∷ b ∷ c ∷ d ∷ _) = ok (push32 (push32 (push32 a b) c) d)
u32_be _ = panic

unfoldable pub u40_be : List ℕ → Result ℕ
u40_be (a ∷ b ∷ c ∷ d ∷ e ∷ _) = ok (push64 (push64 (push64 (push64 a b) c) d) e)
u40_be _ = panic

unfoldable pub u64_be : List ℕ → Result ℕ
u64_be (a ∷ b ∷ c ∷ d ∷ e ∷ f ∷ g ∷ h ∷ _) =
    ok (push64 (push64 (push64 (push64 (push64 (push64 (push64 a b) c) d) e) f) g) h)
u64_be _ = panic

unfoldable pub i64_be : List ℕ → Result ℕ
unfolding extend8_64
i64_be (a ∷ b ∷ c ∷ d ∷ e ∷ f ∷ g ∷ h ∷ _) =
    ok (push64 (push64 (push64 (push64 (push64 (push64 (push64 (extend8_64 a) b) c) d) e) f) g) h)
i64_be _ = panic

unfoldable pub put_u8 : List ℕ → ℕ → Result (List ℕ)
put_u8 (_ ∷ bs) v = ok (v ∷ bs)
put_u8 _ v = panic

unfoldable pub put_i16_be : List ℕ → ℕ → Result (List ℕ)
put_i16_be (_ ∷ _ ∷ bs) v = ok (byte (shr v 8) ∷ byte v ∷ bs)
put_i16_be _ v = panic

unfoldable pub put_u16_be : List ℕ → ℕ → Result (List ℕ)
put_u16_be (_ ∷ _ ∷ bs) v = ok (byte (shr v 8) ∷ byte v ∷ bs)
put_u16_be _ v = panic

unfoldable pub put_i24_be : List ℕ → ℕ → Result (List ℕ)
put_i24_be (_ ∷ _ ∷ _ ∷ bs) v = ok (byte (shr v 16) ∷ byte (shr v 8) ∷ byte v ∷ bs)
put_i24_be _ v = panic

unfoldable pub put_u24_be : List ℕ → ℕ → Result (List ℕ)
put_u24_be (_ ∷ _ ∷ _ ∷ bs) v = ok (byte (shr v 16) ∷ byte (shr v 8) ∷ byte v ∷ bs)
put_u24_be _ v = panic

unfoldable pub put_i32_be : List ℕ → ℕ → Result (List ℕ)
put_i32_be (_ ∷ _ ∷ _ ∷ _ ∷ bs) v =
    ok (byte (shr v 24) ∷ byte (shr v 16) ∷ byte (shr v 8) ∷ byte v ∷ bs)
put_i32_be _ v = panic

unfoldable pub put_u32_be : List ℕ → ℕ → Result (List ℕ)
put_u32_be (_ ∷ _ ∷ _ ∷ _ ∷ bs) v =
    ok (byte (shr v 24) ∷ byte (shr v 16) ∷ byte (shr v 8) ∷ byte v ∷ bs)
put_u32_be _ v = panic

unfoldable pub put_u32_le : List ℕ → ℕ → Result (List ℕ)
put_u32_le (_ ∷ _ ∷ _ ∷ _ ∷ bs) v =
    ok (byte v ∷ byte (shr v 8) ∷ byte (shr v 16) ∷ byte (shr v 24) ∷ bs)
put_u32_le _ v = panic

unfoldable pub put_u40_be : List ℕ → ℕ → Result (List ℕ)
put_u40_be (_ ∷ _ ∷ _ ∷ _ ∷ _ ∷ bs) v =
    ok (byte (shr v 32) ∷ byte (shr v 24) ∷ byte (shr v 16) ∷ byte (shr v 8) ∷ byte v ∷ bs)
put_u40_be _ v = panic

unfoldable pub put_u48_be : List ℕ → ℕ → Result (List ℕ)
put_u48_be (_ ∷ _ ∷ _ ∷ _ ∷ _ ∷ _ ∷ bs) v = ok (
    byte (shr v 40)
    ∷ byte (shr v 32)
    ∷ byte (shr v 24)
    ∷ byte (shr v 16)
    ∷ byte (shr v 8)
    ∷ byte v
    ∷ bs)
put_u48_be _ v = panic

unfoldable pub put_u64_be : List ℕ → ℕ → Result (List ℕ)
put_u64_be (_ ∷ _ ∷ _ ∷ _ ∷ _ ∷ _ ∷ _ ∷ _ ∷ bs) v = ok (
    byte (shr v 56)
    ∷ byte (shr v 48)
    ∷ byte (shr v 40)
    ∷ byte (shr v 32)
    ∷ byte (shr v 24)
    ∷ byte (shr v 16)
    ∷ byte (shr v 8)
    ∷ byte v
    ∷ bs)
put_u64_be _ v = panic

unfoldable pub put_i64_be : List ℕ → ℕ → Result (List ℕ)
put_i64_be (_ ∷ _ ∷ _ ∷ _ ∷ _ ∷ _ ∷ _ ∷ _ ∷ bs) v = ok (
    byte (shr v 56)
    ∷ byte (shr v 48)
    ∷ byte (shr v 40)
    ∷ byte (shr v 32)
    ∷ byte (shr v 24)
    ∷ byte (shr v 16)
    ∷ byte (shr v 8)
    ∷ byte v
    ∷ bs)
put_i64_be _ v = panic
