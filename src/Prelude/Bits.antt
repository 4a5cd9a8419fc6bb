-- ===== src/Prelude/Bits.antt =====
-- Machine words as native numbers, and bit fields at every width: `|` of disjoint fields is a sum,
-- `&` with a mask of low bits is a remainder.
use Prim.Native.Nat.{ℕ, zero, suc, ◌+◌, ◌-◌, ◌*◌, ◌/◌, ◌%◌, ◌^◌, ◌≤◌, ◌<◌, min, max}
use Prim.Native.Nat.{bit_and, bit_or, digits, bit_and-bitwise, bit_or-bitwise}
use mathlib.Core.Path.{◌≡◌, refl, ap, ◌∙◌}
use native.Mathlib.Nat.{pow-suc, one-le-pow}
use native.Mathlib.Omega.{arith}

-- Conversions to, and shifts of, Go's unsigned integers.
abbrev pub byte : ℕ → ℕ
byte x = x % 256

abbrev pub uint16 : ℕ → ℕ
uint16 x = x % 2 ^ 16

abbrev pub uint32 : ℕ → ℕ
uint32 x = x % 2 ^ 32

abbrev pub shr : ℕ → ℕ → ℕ
shr x k = x / 2 ^ k

abbrev pub shl8 : ℕ → ℕ → ℕ
shl8 x k = x * 2 ^ k % 256

abbrev pub shl16 : ℕ → ℕ → ℕ
shl16 x k = x * 2 ^ k % 2 ^ 16

abbrev pub shl32 : ℕ → ℕ → ℕ
shl32 x k = x * 2 ^ k % 2 ^ 32

abbrev pub add32 : ℕ → ℕ → ℕ
add32 a b = (a + b) % 2 ^ 32

abbrev pub sub32 : ℕ → ℕ → ℕ
sub32 a b = (a + 2 ^ 32 - b) % 2 ^ 32

abbrev pub IsByte : ℕ → Type 0
IsByte b = b < 256

abbrev or_digits : ℕ → ℕ → ℕ → ℕ
or_digits n a b = digits (λ y. y) max n a b

abbrev and_digits : ℕ → ℕ → ℕ → ℕ
and_digits n a b = digits (λ _. zero) min n a b

two-pow-suc : (k : ℕ) → 2 ^ suc k ≡ 2 * 2 ^ k
two-pow-suc k = omega (arith, pow-suc 2 k)

times-pow-suc : (q k : ℕ) → q * 2 ^ suc k ≡ 2 * (q * 2 ^ k)
times-pow-suc q k = omega (arith, ap (λ (t : ℕ). q * t) (pow-suc 2 k))

-- One induction on the fuel of the digit recursion, for every split `k` at once.
or_digits_fields : (n k q r a : ℕ) → a ≡ q * 2 ^ k → a ≤ n → r < 2 ^ k → or_digits n a r ≡ a + r
or_digits_fields zero k q r zero e h f = omega arith
or_digits_fields zero k q r (suc a) e h f = absurd (omega arith)
or_digits_fields (suc n) k q r zero e h f = omega arith
or_digits_fields (suc n) zero q r (suc a) e h f = omega (
  arith,
  or_digits_fields n 0 (suc a / 2) (r / 2) (suc a / 2) (omega arith) (omega arith) (omega arith),
)
or_digits_fields (suc n) (suc k) q r (suc a) e h f = omega (
  arith,
  times-pow-suc q k,
  or_digits_fields n k q (r / 2) (suc a / 2) (omega (arith, times-pow-suc q k)) (omega arith)
      (omega (arith, pow-suc 2 k)),
)

-- `(q << k) | r` is a sum where `r` fits `k` bits.
pub bit_or_fields : (k q r : ℕ) → r < 2 ^ k → bit_or (q * 2 ^ k) r ≡ q * 2 ^ k + r
bit_or_fields k q r h =
    bit_or-bitwise (q * 2 ^ k) r
    ∙ or_digits_fields (q * 2 ^ k) k q r (q * 2 ^ k) refl (omega arith) h

mod_double : (a p : ℕ) → 0 < p → a % (2 * p) ≡ a / 2 % p * 2 + a % 2
mod_double a p h = grind arith

and_digits_mask : (n k a m : ℕ) → a ≤ n → m ≡ 2 ^ k - 1 → and_digits n a m ≡ a % 2 ^ k
and_digits_mask zero k zero m h e = omega (arith, one-le-pow k 2)
and_digits_mask zero k (suc a) m h e = absurd (omega arith)
and_digits_mask (suc n) k zero m h e = omega (arith, one-le-pow k 2)
and_digits_mask (suc n) zero (suc a) m h e =
    omega (arith, and_digits_mask n 0 (suc a / 2) (m / 2) (omega arith) (omega arith))
and_digits_mask (suc n) (suc k) (suc a) m h e = rw (two-pow-suc k) (
    omega (
      arith,
      one-le-pow k 2,
      two-pow-suc k,
      mod_double (suc a) (2 ^ k) (omega (arith, one-le-pow k 2)),
      and_digits_mask n k (suc a / 2) (m / 2) (omega arith)
          (omega (arith, one-le-pow k 2, two-pow-suc k)),
    ))

-- A mask of `k` low bits is the remainder by `2 ^ k`.
pub bit_and_mask : (k a : ℕ) → bit_and a (2 ^ k - 1) ≡ a % 2 ^ k
bit_and_mask k a = bit_and-bitwise a (2 ^ k - 1) ∙ and_digits_mask a k a _ (omega arith) refl
