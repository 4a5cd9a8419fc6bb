-- ===== src/Tests/Handshake.antt =====
-- Runs of protocol/core/handshake.go.
use srtmp.Prelude.{ℕ, ◌≡◌, ◌≤◌, ◌+◌, [], ◌∷◌, List, length, replicate, length-replicate, ok, some}
use srtmp.Handshake.{hs_create01, hs_find_digest}
use srtmp.Handshake.Digest.{hs_find_digest-hs_create01}

-- A digest that is always 0.
zero_digest : List ℕ → List ℕ → List ℕ
zero_digest key message = replicate 32 0

zero_digest-length : (key message : List ℕ) → length (zero_digest key message) ≡ 32
unfolding zero_digest
zero_digest-length key message = length-replicate {A = ℕ} 32 0

hs_find_digest-hs_create01_example :
    (p1 : List ℕ) × (g : ℕ) × (hs_create01 zero_digest (replicate 1528 1) 5 6 (1 ∷ [])
      ≡ ok (3 ∷ p1))
    × (length p1 ≡ 1536)
    × (hs_find_digest zero_digest p1 (1 ∷ []) 8 ≡ ok (some g))
    × (12 ≤ g)
    × (g + 32 ≤ length p1)
hs_find_digest-hs_create01_example =
    hs_find_digest-hs_create01 zero_digest (replicate 1528 1) (1 ∷ []) 5 6 zero_digest-length
      (length-replicate {A = ℕ} 1528 1)
