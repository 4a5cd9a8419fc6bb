-- ===== src/Pool.antt =====
-- The byte pool of utils/pool.go. `buffer` numbers the pool's buffers: a slice is known by its
-- buffer, its start and its length.
use srtmp.Prelude.{
  ℕ, ◌+◌, ◌-◌, ◌≤◌, ◌<◌, ◌≡◌, refl, leb, ltb, le→leb, Bool-cases, if◌then◌else◌, Result, ok, panic,
  arith, suc, ◌⊎◌, inl, inr, ◌≢◌,
}

pub record Pool : Type 0 where
  pub pos : ℕ
  pub buffer : ℕ

pub record Slice : Type 0 where
  pub of : ℕ
  pub start : ℕ
  pub size : ℕ

abbrev pub max_pool_size : ℕ
max_pool_size = 51200

unfoldable pub new_pool : Pool
new_pool = record { pos = 0; buffer = 0 }

abbrev slice : Pool → ℕ → Result (Slice × Pool)
slice pool size =
    if leb (pool.pos + size) max_pool_size
    then ok (
      record { of = pool.buffer; start = pool.pos; size = size },
      record { pos = pool.pos + size; buffer = pool.buffer },
    )
    else panic

-- A size above the buffer's panics.
unfoldable pub get : ℕ → Pool → Result (Slice × Pool)
get size pool =
    slice
      (if ltb (max_pool_size - pool.pos) size
        then record { pos = 0; buffer = suc pool.buffer }
        else pool)
      size

-- The slice lies in the pool's buffer, below the position.
abbrev pub Taken : Slice → Pool → Type 0
Taken s pool = (s.of < pool.buffer) ⊎ ((s.of ≡ pool.buffer) × (s.start + s.size ≤ pool.pos))

-- From a pool whose position is in its buffer, Get gives out a slice of the wanted size, up to the
-- whole buffer, that shares no byte with any slice given out before, and every slice given out
-- before still counts as such.
pub get-disjoint :
    (n : ℕ) (pool : Pool) (old : Slice)
    → n ≤ max_pool_size
    → pool.pos ≤ max_pool_size
    → Taken old pool
    → (s : Slice) × (p : Pool) × (get n pool ≡ ok (s, p))
      × (s.size ≡ n)
      × (s.start + s.size ≤ max_pool_size)
      × (p.pos ≤ max_pool_size)
      × ((old.of ≢ s.of) ⊎ (old.start + old.size ≤ s.start))
      × Taken s p
      × Taken old p
unfolding get
get-disjoint n pool old h g t = elim (Bool-cases (ltb (max_pool_size - pool.pos) n)) [
  | inl new ↦ (
    record { of = suc pool.buffer; start = 0; size = n },
    record { pos = 0 + n; buffer = suc pool.buffer },
    simp (new, le→leb (0 + n) max_pool_size (omega arith)),
    refl,
    omega arith,
    omega arith,
    inl (ground arith),
    inr (refl, omega arith),
    inl (ground arith),
  )
  | inr room ↦
      let fits : pool.pos + n ≤ max_pool_size = ground arith in
      (
        record { of = pool.buffer; start = pool.pos; size = n },
        record { pos = pool.pos + n; buffer = pool.buffer },
        simp (room, le→leb (pool.pos + n) max_pool_size fits),
        refl,
        fits,
        fits,
        elim t [ inl before ↦ inl (ground arith) | inr (same, below) ↦ inr below ],
        inr (refl, omega arith),
        ground arith,
      )
]
