-- ===== src/Queue.antt =====
-- The packet queue of utils/queue.go. The mutex makes each operation one step. `max_size` is not
-- negative.
use srtmp.Prelude.{ℕ, ◌≡◌, refl, List, [], ◌∷◌, ◌++◌, length, length-append, take}
use srtmp.Prelude.{
  take-append_exact, Option, none, some, ◌==◌, if◌then◌else◌, Result, ok, panic, bind, arith,
  get_elem?, ◌-◌,
}

pub record Queue {ℓ} (A : Type ℓ) : Type ℓ where
  pub max_size : ℕ
  pub list : List A

module _ {ℓ} {A : Type ℓ} where
  unfoldable pub new_queue : ℕ → Queue A
  new_queue max_size = record { max_size = max_size; list = [] }

  -- q.list[x] and q.list[:x]
  abbrev take_at : ℕ → Option A → Queue A → Result (A × Queue A)
  take_at x (some msg) q = ok (msg, record q { list = take x q.list })
  take_at x none q = panic

  -- pop takes the last element. On an empty list it indexes -1 and panics.
  unfoldable pub pop_last : Queue A → Result (A × Queue A)
  pop_last q = let x = length q.list - 1 in take_at x (get_elem? q.list x) q

  unfoldable pub push : A → Queue A → Result (Queue A)
  push msg q =
      bind (if length q.list == q.max_size then bind (pop_last q) (λ r. ok r.1) else ok q)
        λ p. ok (record p { list = p.list ++ (msg ∷ []) })

  unfoldable pub pop : Queue A → Result (Option A × Queue A)
  pop q = if length q.list == 0 then ok (none, q) else bind (pop_last q) (λ r. ok (some r.0, r.1))

  unfoldable pub len : Queue A → ℕ
  len q = length q.list

  unfoldable pub all : Queue A → List A × Queue A
  all q = (q.list, record q { list = [] })

  get_elem?-append : (xs : List A) (x : A) → get_elem? (xs ++ (x ∷ [])) (length xs) ≡ some x
  get_elem?-append [] x = refl
  get_elem?-append (y ∷ ys) x = get_elem?-append ys x

  pop_last-append :
      (q : Queue A) (x : A) → pop_last (record q { list = q.list ++ (x ∷ []) }) ≡ ok (x, q)
  unfolding pop_last
  pop_last-append q x =
      let n : length (q.list ++ (x ∷ [])) - 1 ≡ length q.list =
        omega (arith, length-append q.list (x ∷ [])) in
      simp (n, get_elem?-append q.list x, take-append_exact q.list (x ∷ []) (length q.list) refl)

  -- In a full queue the message that came last gives way to the new one, and the older ones stay: the
  -- length does not grow.
  push-full :
      (x y : A) (q : Queue A)
      → length (q.list ++ (y ∷ [])) ≡ q.max_size
      → push x (record q { list = q.list ++ (y ∷ []) })
        ≡ ok (record q { list = q.list ++ (x ∷ []) })
  unfolding push
  push-full x y q h = ground (arith, pop_last-append q y)
