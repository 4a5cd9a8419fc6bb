-- ===== src/Session/Action.antt =====
-- Calls that may fail and change the state of a session, and their sequencing.
use srtmp.Prelude.{Option, none, some, Error, failure, Result, ok, err, panic}

-- A call returns its result and the new state, after an error too.
abbrev pub Action : Type 0 → Type 0 → Type 0
Action S A = S → Result A × S

abbrev pub and_next : {S A B : Type 0} → Result A × S → (A → Action S B) → Result B × S
and_next (ok a, s) f = f a s
and_next (err e, s) f = (err e, s)
and_next (panic, s) f = (panic, s)

infixl 5 ◌>>=◌ ◌>>◌
abbrev pub ◌>>=◌ : {S A B : Type 0} → Action S A → (A → Action S B) → Action S B
◌>>=◌ m f s = and_next (m s) f

abbrev pub ◌>>◌ : {S B : Type 0} → Action S (Unit {0}) → Action S B → Action S B
◌>>◌ m k s = and_next (m s) (λ _. k)

abbrev pub pure : {S A : Type 0} → A → Action S A
pure a s = (ok a, s)

abbrev pub stop : {S A : Type 0} → Error → Action S A
stop e s = (err e, s)

-- A call whose error is dropped; a panic is not.
abbrev pub unchecked : {S : Type 0} → Result (Unit {0}) × S → Result (Unit {0}) × S
unchecked (ok u, s) = (ok tt, s)
unchecked (err e, s) = (ok tt, s)
unchecked (panic, s) = (panic, s)

-- fmt.Errorf makes another error of any error. `none`: the model's fuel ran out.
abbrev pub reworded : {S A : Type 0} → Option (Result A × S) → Option (Result A × S)
reworded none = none
reworded (some (ok a, s)) = some (ok a, s)
reworded (some (err e, s)) = some (err failure, s)
reworded (some (panic, s)) = some (panic, s)
