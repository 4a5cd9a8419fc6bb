-- ===== src/Prelude/Outcome.antt =====
-- What a Go call does: it returns, it returns an error, or it panics at run time.

-- The errors that callers can tell apart: the reader's two, the connection's, and a message of the
-- program's own.
pub data Error : Type 0 where
  eof unexpected_eof : Error
  broken_pipe : Error
  failure : Error

pub data Result {ℓ} (A : Type ℓ) : Type ℓ where
  ok : A → Result A
  err : Error → Result A
  panic : Result A

abbrev pub bind {ℓ κ} : {A : Type ℓ} {B : Type κ} → Result A → (A → Result B) → Result B
bind (ok a) f = f a
bind (err e) f = err e
bind panic f = panic
