-- ===== src/Wire/Monad.antt =====
-- The state of a connection's reader and writer, and the sequencing of calls on it.
use srtmp.Prelude.{ℕ, Bool, List, Option, Error, Result, ok, err, panic}

pub record ReadWriter : Type 0 where
  pub input : List ℕ
  pub read_error : Option Error
  pub output : List ℕ
  pub flushed : ℕ
  pub limit : Option ℕ
  pub failed : Bool
  pub write_error : Option Error

-- A call returns its result and the new state, after an error too.
abbrev pub Io : Type 0 → Type 0
Io A = ReadWriter → Result A × ReadWriter

abbrev pub bind_io : {A B : Type 0} → Result A × ReadWriter → (A → Io B) → Result B × ReadWriter
bind_io (ok a, s) f = f a s
bind_io (err e, s) f = (err e, s)
bind_io (panic, s) f = (panic, s)

abbrev pub then_io : {B : Type 0} → Result (Unit {0}) × ReadWriter → Io B → Result B × ReadWriter
then_io r k = bind_io r (λ _. k)
