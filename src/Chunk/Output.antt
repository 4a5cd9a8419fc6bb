-- ===== src/Chunk/Output.antt =====
-- Writing a message, in protocol/core/chunk_stream.go, takes nothing from the input.
use srtmp.Prelude.{ℕ, zero, suc, ◌+◌, ◌*◌, ◌/◌, ◌^◌, ◌≡◌, refl, List}
use srtmp.Prelude.{Result, ok, err, panic, arith, uint32, add32}
use srtmp.Prelude.{◌==◌, ◌∙◌, Bool-cases, inl, inr}
use srtmp.Wire.{ReadWriter, Io, buf_write, write, write_uint_be, write_uint_be_loop, write_uint_le}
use srtmp.Wire.{write_uint_le_loop, note_write_error, then_io}
use srtmp.Chunk.Stream.{ChunkStream}
use srtmp.Chunk.Writer.{write_basic_header, write_extended, write_header, write_body, write_round}
use srtmp.Chunk.Writer.{
  after_round, set_format, write_chunk_loop, write_chunk, chunk_inc, assign_csid,
}

buf_write-input : (p : List ℕ) (s : ReadWriter) → (buf_write p s).1.input ≡ s.input
unfolding buf_write
buf_write-input p s = ground arith

write-input : (p : List ℕ) (s : ReadWriter) → (write p s).1.input ≡ s.input
unfolding write
write-input p s = ground (arith, buf_write-input p s)

noted-input :
    (r : Result (Unit {0}) × ReadWriter) (k : Io (Unit {0})) (i : List ℕ)
    → r.1.input ≡ i
    → ((s : ReadWriter) → (k s).1.input ≡ s.input)
    → (then_io (note_write_error r) k).1.input ≡ i
unfolding note_write_error
noted-input (ok u, s) k i e h = h s ∙ e
noted-input (err x, s) k i e h = e
noted-input (panic, s) k i e h = e

write_uint_be_loop-input : (n v : ℕ) (s : ReadWriter) → (write_uint_be_loop n v s).1.input ≡ s.input
unfolding write_uint_be_loop
write_uint_be_loop-input zero v s = refl
write_uint_be_loop-input (suc n) v s =
    noted-input _ (write_uint_be_loop n v) s.input (buf_write-input _ s)
      (λ t. write_uint_be_loop-input n v t)

write_uint_le_loop-input : (n v : ℕ) (s : ReadWriter) → (write_uint_le_loop n v s).1.input ≡ s.input
unfolding write_uint_le_loop
write_uint_le_loop-input zero v s = refl
write_uint_le_loop-input (suc n) v s =
    noted-input _ (write_uint_le_loop n (v / 2 ^ 8)) s.input (buf_write-input _ s)
      (λ t. write_uint_le_loop-input n (v / 2 ^ 8) t)

write_uint_be-input : (v n : ℕ) (s : ReadWriter) → (write_uint_be v n s).1.input ≡ s.input
unfolding write_uint_be
write_uint_be-input v n s = ground (arith, write_uint_be_loop-input n v s)

write_uint_le-input : (v n : ℕ) (s : ReadWriter) → (write_uint_le v n s).1.input ≡ s.input
unfolding write_uint_le
write_uint_le-input v n s = ground (arith, write_uint_le_loop-input n v s)

write_basic_header-input :
    (cs : ChunkStream) (s : ReadWriter) → (write_basic_header cs s).input ≡ s.input
unfolding write_basic_header
write_basic_header-input cs s = grind (arith, write_uint_be-input, write_uint_le-input)

write_extended-input :
    (ts : ℕ) (cs : ChunkStream) (s : ReadWriter) → (write_extended ts cs s).1.input ≡ s.input
unfolding write_extended
write_extended-input ts cs s = ground (arith, write_uint_be-input cs.timestamp 4 s)

write_header-input : (cs : ChunkStream) (s : ReadWriter) → (write_header cs s).1.input ≡ s.input
unfolding write_header
write_header-input cs s = grind (
  arith, write_basic_header-input, write_extended-input, write_uint_be-input, write_uint_le-input,
)

write_body-input :
    (start inc : ℕ) (cs : ChunkStream) (s : ReadWriter)
    → (write_body start inc cs s).1.input ≡ s.input
unfolding write_body
write_body-input start inc cs s = grind (arith, write-input)

then-input :
    (r : Result (Unit {0}) × ReadWriter) (k : Io (Unit {0})) (i : List ℕ)
    → r.1.input ≡ i
    → ((s : ReadWriter) → (k s).1.input ≡ s.input)
    → (then_io r k).1.input ≡ i
then-input (ok u, s) k i e h = h s ∙ e
then-input (err x, s) k i e h = e
then-input (panic, s) k i e h = e

write_round-input :
    (n i : ℕ) (cs : ChunkStream) (s : ReadWriter) → (write_round n i cs s).1.input ≡ s.input
unfolding write_round
write_round-input n i cs s =
    then-input (write_header cs s) _ s.input (write_header-input cs s)
      (λ t. write_body-input _ _ cs t)

after_round-input :
    (r : Result (Unit {0}) × ReadWriter) (cs : ChunkStream)
    (k : ReadWriter → Result (Unit {0}) × ChunkStream × ReadWriter) (i : List ℕ)
    → r.1.input ≡ i
    → ((s : ReadWriter) → (k s).2.input ≡ s.input)
    → (after_round r cs k).2.input ≡ i
after_round-input (ok u, s) cs k i e h = h s ∙ e
after_round-input (err x, s) cs k i e h = e
after_round-input (panic, s) cs k i e h = e

write_chunk_loop-input :
    (r n i total : ℕ) (cs : ChunkStream) (s : ReadWriter)
    → (write_chunk_loop r n i total cs s).2.input ≡ s.input
unfolding write_chunk_loop
write_chunk_loop-input zero n i total cs s = refl
write_chunk_loop-input (suc r) n i total cs s = elim (Bool-cases (total == cs.message_length)) [
  | inl done ↦ rw done
  | inr more ↦
      let cs' = set_format i cs in
      let total' = add32 total (chunk_inc n (uint32 (i * n)) cs') in
      rw more (
        after_round-input (write_round n i cs' s) cs' (write_chunk_loop r n (i + 1) total' cs')
          s.input (write_round-input n i cs' s)
          (λ t. write_chunk_loop-input r n (i + 1) total' cs' t))
]

pub write_chunk-input :
    (cs : ChunkStream) (n : ℕ) (s : ReadWriter) → (write_chunk cs n s).2.input ≡ s.input
unfolding write_chunk
write_chunk-input cs n s = ground (
  arith,
  write_chunk_loop-input ((assign_csid cs).message_length / n + 1) n 0 0 (assign_csid cs) s,
)
