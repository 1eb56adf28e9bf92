-- ===== src/Http/Body.antt =====
-- The data of a message beside its content length.
use kitura_http.Prelude.{
  ℕ, ◌+◌, ◌≤◌, ◌≡◌, refl, ◌||◌, List, [], ◌∷◌, true, false, Option, none, some, ltb, ◌==◌, arith,
  Bool-cases, inl, inr,
}
use kitura_http.Http.{Stream}
use kitura_http.Http.Number.{is_some}
use kitura_http.Http.Message.{exceeds, on_data_chunk, on_remote_end_stream}

abbrev next : Option Stream → (Stream → Option Stream) → Option Stream
next none k = none
next (some r) k = k r

-- DATA frames with payloads of these lengths, and then the end of the stream.
abbrev pub receive : Stream → List ℕ → Option Stream
receive s [] = on_remote_end_stream s
receive s (n ∷ ns) = next (on_data_chunk s n) (λ r. receive r ns)

abbrev pub sum : List ℕ → ℕ
sum [] = 0
sum (n ∷ ns) = n + sum ns

-- A stream that waits for the data of its final message, of a known length.
pub record IsOpen (s : Stream) (total : ℕ) : Type 0 where
  pub final : s.flags.expect_final_response ≡ false
  pub declared : s.content_length ≡ some total
  pub within : s.recv_content_length ≤ total

-- `s` after `n` bytes more.
abbrev got : Stream → ℕ → Stream
got s n = record s { recv_content_length = s.recv_content_length + n }

module _ (s : Stream) (total : ℕ) (o : IsOpen s total) where
  end_exact : is_some (on_remote_end_stream s) ≡ (s.recv_content_length == total)
  unfolding on_remote_end_stream
  end_exact = let e = o.declared in let f = o.final in rw (f, e) (ground arith)

  chunk_over : (n : ℕ) → ltb total (s.recv_content_length + n) ≡ true → on_data_chunk s n ≡ none
  unfolding on_data_chunk
  chunk_over n over = let e = o.declared in let f = o.final in rw (f, e, over) refl

  chunk_fits :
      (n : ℕ)
      → ltb total (s.recv_content_length + n) ≡ false
      → (on_data_chunk s n ≡ some (got s n)) × IsOpen (got s n) total
  unfolding on_data_chunk
  chunk_fits n fits =
      let e = o.declared in
      let f = o.final in
      let no_more : (s.flags.expect_final_response
            || exceeds (s.recv_content_length + n) s.content_length)
          ≡ false =
        rw (f, e, fits) refl in
      (rw no_more refl, record { final = f; declared = e; within = ground arith })

-- A message with a content length, of which no more than that has come, is accepted exactly when
-- its DATA frames bring the rest of it to the byte, however they are cut.
pub receive-exact :
    (s : Stream) (total : ℕ) (ns : List ℕ)
    → IsOpen s total
    → is_some (receive s ns) ≡ (s.recv_content_length + sum ns == total)
receive-exact s total [] o = rw (end_exact s total o) (ground arith)
receive-exact s total (n ∷ ns) o = elim (Bool-cases (ltb total (s.recv_content_length + n))) [
  | inl over ↦ rw (chunk_over s total o n over) (ground arith)
  | inr fits ↦
      let (taken, still) = chunk_fits s total o n fits in
      let rest = receive-exact (got s n) total ns still in rw (taken, rest) (ground arith)
]
