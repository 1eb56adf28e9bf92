-- ===== src/Buf.antt =====
-- Sources/nghttp2/nghttp2_buf.c and include/nghttp2_buf.h: byte buffers and chains of them.
-- A buffer is seen from its two position indicators: how much room stands before `pos`, the bytes
-- from `pos` to `last`, and how much is left behind `last`. What lies outside [pos, last) is not
-- read before it is written. `mem` says of each allocation to come if the allocator grants it.
pub mod Add
pub mod Valid
pub mod Byte
pub mod Open
pub mod Tests
use kitura_http.Prelude.{
  ℕ, zero, suc, ◌+◌, ◌-◌, ◌*◌, ◌≤◌, ◌<◌, min, max, List, [], ◌∷◌, ◌++◌, Bool, true, false, Option,
  none, some, length, take, drop, ltb, leb, ◌==◌, ◌||◌, if◌then◌else◌,
}
use kitura_http.Result.{
  Error, Result, ok, err, fault, invalid_argument, buffer_error, nomem, ◌>>=◌, require,
}

pub record Buf : Type 0 where
  pub room : ℕ
  pub bytes : List ℕ
  pub avail : ℕ

-- nghttp2_buf_len, nghttp2_buf_cap, nghttp2_buf_pos_offset and nghttp2_buf_last_offset.
abbrev pub buf_len : Buf → ℕ
buf_len b = length b.bytes

abbrev pub buf_cap : Buf → ℕ
buf_cap b = b.room + length b.bytes + b.avail

-- nghttp2_buf_shift_right on an empty buffer: `pos` and `last` move on together.
abbrev pub buf_shift_right : Buf → ℕ → Buf
buf_shift_right b amt = record b { room = b.room + amt; avail = b.avail - amt }

-- nghttp2_buf_reset.
abbrev pub buf_reset : Buf → Buf
buf_reset b = record { room = 0; bytes = []; avail = buf_cap b }

-- nghttp2_buf_reserve: at least twice the old capacity, with the contents kept in place.
unfoldable pub buf_reserve : Buf → ℕ → Bool → Result Buf
buf_reserve b new_cap granted =
    if leb new_cap (buf_cap b)
    then ok b
    else if granted
    then ok (record b { avail = b.avail + (max new_cap (buf_cap b * 2) - buf_cap b) })
    else err nomem

-- nghttp2_buf_init2 on a buffer that is not allocated.
abbrev pub new_buf : ℕ → Buf
new_buf initial = record { room = 0; bytes = []; avail = initial }

-- Bytes written at `last`, which moves behind them; `buf->pos -= n` with `n` bytes written there.
unfoldable pub buf_put : Buf → List ℕ → Result Buf
buf_put b xs =
    require (leb (length xs) b.avail)
      (ok (record b { bytes = b.bytes ++ xs; avail = b.avail - length xs }))

unfoldable pub buf_put_left : Buf → List ℕ → Result Buf
buf_put_left b xs =
    require (leb (length xs) b.room)
      (ok (record b { room = b.room - length xs; bytes = xs ++ b.bytes }))

-- nghttp2_bufs: the chunks from `head` up to `cur`, `cur`, and the chunks behind it.
pub record Bufs : Type 0 where
  pub before : List Buf
  pub cur : Buf
  pub after : List Buf
  pub chunk_length : ℕ
  pub chunk_used : ℕ
  pub max_chunk : ℕ
  pub chunk_keep : ℕ
  pub offset : ℕ
  pub mem : List Bool

abbrev first_chunk : ℕ → ℕ → ℕ → ℕ → List Bool → Result Bufs
first_chunk chunk_length max_chunk chunk_keep offset [] = err nomem
first_chunk chunk_length max_chunk chunk_keep offset (false ∷ m) = err nomem
first_chunk chunk_length max_chunk chunk_keep offset (true ∷ m) = ok (record {
  before = [];
  cur = buf_shift_right (new_buf chunk_length) offset;
  after = [];
  chunk_length = chunk_length;
  chunk_used = 1;
  max_chunk = max_chunk;
  chunk_keep = chunk_keep;
  offset = offset;
  mem = m;
})

-- nghttp2_bufs_init3; an allocation that the list does not speak of is refused.
unfoldable pub bufs_init3 : ℕ → ℕ → ℕ → ℕ → List Bool → Result Bufs
bufs_init3 chunk_length max_chunk chunk_keep offset mem =
    if chunk_keep == 0 || ltb max_chunk chunk_keep || ltb chunk_length offset
    then err invalid_argument
    else first_chunk chunk_length max_chunk chunk_keep offset mem

-- The bytes of a chain in order, which nghttp2_bufs_remove copies out, and their number,
-- nghttp2_bufs_len.
abbrev pub chain_bytes : List Buf → List ℕ
chain_bytes [] = []
chain_bytes (b ∷ bs) = b.bytes ++ chain_bytes bs

abbrev pub chain_len : List Buf → ℕ
chain_len [] = 0
chain_len (b ∷ bs) = buf_len b + chain_len bs

unfoldable pub bufs_bytes : Bufs → List ℕ
bufs_bytes s = chain_bytes s.before ++ (s.cur.bytes ++ chain_bytes s.after)

unfoldable pub bufs_len : Bufs → ℕ
bufs_len s = chain_len s.before + (buf_len s.cur + chain_len s.after)

-- A call that writes to the chain hands it back whether it succeeds or not.
pub data Status : Type 0 where
  done : Status
  failed : Error → Status
  -- a byte was written behind the end of a buffer
  overrun : Status
  out_of_fuel : Status

abbrev grow : Bufs → List Bool → Bufs × Status
grow s [] = (s, failed nomem)
grow s (false ∷ m) = (record s { mem = m }, failed nomem)
grow s (true ∷ m) = (
  record s {
    before = s.before ++ s.cur ∷ [];
    cur = buf_shift_right (new_buf s.chunk_length) s.offset;
    chunk_used = s.chunk_used + 1;
    mem = m;
  },
  done,
)

abbrev advance : Bufs → List Buf → Bufs × Status
advance s (b ∷ bs) = (record s { before = s.before ++ s.cur ∷ []; cur = b; after = bs }, done)
advance s [] = if s.max_chunk == s.chunk_used then (s, failed buffer_error) else grow s s.mem

-- bufs_alloc_chain, which is also nghttp2_bufs_advance.
unfoldable pub bufs_alloc_chain : Bufs → Bufs × Status
bufs_alloc_chain s = advance s s.after

-- `if (rv != 0) return rv;` with the rest of the function as `k`.
abbrev pub resume : (Bufs → Bufs × Status) → Bufs × Status → Bufs × Status
resume k (s, done) = k s
resume k (s, failed e) = (s, failed e)
resume k (s, overrun) = (s, overrun)
resume k (s, out_of_fuel) = (s, out_of_fuel)

abbrev pub copy_in : Bufs → List ℕ → ℕ → Bufs
copy_in s p nwrite = record s {
  cur = record s.cur { bytes = s.cur.bytes ++ take nwrite p; avail = s.cur.avail - nwrite };
}

-- The loop of nghttp2_bufs_add; each round writes a byte or enters another chunk.
unfoldable pub bufs_add_loop : ℕ → Bufs → List ℕ → Bufs × Status
bufs_add_loop fuel s [] = (s, done)
bufs_add_loop zero s (x ∷ p) = (s, out_of_fuel)
bufs_add_loop (suc fuel) s (x ∷ p) =
    let nwrite = min s.cur.avail (length (x ∷ p)) in
    elim (nwrite == 0) [
      | true ↦ resume (λ s'. bufs_add_loop fuel s' (x ∷ p)) (bufs_alloc_chain s)
      | false ↦ bufs_add_loop fuel (copy_in s (x ∷ p) nwrite) (drop nwrite (x ∷ p))
    ]

-- nghttp2_bufs_add.
unfoldable pub bufs_add : Bufs → List ℕ → Bufs × Status
unfolding bufs_add_loop bufs_alloc_chain
bufs_add s p = bufs_add_loop (length p + (s.max_chunk - s.chunk_used) + length s.after + 1) s p

-- `*bufs->cur.buf.last++ = b`.
unfoldable pub put_byte : Bufs → ℕ → Bufs × Status
put_byte s b =
    if ltb 0 s.cur.avail
    then (
      record s { cur = record s.cur { bytes = s.cur.bytes ++ b ∷ []; avail = s.cur.avail - 1 } },
      done,
    )
    else (s, overrun)

unfoldable pub bufs_ensure_addb : Bufs → Bufs × Status
unfolding bufs_alloc_chain
bufs_ensure_addb s = if ltb 0 s.cur.avail then (s, done) else bufs_alloc_chain s

unfoldable pub bufs_addb : Bufs → ℕ → Bufs × Status
unfolding bufs_ensure_addb put_byte
bufs_addb s b = resume (λ s'. put_byte s' b) (bufs_ensure_addb s)

-- nghttp2_bufs_reset: the first `chunk_keep` chunks are emptied, the others are freed.
abbrev reset_chain : ℕ → ℕ → List Buf → List Buf
reset_chain offset zero bs = []
reset_chain offset (suc k) [] = []
reset_chain offset (suc k) (b ∷ bs) = buf_shift_right (buf_reset b) offset ∷ reset_chain offset k bs

abbrev reset_to : Bufs → List Buf → Bufs
reset_to s [] = s
reset_to s (b ∷ bs) = record s {
  before = [];
  cur = b;
  after = bs;
  chunk_used =
      if leb s.chunk_keep (length s.before + 1 + length s.after)
      then s.chunk_keep
      else s.chunk_used;
}

unfoldable pub bufs_reset : Bufs → Bufs
bufs_reset s = reset_to s (reset_chain s.offset s.chunk_keep (s.before ++ (s.cur ∷ s.after)))
