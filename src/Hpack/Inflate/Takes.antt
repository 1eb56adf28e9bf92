-- ===== src/Hpack/Inflate/Takes.antt =====
-- The decoder on the representations that an encoder writes.
use kitura_http.Prelude.{
  ℕ, suc, ◌+◌, ◌-◌, ◌*◌, ◌≤◌, ◌<◌, ◌≡◌, ◌⊎◌, refl, sym, ap, ◌∙◌, inl, inr, List, [], ◌∷◌, ◌++◌,
  Bool, true, false, ltb, ◌==◌, length, drop, arith, Bool-cases, if◌then◌else◌, test_bit,
}
use kitura_http.Result.{ok}
use kitura_http.Hpack.Integer.{encode_length}
use kitura_http.Hpack.Integer.RoundTrip.{decode_length-encode_length}
use kitura_http.Hpack.Inflater.{Inflater, InflateState, inflate_start, opcode, read_index, indexed}
use kitura_http.Hpack.Inflate.{HdNv, get_max_index, table_get, read_len}
use kitura_http.Hpack.Inflate.Step.{
  next, emit, from_scratch, is_size_update, start_step, index_step, inflate_step,
}
use kitura_http.Hpack.Inflate.Run.{Inflated, emitted, inflate_loop, inflate_hd_nv, after_step}

drop-length_append : (xs ys : List ℕ) → drop (length xs) (xs ++ ys) ≡ ys
drop-length_append [] ys = refl
drop-length_append (x ∷ xs) ys = drop-length_append xs ys

-- An encoded integer is read whole.
pub read_len-encode_length :
    (f : Inflater) (first n prefix maxlen : ℕ) (rest : List ℕ)
    → 0 < prefix
    → n ≤ maxlen
    → n < 4294967296
    → (s : ℕ) × (read_len (from_scratch f) (encode_length first n prefix ++ rest) prefix maxlen
        ≡ ok (record f { left = n; shift = s }, true, rest))
unfolding read_len
read_len-encode_length f first n prefix maxlen rest pos le fits =
    let (s, e) = decode_length-encode_length first n prefix rest pos fits in
    let within : ltb maxlen n ≡ false = ground arith in
    (s, rw (e, read_len, within, drop-length_append (encode_length first n prefix) rest) refl)

-- The first byte of an indexed field.
indexed_byte :
    (n : ℕ)
    → (b : ℕ) × (bs : List ℕ) × (encode_length 0x80 n 7 ≡ b ∷ bs)
      × (is_size_update b ≡ false)
      × (test_bit b 0x80 ≡ true)
unfolding encode_length
indexed_byte n = elim (Bool-cases (ltb n 127)) [
  | inl short ↦ rw short (_, _, refl, ground arith, ground arith)
  | inr long ↦ rw long (_, _, refl, refl, refl)
]

abbrev reading_index : Inflater → Inflater
reading_index f = record f { opcode = indexed; state = read_index }

-- The second round of an indexed field.
index_round :
    (f : Inflater) (i : ℕ) (nv : HdNv) (rest : List ℕ)
    → i < get_max_index f.ctx
    → i + 1 < 4294967296
    → table_get f.ctx i ≡ ok nv
    → (s : ℕ) × (index_step (from_scratch (reading_index f)) (encode_length 0x80 (i + 1) 7 ++ rest)
        ≡ ok (
            emit
              (record f { left = i + 1; shift = s; index = i; opcode = indexed; state = opcode })
              nv
              rest))
unfolding index_step
index_round f i nv rest lt fits e =
    let (s, read) =
      read_len-encode_length (reading_index f) 0x80 (i + 1) 7 (get_max_index f.ctx) rest
        (omega arith) (omega arith) fits in
    let some_index : (i + 1 == 0) ≡ false = ground arith in
    let back : i + 1 - 1 ≡ i = omega arith in (s, rw (read, some_index, back, e) refl)

-- The states in which a field starts, and the first round of an indexed field.
abbrev pub Starts : InflateState → Type 0
Starts st = (st ≡ inflate_start) ⊎ (st ≡ opcode)

start_round :
    (f : Inflater) (b : ℕ) (xs : List ℕ)
    → Starts f.state
    → is_size_update b ≡ false
    → test_bit b 0x80 ≡ true
    → inflate_step f f.state (b ∷ xs) ≡ ok (next (from_scratch (reading_index f)) false (b ∷ xs))
unfolding inflate_step start_step
start_round f b xs (inl st) size top = ap (λ t. inflate_step f t (b ∷ xs)) st ∙ rw (size, top) refl
start_round f b xs (inr st) size top = ap (λ t. inflate_step f t (b ∷ xs)) st ∙ rw (size, top) refl

two_rounds :
    (n : ℕ) (f g h : Inflater) (b : ℕ) (xs rest : List ℕ) (nv : HdNv) (in_final : Bool)
    → inflate_step f f.state (b ∷ xs) ≡ ok (next g false (b ∷ xs))
    → inflate_step g g.state (b ∷ xs) ≡ ok (emit h nv rest)
    → inflate_loop (n + 2) f false (b ∷ xs) in_final ≡ emitted h nv rest
unfolding inflate_loop
two_rounds n f g h b xs rest nv in_final one two =
    let more : n + 2 ≡ suc (suc n) = omega arith in
    ap (λ k. inflate_loop k f false (b ∷ xs) in_final) more
    ∙ ap (after_step f in_final (λ g again rest. inflate_loop (suc n) g again rest in_final)) one
    ∙ ap (after_step g in_final (λ g again rest. inflate_loop n g again rest in_final)) two

good : (b : Bool) (x y : Inflated) → b ≡ false → (if b then x else y) ≡ y
good true x y h = cc
good false x y h = refl

-- Between fields, an inflater that reads the index of an entry (RFC 7541, 6.1), encoded as the
-- encoder does it, emits the entry, whatever follows, and is between fields again with its table
-- as it was.
pub inflate_hd_nv-indexed :
    (f : Inflater) (i : ℕ) (nv : HdNv) (rest : List ℕ) (in_final : Bool)
    → f.bad ≡ false
    → Starts f.state
    → i < get_max_index f.ctx
    → i + 1 < 4294967296
    → table_get f.ctx i ≡ ok nv
    → (s : ℕ) × (inflate_hd_nv f (encode_length 0x80 (i + 1) 7 ++ rest) in_final
        ≡ emitted
            (record f { left = i + 1; shift = s; index = i; opcode = indexed; state = opcode })
            nv
            rest)
unfolding inflate_hd_nv inflate_step
inflate_hd_nv-indexed f i nv rest in_final fine st lt fits e =
    let (b, bs, bytes, size, top) = indexed_byte (i + 1) in
    let (s, second) = index_round f i nv rest lt fits e in
    let whole : encode_length 0x80 (i + 1) 7 ++ rest ≡ b ∷ (bs ++ rest) =
      ap (λ l. l ++ rest) bytes in
    (
      s,
      ap (λ l. inflate_hd_nv f l in_final) whole
          ∙ good f.bad _ _ fine
          ∙ (two_rounds (length (b ∷ (bs ++ rest)) * 2) f (from_scratch (reading_index f)) _ b
              (bs ++ rest) rest nv in_final (start_round f b (bs ++ rest) st size top)
              (ap (index_step (from_scratch (reading_index f))) (sym whole) ∙ second)),
    )
