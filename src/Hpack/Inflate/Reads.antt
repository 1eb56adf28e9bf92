-- ===== src/Hpack/Inflate/Reads.antt =====
-- Reading integers and strings: what is left of the input, and of the room in a buffer.
use kitura_http.Prelude.{
  ℕ, zero, suc, ◌+◌, ◌-◌, ◌*◌, ◌%◌, ◌^◌, ◌≤◌, ◌<◌, ◌≡◌, ◌⊎◌, inl, inr, refl, List, [], ◌∷◌, ◌++◌,
  Bool, some, ltb, leb, ◌&&◌, not, min, take, drop, length, length-take, length-drop, All, IsByte,
  Bool-cases, Option-cases, arith,
}
use kitura_http.Result.{Result, ok, err, header_comp}
use kitura_http.Buf.{Buf}
use kitura_http.Buf.Add.{buf_put-ok}
use kitura_http.Hpack.Integer.{Decoded, decode_length, decode_loop}
use kitura_http.Hpack.Inflater.{Inflater}
use kitura_http.Hpack.Inflate.{read_len, read_huff, read_plain}
use kitura_http.Hpack.Inflate.Valid.{HuffRoom, PlainRoom}
use kitura_http.Hpack.Huffman.{HuffDecodeContext, huff_decode}
use kitura_http.Hpack.Huffman.Decode.{loop_outcome}
use kitura_http.Hpack.Huffman.Outcome.{room_left}

pub All-take : (n : ℕ) (xs : List ℕ) → All IsByte xs → All IsByte (take n xs)
All-take zero xs h = tt
All-take (suc n) [] h = tt
All-take (suc n) (x ∷ xs) h = (h.0, All-take n xs h.1)

pub All-drop : (n : ℕ) (xs : List ℕ) → All IsByte xs → All IsByte (drop n xs)
All-drop zero xs h = h
All-drop (suc n) [] h = tt
All-drop (suc n) (x ∷ xs) h = All-drop n xs h.1

-- The number of bytes that an integer took, of which there is one at least.
decode_loop_used :
    (xs : List ℕ) (n shift used : ℕ) (d : Decoded)
    → decode_loop xs n shift used ≡ some d
    → min 1 (length xs) + used ≤ d.consumed
unfolding decode_loop
decode_loop_used [] n shift used d h = ground arith
decode_loop_used (x ∷ xs) n shift used d h =
    ground (arith, decode_loop_used xs (n + x % 128 * 2 ^ shift) (shift + 7) (used + 1) d)

decode_length_used :
    (initial shift b : ℕ) (bs : List ℕ) (prefix : ℕ) (d : Decoded)
    → decode_length initial shift (b ∷ bs) prefix ≡ some d
    → 0 < d.consumed
unfolding decode_length
decode_length_used initial shift b [] prefix d h =
    ground (arith, decode_loop_used (b ∷ []) initial shift 0 d)
decode_length_used initial shift b (c ∷ cs) prefix d h = ground (
  arith,
  decode_loop_used (b ∷ c ∷ cs) initial shift 0 d,
  decode_loop_used (c ∷ cs) (2 ^ prefix - 1) shift 1 d,
)

-- An integer at `b`, read up to `maxlen`.
abbrev pub LenRead : Inflater → ℕ → List ℕ → ℕ → Result (Inflater × Bool × List ℕ) → Type 0
LenRead f b bs maxlen r =
    (r ≡ err header_comp)
    ⊎ ((l : ℕ) × (s : ℕ) × (fin : Bool) × (rest : List ℕ) × (r
          ≡ ok (record f { left = l; shift = s }, fin, rest))
        × (l ≤ maxlen)
        × All IsByte rest
        × (length rest ≤ length bs))

pub read_len-LenRead :
    (f : Inflater) (b : ℕ) (bs : List ℕ) (prefix maxlen : ℕ)
    → All IsByte (b ∷ bs)
    → LenRead f b bs maxlen (read_len f (b ∷ bs) prefix maxlen)
unfolding read_len
read_len-LenRead f b bs prefix maxlen h =
    elim (Option-cases (decode_length f.left f.shift (b ∷ bs) prefix)) [
      | inl bad ↦ rw (bad, read_len) (inl refl)
      | inr (d, e) ↦ elim (Bool-cases (ltb maxlen d.res)) [
        | inl large ↦ rw (e, read_len, large) (inl refl)
        | inr fits ↦
            let rest = drop d.consumed (b ∷ bs) in
            let used = decode_length_used f.left f.shift b bs prefix d e in
            rw (e, read_len, fits)
              (inr (
                d.res,
                d.shift,
                d.fin,
                rest,
                refl,
                ground arith,
                All-drop d.consumed (b ∷ bs) h,
                omega (arith, length-drop d.consumed (b ∷ bs)),
              ))
      ]
    ]

-- Half of a string read with the Huffman code.
pub read_huff-ends :
    (f : Inflater) (b : Buf) (input : List ℕ)
    → HuffRoom f b
    → All IsByte input
    → (read_huff f b input ≡ err header_comp)
      ⊎ ((c : HuffDecodeContext) × (l : ℕ) × (b' : Buf) × (read_huff f b input
            ≡ ok (record f { huff_decode_ctx = c; left = l }, b', drop f.left input))
          × HuffRoom (record f { huff_decode_ctx = c; left = l }) b')
unfolding read_huff huff_decode
read_huff-ends f b input (room, node) h =
    let src = take f.left input in
    let len = length-take f.left input in
    elim (loop_outcome src f.huff_decode_ctx b node.state_in node.final (All-take f.left input h)
      (omega arith)) [
        | inr (e, bad) ↦ rw e (inl refl)
        | inl (ctx, b', e, r) ↦ elim (Bool-cases (leb f.left (length input) && not ctx.accept)) [
          | inl bad ↦ rw (e, bad) (inl refl)
          | inr fine ↦
              rw (e, fine)
                (inr (
                  ctx,
                  f.left - length src,
                  b',
                  refl,
                  (omega (arith, room_left r), record { state_in = r.state_in; final = r.final }),
                ))
        ]
      ]

pub read_plain-ends :
    (f : Inflater) (b : Buf) (input : List ℕ)
    → PlainRoom f b
    → (b' : Buf) × (read_plain f b input
        ≡ ok (
          record f { left = f.left - min (length input) f.left },
          b',
          drop (min (length input) f.left) input,
        ))
      × (f.left - min (length input) f.left + 1 ≤ b'.avail)
unfolding read_plain
read_plain-ends f b input room =
    let len = min (length input) f.left in
    let part = length-take len input in
    (
      record b { bytes = b.bytes ++ take len input; avail = b.avail - length (take len input) },
      rw (buf_put-ok b (take len input) (omega arith)) refl,
      omega arith,
    )
