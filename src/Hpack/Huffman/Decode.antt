-- ===== src/Hpack/Huffman/Decode.antt =====
-- nghttp2_hd_huff_decode, half a byte after the other.
use kitura_http.Prelude.{
  ℕ, suc, ◌+◌, ◌*◌, ◌/◌, ◌%◌, ◌≤◌, ◌<◌, List, [], ◌∷◌, ◌++◌, Bool, true, ◌≡◌, ◌⊎◌, inl, inr, refl,
  sym, All, IsByte, length, Bool-cases, replicate, length-replicate, arith,
}
use mathlib.Core.List.{append-nil}
use kitura_http.Result.{ok, err, header_comp}
use kitura_http.Buf.{Buf, buf_put}
use kitura_http.Hpack.Huffman.Table.Entry.{HuffDecode}
use kitura_http.Hpack.Huffman.Tree.{to_bits, code_bits}
use kitura_http.Hpack.Huffman.Checked.{node_bits, is_padding, same_bits, all_from, all_from-zero}
use kitura_http.Hpack.Huffman.Facts.{same_bits-eq, accounts, fails_eos}
use kitura_http.Hpack.Huffman.Parse.{codes, byte_bits}
use kitura_http.Hpack.Huffman.Outcome.{
  extend, extend-nil, Reads, Refused, Outcome, Reads-trans, Reads-Refused, Refused-more, room_left,
}
use kitura_http.Hpack.Huffman.{
  HuffDecodeContext, transition, accepted, has_sym, fails, half_step, byte_step, huff_decode_loop,
}

abbrev after : HuffDecode → HuffDecodeContext
after t = record { state = t.state; accept = accepted t }

HalfOutcome : ℕ → Buf → ℕ → Type 0
HalfOutcome s b half =
    let t = transition s half in
    ((b' : Buf) × (half_step s b half ≡ ok (t, b')) × Reads s 1 b (to_bits 4 half) (after t) b')
    ⊎ ((half_step s b half ≡ err header_comp) × Refused s (to_bits 4 half))

put_one : (b : Buf) (c : ℕ) → 1 ≤ b.avail → buf_put b (c ∷ []) ≡ ok (extend b (c ∷ []))
unfolding buf_put extend
put_one b c h = ground (arith)

half_outcome :
    (s : ℕ) (b : Buf) (half : ℕ) → s < 256 → half < 16 → 1 ≤ b.avail → HalfOutcome s b half
unfolding HalfOutcome half_step codes
half_outcome s b half hs hh room = elim (Bool-cases (fails (transition s half))) [
  | inl bad ↦
      let e = fails_eos s half hs hh bad in
      inr (
        rw bad refl,
        record { out = []; rest = _; tail = e.0; parsed = refl; bytes = tt; eos = e.1 },
      )
  | inr fine ↦
      let t = transition s half in
      let acc = accounts s half hs hh fine in
      elim (Bool-cases (has_sym t)) [
        | inl sym_read ↦ inl (
          extend b (t.sym ∷ []),
          rw (fine, sym_read, put_one b t.sym room) refl,
          record {
            out = t.sym ∷ [];
            parsed = rw (append-nil (code_bits t.sym)) (rw sym_read at acc.bits);
            written = refl;
            bytes = (acc.sym_in, tt);
            few = omega arith;
            state_in = acc.state_in;
            final = acc.final;
          },
        )
        | inr no_sym ↦ inl (
          b,
          rw (fine, no_sym) refl,
          record {
            out = [];
            parsed = rw no_sym at acc.bits;
            written = sym (extend-nil b);
            bytes = tt;
            few = omega arith;
            state_in = acc.state_in;
            final = acc.final;
          },
        )
      ]
]

-- A byte is its two halves.
halves_test : ℕ → ℕ → Bool
halves_test x _ = same_bits (to_bits 8 x) (to_bits 4 (x / 16) ++ to_bits 4 (x % 16))

halves_tested : all_from halves_test 0 (replicate 256 0) ≡ true
unfolding all_from halves_test same_bits to_bits
halves_tested = refl

pub byte_halves : (x : ℕ) → IsByte x → to_bits 8 x ≡ to_bits 4 (x / 16) ++ to_bits 4 (x % 16)
unfolding halves_test
byte_halves x h = same_bits-eq _ _ (
    all_from-zero halves_test 0 (replicate 256 0) x halves_tested
      (rw (length-replicate {A = ℕ} 256 0) h))

byte_outcome :
    (ctx : HuffDecodeContext) (b : Buf) (x : ℕ)
    → ctx.state < 256
    → IsByte x
    → 2 ≤ b.avail
    → Outcome ctx.state 2 b (to_bits 8 x) (byte_step ctx b x)
unfolding byte_step HalfOutcome
byte_outcome ctx b x hs hx room =
    rw (byte_halves x hx) (elim (half_outcome ctx.state b (x / 16) hs (omega arith) (omega arith)) [
      | inr (e, bad) ↦ inr (rw e refl, Refused-more _ bad)
      | inl (b', e, r) ↦
          let t = transition ctx.state (x / 16) in
          elim (half_outcome t.state b' (x % 16) r.state_in (omega arith)
            (omega (arith, room_left r))) [
              | inr (f, bad) ↦ inr (rw (e, f) refl, Reads-Refused r bad)
              | inl (b'', f, q) ↦
                  inl (after (transition t.state (x % 16)), b'', rw (e, f) refl, Reads-trans r q)
            ]
    ])

suc_twice : (n : ℕ) → suc n * 2 ≡ 2 + n * 2
suc_twice n = omega arith

pub loop_outcome :
    (src : List ℕ) (ctx : HuffDecodeContext) (b : Buf)
    → ctx.state < 256
    → ctx.accept ≡ is_padding (node_bits ctx.state)
    → All IsByte src
    → length src * 2 ≤ b.avail
    → Outcome ctx.state (length src * 2) b (byte_bits src) (huff_decode_loop ctx b src)
unfolding huff_decode_loop byte_bits codes
loop_outcome [] ctx b hs ha hx room = inl (
  ctx,
  b,
  refl,
  record {
    out = [];
    parsed = append-nil _;
    written = sym (extend-nil b);
    bytes = tt;
    few = omega arith;
    state_in = hs;
    final = ha;
  },
)
loop_outcome (x ∷ src) ctx b hs ha hx room = elim (byte_outcome ctx b x hs hx.0 (omega arith)) [
  | inr (e, bad) ↦ inr (rw e refl, Refused-more _ bad)
  | inl (ctx', b', e, r) ↦
      elim (loop_outcome src ctx' b' r.state_in r.final hx.1 (omega (arith, room_left r))) [
        | inr (f, bad) ↦ inr (rw (e, f) refl, Reads-Refused r bad)
        | inl (end, b'', f, q) ↦
            inl (end, b'', rw (e, f) refl, rw (suc_twice (length src)) (Reads-trans r q))
      ]
]
