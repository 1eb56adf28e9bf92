-- ===== src/Hpack/Huffman/Outcome.antt =====
-- nghttp2_hd_huff_decode, half a byte after the other: the bits that it has read, the symbols that it
-- has written, and the code that it is in the middle of.
use kitura_http.Prelude.{
  ℕ, ◌+◌, ◌-◌, ◌≤◌, ◌<◌, List, [], ◌++◌, Bool, some, ◌≡◌, ◌⊎◌, sym, ap, ◌∙◌, All, All-append,
  IsByte, length, length-append, arith,
}
use mathlib.Core.List.{append_assoc, append-nil}
use kitura_http.Result.{Result, ok, err, header_comp}
use kitura_http.Buf.{Buf}
use kitura_http.Hpack.Huffman.Tree.{code_tree, read, read-append}
use kitura_http.Hpack.Huffman.Checked.{node_bits, is_padding}
use kitura_http.Hpack.Huffman.Parse.{codes, codes-append}
use kitura_http.Hpack.Huffman.{HuffDecodeContext}

-- The buffer with more bytes in it.
unfoldable pub extend : Buf → List ℕ → Buf
extend b out = record b { bytes = b.bytes ++ out; avail = b.avail - length out }

pub extend-nil : (b : Buf) → extend b [] ≡ b
unfolding extend
extend-nil b = ground (arith, append-nil b.bytes)

extend-extend : (b : Buf) (xs ys : List ℕ) → extend (extend b xs) ys ≡ extend b (xs ++ ys)
unfolding extend
extend-extend b xs ys = ground (arith, append_assoc b.bytes xs ys, length-append xs ys)

-- From state `s`, the bits were read, at most `n` symbols were written, and the rest is in the state.
pub record Reads (s n : ℕ) (b : Buf) (bits : List Bool) (ctx : HuffDecodeContext) (b' : Buf)
    : Type 0 where
  pub out : List ℕ
  pub parsed : node_bits s ++ bits ≡ codes out ++ node_bits ctx.state
  pub written : b' ≡ extend b out
  pub bytes : All IsByte out
  pub few : length out ≤ n
  pub state_in : ctx.state < 256
  pub final : ctx.accept ≡ is_padding (node_bits ctx.state)

-- Among the bits is the code of EOS.
pub record Refused (s : ℕ) (bits : List Bool) : Type 0 where
  pub out : List ℕ
  pub rest : List Bool
  pub tail : List Bool
  pub parsed : node_bits s ++ bits ≡ codes out ++ rest
  pub bytes : All IsByte out
  pub eos : read code_tree rest ≡ some (256, tail)

abbrev pub Outcome : ℕ → ℕ → Buf → List Bool → Result (HuffDecodeContext × Buf) → Type 0
Outcome s n b bits r =
    ((ctx : HuffDecodeContext) × (b' : Buf) × (r ≡ ok (ctx, b')) × Reads s n b bits ctx b')
    ⊎ ((r ≡ err header_comp) × Refused s bits)

-- (a ++ b) ++ y where a ++ b is known, continued.
continue :
    (node x mid y end : List Bool) (xs ys : List ℕ)
    → node ++ x ≡ codes xs ++ mid
    → mid ++ y ≡ codes ys ++ end
    → node ++ (x ++ y) ≡ codes (xs ++ ys) ++ end
continue node x mid y end xs ys e f =
    sym (append_assoc node x y)
    ∙ ap (λ l. l ++ y) e
    ∙ append_assoc (codes xs) mid y
    ∙ ap (λ l. codes xs ++ l) f
    ∙ sym (append_assoc (codes xs) (codes ys) end)
    ∙ ap (λ l. l ++ end) (sym (codes-append xs ys))

module _ {s n m : ℕ} {b b' b'' : Buf} {x y : List Bool} {ctx ctx' : HuffDecodeContext} where
  pub Reads-trans :
      Reads s n b x ctx b' → Reads ctx.state m b' y ctx' b'' → Reads s (n + m) b (x ++ y) ctx' b''
  Reads-trans p q = record {
    out = p.out ++ q.out;
    parsed = continue _ _ _ _ _ p.out q.out p.parsed q.parsed;
    written = q.written ∙ ap (λ l. extend l q.out) p.written ∙ extend-extend b p.out q.out;
    bytes = All-append IsByte p.out q.out p.bytes q.bytes;
    few = omega (arith, length-append p.out q.out, p.few, q.few);
    state_in = q.state_in;
    final = q.final;
  }

module _ {s n : ℕ} {b b' : Buf} {x y : List Bool} {ctx : HuffDecodeContext} where
  pub Reads-Refused : Reads s n b x ctx b' → Refused ctx.state y → Refused s (x ++ y)
  Reads-Refused p q = record {
    out = p.out ++ q.out;
    rest = q.rest;
    tail = q.tail;
    parsed = continue _ _ _ _ _ p.out q.out p.parsed q.parsed;
    bytes = All-append IsByte p.out q.out p.bytes q.bytes;
    eos = q.eos;
  }

pub Refused-more : {s : ℕ} {x : List Bool} (y : List Bool) → Refused s x → Refused s (x ++ y)
Refused-more {s} {x} y p = record {
  out = p.out;
  rest = p.rest ++ y;
  tail = p.tail ++ y;
  parsed =
      sym (append_assoc (node_bits s) x y)
      ∙ ap (λ l. l ++ y) p.parsed
      ∙ append_assoc (codes p.out) p.rest y;
  bytes = p.bytes;
  eos = read-append code_tree p.rest y p.eos;
}

pub room_left :
    {s n : ℕ} {b b' : Buf} {x : List Bool} {ctx : HuffDecodeContext}
    → Reads s n b x ctx b'
    → b.avail ≤ b'.avail + n
unfolding extend
room_left p = rw p.written (omega (arith, p.few))
