-- ===== src/Hpack/Huffman/RoundTrip.antt =====
-- nghttp2_hd_huff_encode on a chain of buffers, and nghttp2_hd_huff_decode on what it wrote.
use mathlib.Core.List.{append-nil}
use kitura_http.Prelude.{
  ℕ, zero, suc, subst, ◌*◌, ◌≤◌, ◌≡◌, ◌⊎◌, inl, refl, sym, ap, List, [], ◌∷◌, ◌++◌, true, arith,
  IsByte, All, length, length-append, replicate, length-replicate,
}
use kitura_http.Result.{buffer_error, nomem}
use kitura_http.Buf.{Buf, Bufs, Status, done, failed, overrun, out_of_fuel, bufs_bytes}
use kitura_http.Buf.Valid.{IsValid}
use kitura_http.Buf.Byte.{IsOpen}
use kitura_http.Hpack.Huffman.{symbol}
use kitura_http.Hpack.Huffman.Tree.{to_bits, code_bits}
use kitura_http.Hpack.Huffman.Parse.{codes, byte_bits}
use kitura_http.Hpack.Huffman.Exact.{Encodes, Decoded, huff_decode-encoded}
use kitura_http.Hpack.Huffman.Encode.{
  HuffOut, ◌>>=◌, huff_out, huff_encode, huff_encode_loop, pad_last, huff_encode_count, count_bits,
}
use kitura_http.Hpack.Huffman.Encode.State.{Post, Post-bind}
use kitura_http.Hpack.Huffman.Encode.Long.{After}
use kitura_http.Hpack.Huffman.Encode.Loop.{loop_lem, pad_lem, Padded}

-- The bytes that were written encode the text, and are as many as huff_encode_count says.
pub record Encoded (s : Bufs) (src : List ℕ) (t : Bufs) : Type 0 where
  pub open_chain : IsOpen t
  pub enc : List ℕ
  pub holds : bufs_bytes t ≡ bufs_bytes s ++ enc
  pub bytes : All IsByte enc
  pub encodes : Encodes src enc
  pub counted : length enc ≡ huff_encode_count src

abbrev pub EncodeEnds : Bufs → List ℕ → Bufs × Status → Type 0
EncodeEnds s src (t, done) = Encoded s src t
EncodeEnds s src (t, failed e) = IsValid t × ((e ≡ buffer_error) ⊎ (e ≡ nomem))
EncodeEnds s src (t, overrun) = ⊥
EncodeEnds s src (t, out_of_fuel) = ⊥

length-to_bits : (n v : ℕ) → length (to_bits n v) ≡ n
unfolding to_bits
length-to_bits zero v = refl
length-to_bits (suc n) v = ap suc (length-to_bits n v)

length-byte_bits : (xs : List ℕ) → length (byte_bits xs) ≡ length xs * 8
unfolding byte_bits to_bits
length-byte_bits [] = refl
length-byte_bits (x ∷ xs) = omega (arith, length-byte_bits xs)

length-codes : (xs : List ℕ) → length (codes xs) ≡ count_bits xs
unfolding codes code_bits
length-codes [] = refl
length-codes (x ∷ xs) = omega (
  arith,
  length-append (code_bits x) (codes xs),
  length-to_bits (symbol x).nbits (symbol x).code,
  length-codes xs,
)

count_lem : (src enc : List ℕ) → Encodes src enc → length enc ≡ huff_encode_count src
unfolding Encodes huff_encode_count
count_lem src enc (k, few, bits) =
    let len = ap length bits in
    omega (
      arith,
      len,
      length-byte_bits enc,
      length-append (codes src) (replicate k true),
      length-codes src,
      length-replicate k true,
    )

encoded :
    (s : Bufs) (src : List ℕ) (o : HuffOut)
    → Padded (bufs_bytes s) (codes src) o
    → Encoded s src o.bufs
unfolding Encodes
encoded s src o (k, few, c) =
    let e : Encodes src c.enc = (k, few, c.parsed) in
    record {
      open_chain = c.open_chain;
      enc = c.enc;
      holds = c.holds;
      bytes = c.bytes;
      encodes = e;
      counted = count_lem src c.enc e;
    }

ends :
    (s : Bufs) (src : List ℕ) (r : HuffOut × Status)
    → Post (Padded (bufs_bytes s) (codes src)) r
    → EncodeEnds s src (r.0.bufs, r.1)
ends s src (o, done) h = encoded s src o h
ends s src (o, failed e) h = h
ends s src (o, overrun) h = h
ends s src (o, out_of_fuel) h = h

-- Huffman encoding a string of bytes into an open chain writes an encoding of it by RFC 7541, 5.2,
-- of the length that nghttp2_hd_huff_encode_count gives, behind what the chain holds, or fails with
-- NGHTTP2_ERR_BUFFER_ERROR or NGHTTP2_ERR_NOMEM and a valid chain.
pub huff_encode_encodes :
    (s : Bufs) (src : List ℕ) → IsOpen s → All IsByte src → EncodeEnds s src (huff_encode s src)
unfolding huff_encode byte_bits
huff_encode_encodes s src o h =
    let base = bufs_bytes s in
    let blank : After base [] (huff_out s) = inl (record {
      chain = record {
        open_chain = o;
        enc = [];
        holds = sym (append-nil base);
        bytes = tt;
        parsed = refl;
      };
      rem = refl;
      avail = refl;
    }) in
    ends s src (huff_encode_loop (huff_out s) src >>= pad_last) (
      Post-bind (After base (codes src)) (Padded base (codes src))
        (huff_encode_loop (huff_out s) src) pad_last (loop_lem base src [] (huff_out s) h blank)
        (λ o' a. pad_lem base (codes src) o' a))

-- What was Huffman encoded with success into an open chain decodes to the string, into a buffer with twice the
-- room of the bytes that were written.
pub huff_decode-encode :
    (s t : Bufs) (b : Buf) (src : List ℕ)
    → IsOpen s
    → All IsByte src
    → huff_encode s src ≡ (t, done)
    → huff_encode_count src * 2 ≤ b.avail
    → (enc : List ℕ) × (bufs_bytes t ≡ bufs_bytes s ++ enc) × Decoded b enc src
huff_decode-encode s t b src o h e room =
    let r : Encoded s src t = subst (EncodeEnds s src) e (huff_encode_encodes s src o h) in
    (r.enc, r.holds, huff_decode-encoded b r.enc src r.bytes (rw r.counted room) h r.encodes)
