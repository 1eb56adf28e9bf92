-- ===== src/Hpack/Huffman/Encode.antt =====
-- Sources/nghttp2/nghttp2_hd_huffman.c: encoding. The byte at `last` of the current chunk fills up bit
-- by bit before `last` moves behind it; `held` is that byte, and `none` while it is not written.
pub mod Merge
pub mod State
pub mod Long
pub mod Rest
pub mod Orb
pub mod Loop
use Prim.Native.Nat.{bit_or}
use kitura_http.Prelude.{
  ℕ, ◌+◌, ◌-◌, ◌*◌, ◌/◌, ◌%◌, ◌^◌, List, [], ◌∷◌, Bool, true, false, Option, none, some, ltb, ◌==◌,
  if◌then◌else◌,
}
use kitura_http.Buf.{
  Bufs, Status, done, failed, overrun, out_of_fuel, put_byte, bufs_ensure_addb, bufs_addb,
}
use kitura_http.Hpack.Huffman.{symbol}
use kitura_http.Hpack.Huffman.Symbols.{HuffSym}

-- The variables of nghttp2_hd_huff_encode: the chain, `avail`, `rembits`, and the byte at `last`.
pub record HuffOut : Type 0 where
  pub bufs : Bufs
  pub held : Option ℕ
  pub avail : ℕ
  pub rembits : ℕ

-- `if (rv != 0) return rv;`
infixl 5 ◌>>=◌
abbrev pub ◌>>=◌ : HuffOut × Status → (HuffOut → HuffOut × Status) → HuffOut × Status
(o, done) >>= f = f o
(o, failed e) >>= f = (o, failed e)
(o, overrun) >>= f = (o, overrun)
(o, out_of_fuel) >>= f = (o, out_of_fuel)

abbrev pub on_bufs : HuffOut → Bufs × Status → HuffOut × Status
on_bufs o (s, st) = (record o { bufs = s; held = none }, st)

abbrev pub uint8 : ℕ → ℕ
uint8 n = n % 256

-- nghttp2_bufs_fast_addb and nghttp2_bufs_fast_addb_hold.
unfoldable pub fast_addb : HuffOut → ℕ → HuffOut × Status
fast_addb o b = on_bufs o (put_byte o.bufs b)

unfoldable pub fast_addb_hold : HuffOut → ℕ → HuffOut × Status
fast_addb_hold o b =
    if ltb 0 o.bufs.cur.avail then (record o { held = some b }, done) else (o, overrun)

-- nghttp2_bufs_fast_orb and nghttp2_bufs_fast_orb_hold.
unfoldable pub fast_orb : HuffOut → ℕ → HuffOut × Status
unfolding fast_addb
fast_orb o b = elim o.held [ none ↦ (o, overrun) | some h ↦ fast_addb o (bit_or h b) ]

unfoldable pub fast_orb_hold : HuffOut → ℕ → HuffOut × Status
unfolding fast_addb_hold
fast_orb_hold o b = elim o.held [ none ↦ (o, overrun) | some h ↦ fast_addb_hold o (bit_or h b) ]

-- nghttp2_bufs_addb and nghttp2_bufs_addb_hold.
unfoldable pub addb : HuffOut → ℕ → HuffOut × Status
unfolding bufs_addb
addb o b = on_bufs o (bufs_addb o.bufs b)

unfoldable pub bufs_addb_hold : HuffOut → ℕ → HuffOut × Status
unfolding fast_addb_hold bufs_ensure_addb
bufs_addb_hold o b = on_bufs o (bufs_ensure_addb o.bufs) >>= λ o'. fast_addb_hold o' b

-- `--*avail_ptr`, and `*avail_ptr = nghttp2_bufs_cur_avail(bufs)`, with the value that is returned.
abbrev pub took : HuffOut → HuffOut
took o = record o { avail = o.avail - 1 }

abbrev pub leaves : ℕ → HuffOut → HuffOut × Status
leaves rem o = (record o { avail = o.bufs.cur.avail; rembits = rem }, done)

-- `if (nbits > k) { ...; nbits -= 8; }`
abbrev pub less : ℕ → ℕ → ℕ
less k nbits = if ltb k nbits then nbits - 8 else nbits

abbrev pub above : (HuffOut → ℕ → HuffOut × Status) → ℕ → ℕ → ℕ → HuffOut → HuffOut × Status
above put k nbits code o = if ltb k nbits then put o (uint8 (code / 2 ^ k)) else (o, done)

-- The bytes behind the first, from `if (nbits > 24)` on, with the calls of the slow or of the fast path.
unfoldable pub long_code :
    (HuffOut → ℕ → HuffOut × Status)
    → (HuffOut → ℕ → HuffOut × Status)
    → ℕ
    → ℕ
    → HuffOut
    → HuffOut × Status
long_code put hold n code o =
    let n1 = less 24 n in
    let n2 = less 16 n1 in
    let n3 = less 8 n2 in
    above put 24 n code o >>= above put 16 n1 code >>= above put 8 n2 code >>= λ o'.
    if n3 == 8 then put o' (uint8 code) >>= leaves 8 else hold o' (uint8 code) >>= leaves (8 - n3)

-- `code <<= 8 - (nbits & 0x7)` on a uint32_t.
abbrev pub aligned : ℕ → ℕ → ℕ
aligned nbits code = if nbits % 8 == 0 then code else code * 2 ^ (8 - nbits % 8) % 4294967296

unfoldable pub rest_of_code : ℕ → ℕ → HuffOut → HuffOut × Status
unfolding long_code fast_addb fast_addb_hold addb bufs_addb_hold
rest_of_code nbits code o =
    if ltb o.avail ((nbits + 7) / 8)
    then long_code addb bufs_addb_hold nbits code o
    else if ltb nbits 8
    then fast_addb_hold o (uint8 code) >>= leaves (8 - nbits)
    else long_code fast_addb fast_addb_hold nbits code o

-- huff_encode_sym; `rembits` is the value that it returns.
unfoldable pub huff_encode_sym : HuffOut → HuffSym → HuffOut × Status
unfolding fast_orb fast_orb_hold rest_of_code
huff_encode_sym o sym =
    let nbits = sym.nbits in
    let code = sym.code in
    let rem = o.rembits in
    if ltb nbits rem
    then (fast_orb_hold o (uint8 (code * 2 ^ (rem - nbits))) >>= λ o'.
        (record o' { rembits = rem - nbits }, done))
    else if rem == nbits
    then (fast_orb o (uint8 code) >>= λ o'. (record (took o') { rembits = 8 }, done))
    else (fast_orb o (uint8 (code / 2 ^ (nbits - rem))) >>= λ o'.
        rest_of_code (nbits - rem) (aligned (nbits - rem) code) (took o'))

-- The start of a byte, in the loop of nghttp2_hd_huff_encode.
unfoldable pub start_byte : HuffOut → HuffOut × Status
unfolding fast_addb_hold bufs_addb_hold
start_byte o =
    if o.rembits == 8
    then if ltb 0 o.avail then fast_addb_hold o 0 else bufs_addb_hold o 0 >>= leaves 8
    else (o, done)

unfoldable pub huff_encode_loop : HuffOut → List ℕ → HuffOut × Status
unfolding start_byte huff_encode_sym
huff_encode_loop o [] = (o, done)
huff_encode_loop o (c ∷ src) =
    start_byte o >>= λ o'. huff_encode_sym o' (symbol c) >>= λ o''. huff_encode_loop o'' src

-- The padding at the end; `overrun` stands for the failing `assert(avail)` too.
unfoldable pub pad_last : HuffOut → HuffOut × Status
unfolding fast_orb
pad_last o =
    let eos = symbol 256 in
    if ltb o.rembits 8
    then if ltb 0 o.avail
      then fast_orb o (uint8 (eos.code / 2 ^ (eos.nbits - o.rembits)))
      else (o, overrun)
    else (o, done)

abbrev pub huff_out : Bufs → HuffOut
huff_out s = record { bufs = s; held = none; avail = s.cur.avail; rembits = 8 }

-- nghttp2_hd_huff_encode.
unfoldable pub huff_encode : Bufs → List ℕ → Bufs × Status
unfolding huff_encode_loop pad_last
huff_encode s src = let (o, st) = huff_encode_loop (huff_out s) src >>= pad_last in (o.bufs, st)

abbrev pub count_bits : List ℕ → ℕ
count_bits [] = 0
count_bits (c ∷ src) = (symbol c).nbits + count_bits src

-- nghttp2_hd_huff_encode_count.
unfoldable pub huff_encode_count : List ℕ → ℕ
huff_encode_count src = (count_bits src + 7) / 8
