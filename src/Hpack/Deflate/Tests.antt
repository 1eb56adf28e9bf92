-- ===== src/Hpack/Deflate/Tests.antt =====
-- Fields encoded by the encoder of header blocks, and decoded again.
use kitura_http.Prelude.{ℕ, ◌≡◌, refl, List, [], ◌∷◌, Bool, true, false, arith, inl}
use kitura_http.Result.{Result, ok, ◌>>=◌}
use kitura_http.Buf.{Bufs, Status, done, bufs_init3, bufs_bytes}
use kitura_http.Hpack.Token.{ascii}
use kitura_http.Hpack.Huffman.{symbol}
use kitura_http.Hpack.Huffman.Symbols.{huff_sym_table}
use kitura_http.Hpack.Table.{no_entry}
use kitura_http.Hpack.Search.{map_init}
use kitura_http.Hpack.Search.Holds.{IsMapped}
use kitura_http.Buf.Byte.{IsOpen}
use kitura_http.Hpack.Inflater.{Inflater, inflate_init}
use kitura_http.Hpack.Deflate.Indexed.{ComesBack, inflate_hd_nv-deflate_nv}
use kitura_http.Hpack.Deflate.Safe.{IsReady, DeflateEnds, deflate_hd_bufs-ends}
use kitura_http.Hpack.Deflate.{Nv, Deflater, deflate_init2, deflate_hd_bufs, deflate_nv, search_for}

abbrev nv : List ℕ → List ℕ → Nv
nv name value = record { name = name; value = value; no_index = false }

abbrev yes : List Bool
yes = true ∷ true ∷ true ∷ true ∷ true ∷ true ∷ true ∷ true ∷ []

-- What the fields are encoded as, one block after another.
encoded : List Nv → List Nv → Result (List ℕ × List ℕ × Status)
unfolding deflate_hd_bufs deflate_init2 bufs_init3 bufs_bytes
encoded first second = deflate_init2 4096 true yes >>= λ d. bufs_init3 100 8 1 0 yes >>= λ s.
    let one = deflate_hd_bufs d s first in
    let two = deflate_hd_bufs one.0 one.1.0 second in
    ok (bufs_bytes one.1.0, bufs_bytes two.1.0, two.1.1)

-- The second time the field is an index.
repeated :
    encoded
      (nv (ascii ":method") (ascii "GET") ∷ nv (ascii "x") (ascii "2") ∷ [])
      (nv (ascii "x") (ascii "2") ∷ nv (ascii ":status") (ascii "404") ∷ [])
    ≡ ok (130 ∷ 64 ∷ 1 ∷ 120 ∷ 1 ∷ 50 ∷ [], 130 ∷ 64 ∷ 1 ∷ 120 ∷ 1 ∷ 50 ∷ 190 ∷ 141 ∷ [], done)
unfolding encoded symbol huff_sym_table
repeated = refl

abbrev fresh : Deflater
fresh = record {
  ctx = record {
    hd_table = record { buffer = no_entry ∷ no_entry ∷ []; first = 0; len = 0 };
    hd_table_bufsize = 0;
    hd_table_bufsize_max = 4096;
    next_seq = 0;
  };
  bad = false;
  map = map_init;
  deflate_hd_table_bufsize_max = 4096;
  min_hd_table_bufsize_max = 4294967295;
  notify_table_size_change = false;
  mem = yes;
}

fresh-IsMapped : IsMapped fresh.ctx fresh.map []
fresh-IsMapped = record {
  table = record {
    ring = record { first_in = omega arith; fits = omega arith };
    held = refl;
    accounted = refl;
  };
  buckets = λ b. refl;
  numbered = tt;
  next_in = omega arith;
  few = omega arith;
}

fresh-IsReady : IsReady fresh
fresh-IsReady = record { entries = []; mapped = fresh-IsMapped; small = omega arith }

abbrev chain : Bufs
chain = record {
  before = [];
  cur = record { room = 0; bytes = []; avail = 16 };
  after = [];
  chunk_length = 16;
  chunk_used = 1;
  max_chunk = 2;
  chunk_keep = 1;
  offset = 0;
  mem = true ∷ [];
}

chain-IsOpen : IsOpen chain
chain-IsOpen = record {
  valid = record {
    counted = refl;
    bounded = omega arith;
    offset_fits = omega arith;
    caps_before = tt;
    cap_cur = refl;
    caps_after = tt;
  };
  fresh = refl;
  roomy = omega arith;
  rooms = tt;
}

deflate_hd_bufs-ends_example :
    DeflateEnds (deflate_hd_bufs fresh chain (nv (ascii "x") (ascii "2") ∷ []))
deflate_hd_bufs-ends_example =
    deflate_hd_bufs-ends fresh chain (nv (ascii "x") (ascii "2") ∷ []) fresh-IsReady chain-IsOpen
      ((omega arith, omega arith), tt)

abbrev get : Nv
get = nv (ascii ":method") (ascii "GET")

abbrev decoder : Inflater
decoder = inflate_init fresh.ctx []

abbrev after_get : Bufs
after_get = record chain { cur = record { room = 0; bytes = 130 ∷ []; avail = 15 } }

get_found : (search_for fresh get).name_value_match ≡ true
unfolding search_for
get_found = refl

get_written : deflate_nv fresh chain get ≡ (fresh, (after_get, done))
unfolding deflate_nv
get_written = refl

inflate_hd_nv-deflate_nv_example :
    (fresh ≡ fresh) × ComesBack chain after_get get decoder (132 ∷ []) true
unfolding inflate_init
inflate_hd_nv-deflate_nv_example =
    inflate_hd_nv-deflate_nv fresh fresh chain after_get get [] decoder (132 ∷ []) true
      fresh-IsMapped fresh-IsMapped.table refl (inl refl) chain-IsOpen get_found get_written
