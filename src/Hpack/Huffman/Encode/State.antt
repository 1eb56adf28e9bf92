-- ===== src/Hpack/Huffman/Encode/State.antt =====
-- Encoding, one write at a time: the bits that the chain holds behind what it held at first.
use mathlib.Core.List.{append_assoc, append-nil}
use kitura_http.Prelude.{
  ℕ, ◌-◌, ◌<◌, ◌≡◌, refl, ap, ◌∙◌, ◌⊎◌, List, [], ◌∷◌, ◌++◌, Bool, some, All, All-append, IsByte,
  lt→ltb,
}
use kitura_http.Result.{buffer_error, nomem}
use kitura_http.Buf.{Bufs, Status, done, failed, overrun, out_of_fuel, bufs_bytes, put_byte, resume}
use kitura_http.Buf.Valid.{IsValid}
use kitura_http.Buf.Byte.{IsOpen, Ensured, ensure-Ensured, put_byte-done}
use kitura_http.Hpack.Huffman.Tree.{to_bits}
use kitura_http.Hpack.Huffman.Parse.{byte_bits, byte_bits-append}
use kitura_http.Hpack.Huffman.Encode.{
  HuffOut, ◌>>=◌, on_bufs, fast_addb, fast_addb_hold, addb, bufs_addb_hold,
}

-- How a call may end: with what it promises, or with an error and a valid chain.
abbrev pub Post : (HuffOut → Type 0) → HuffOut × Status → Type 0
Post P (o, done) = P o
Post P (o, failed e) = IsValid o.bufs × ((e ≡ buffer_error) ⊎ (e ≡ nomem))
Post P (o, overrun) = ⊥
Post P (o, out_of_fuel) = ⊥

pub Post-bind :
    (P Q : HuffOut → Type 0) (r : HuffOut × Status) (f : HuffOut → HuffOut × Status)
    → Post P r
    → ((o : HuffOut) → P o → Post Q (f o))
    → Post Q (r >>= f)
Post-bind P Q (o, done) f h k = k o h
Post-bind P Q (o, failed e) f h k = h
Post-bind P Q (o, overrun) f h k = h
Post-bind P Q (o, out_of_fuel) f h k = h

pub Post-map :
    (P Q : HuffOut → Type 0) (r : HuffOut × Status)
    → Post P r
    → ((o : HuffOut) → P o → Q o)
    → Post Q r
Post-map P Q (o, done) h k = k o h
Post-map P Q (o, failed e) h k = h
Post-map P Q (o, overrun) h k = h
Post-map P Q (o, out_of_fuel) h k = h

-- The chain holds `base`, and behind it the bytes that these bits make up.
pub record Chain (base : List ℕ) (bits : List Bool) (s : Bufs) : Type 0 where
  pub open_chain : IsOpen s
  pub enc : List ℕ
  pub holds : bufs_bytes s ≡ base ++ enc
  pub bytes : All IsByte enc
  pub parsed : byte_bits enc ≡ bits

-- The byte at `last` is written.
pub record Held (base : List ℕ) (bits : List Bool) (b : ℕ) (o : HuffOut) : Type 0 where
  pub chain : Chain base bits o.bufs
  pub held : o.held ≡ some b
  pub room : 0 < o.bufs.cur.avail

module _ (base : List ℕ) (bits : List Bool) where
  pub Chain-same :
      (s t : Bufs) → Chain base bits s → IsOpen t → bufs_bytes t ≡ bufs_bytes s → Chain base bits t
  Chain-same s t c o e = record {
    open_chain = o;
    enc = c.enc;
    holds = e ∙ c.holds;
    bytes = c.bytes;
    parsed = c.parsed;
  }

  Chain-byte :
      (s t : Bufs) (b : ℕ)
      → IsByte b
      → Chain base bits s
      → IsOpen t
      → bufs_bytes t ≡ bufs_bytes s ++ b ∷ []
      → Chain base (bits ++ to_bits 8 b) t
  unfolding byte_bits
  Chain-byte s t b hb c o e = record {
    open_chain = o;
    enc = c.enc ++ b ∷ [];
    holds = e ∙ ap (λ l. l ++ b ∷ []) c.holds ∙ append_assoc base c.enc (b ∷ []);
    bytes = All-append IsByte c.enc (b ∷ []) c.bytes (hb, tt);
    parsed =
        byte_bits-append c.enc (b ∷ [])
        ∙ ap (λ l. byte_bits c.enc ++ l) (append-nil (to_bits 8 b))
        ∙ ap (λ l. l ++ to_bits 8 b) c.parsed;
  }

  -- nghttp2_bufs_fast_addb.
  abbrev pub Adding : HuffOut → ℕ → HuffOut → Type 0
  Adding o b o' =
      Chain base (bits ++ to_bits 8 b) o'.bufs
      × (o'.bufs.cur.avail ≡ o.bufs.cur.avail - 1)
      × (o'.avail ≡ o.avail)

  pub fast_addb-Post :
      (o : HuffOut) (b : ℕ)
      → IsByte b
      → Chain base bits o.bufs
      → 0 < o.bufs.cur.avail
      → Post (Adding o b) (fast_addb o b)
  unfolding fast_addb
  fast_addb-Post o b hb c room =
      let (t, e, ot, bytes, left) = put_byte-done o.bufs b c.open_chain room in
      rw e (Chain-byte o.bufs t b hb c ot bytes, left, refl)

  -- nghttp2_bufs_fast_addb_hold, which leaves all but the byte at `last` alone.
  abbrev pub Holding : HuffOut → ℕ → HuffOut → Type 0
  Holding o b o' =
      Held base bits b o' × (o'.bufs ≡ o.bufs) × (o'.avail ≡ o.avail) × (o'.rembits ≡ o.rembits)

  pub fast_addb_hold-Post :
      (o : HuffOut) (b : ℕ)
      → Chain base bits o.bufs
      → 0 < o.bufs.cur.avail
      → Post (Holding o b) (fast_addb_hold o b)
  unfolding fast_addb_hold
  fast_addb_hold-Post o b c room =
      rw (lt→ltb 0 o.bufs.cur.avail room)
        (record { chain = c; held = refl; room = room }, refl, refl, refl)

  after_ensure :
      (o : HuffOut) (r : Bufs × Status) (b : ℕ)
      → IsByte b
      → Chain base bits o.bufs
      → Ensured o.bufs r
      → Post
          (λ o'. Chain base (bits ++ to_bits 8 b) o'.bufs)
          (on_bufs o (resume (λ s. put_byte s b) r))
  after_ensure o (t, done) b hb c (ot, same, room) =
      let (u, e, ou, bytes, left) = put_byte-done t b ot room in
      rw e (Chain-byte t u b hb (Chain-same o.bufs t c ot same) ou bytes)
  after_ensure o (t, failed e) b hb c h = h
  after_ensure o (t, overrun) b hb c h = h
  after_ensure o (t, out_of_fuel) b hb c h = h

  -- nghttp2_bufs_addb.
  pub addb-Post :
      (o : HuffOut) (b : ℕ)
      → IsByte b
      → Chain base bits o.bufs
      → Post (λ o'. Chain base (bits ++ to_bits 8 b) o'.bufs) (addb o b)
  unfolding addb
  addb-Post o b hb c = after_ensure o _ b hb c (ensure-Ensured o.bufs c.open_chain)

  Ensured-hold :
      (o : HuffOut) (r : Bufs × Status) (b : ℕ)
      → Chain base bits o.bufs
      → Ensured o.bufs r
      → Post (Held base bits b) (on_bufs o r >>= λ o'. fast_addb_hold o' b)
  Ensured-hold o (t, done) b c (ot, same, room) =
      let o' = (on_bufs o (t, done)).0 in
      Post-map (Holding o' b) (Held base bits b) (fast_addb_hold o' b)
        (fast_addb_hold-Post o' b (Chain-same o.bufs t c ot same) room) (λ x h. h.0)
  Ensured-hold o (t, failed e) b c h = h
  Ensured-hold o (t, overrun) b c h = h
  Ensured-hold o (t, out_of_fuel) b c h = h

  -- nghttp2_bufs_addb_hold.
  pub bufs_addb_hold-Post :
      (o : HuffOut) (b : ℕ) → Chain base bits o.bufs → Post (Held base bits b) (bufs_addb_hold o b)
  unfolding bufs_addb_hold
  bufs_addb_hold-Post o b c = Ensured-hold o _ b c (ensure-Ensured o.bufs c.open_chain)
