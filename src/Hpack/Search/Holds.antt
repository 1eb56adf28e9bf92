-- ===== src/Hpack/Search/Holds.antt =====
-- The map beside the table: each bucket holds the entries of the table that belong there, the newest
-- first, and the numbers of the entries go down by one.
use kitura_http.Prelude.{
  ℕ, suc, ◌+◌, ◌-◌, ◌%◌, ◌^◌, ◌≤◌, ◌<◌, ◌≡◌, refl, sym, ap, ◌∙◌, List, [], ◌∷◌, true, false, ltb,
  leb, ◌==◌, length, get_or, if◌then◌else◌, Bool-cases, inl, inr, arith, All,
}
use kitura_http.Result.{ok}
use kitura_http.Hpack.Table.{HdEntry, Context, no_entry, place, entry_room, ringbuf_get}
use kitura_http.Hpack.Table.Ring.{length-entries_from, get_or-entries_from}
use kitura_http.Hpack.Table.Evict.{IsTable, total}
use kitura_http.Hpack.Token.{lookup_token}
use kitura_http.Hpack.Inflate.{table_get, get_max_index}
use kitura_http.Hpack.Search.{HdMap, entry_hash, bucket_of, index_of}

abbrev pub bucket : ℕ → List HdEntry → List HdEntry
bucket b [] = []
bucket b (e ∷ es) =
    let rest = bucket b es in if bucket_of (entry_hash e) == b then e ∷ rest else rest

abbrev pub Numbered : ℕ → List HdEntry → Type 0
Numbered n [] = Unit
Numbered n (e ∷ es) = (n ≡ (e.seq + 1) % 2 ^ 32) × (e.seq < 2 ^ 32) × Numbered e.seq es

-- A table of the entries `es` with its map.
pub record IsMapped (c : Context) (m : HdMap) (es : List HdEntry) : Type 0 where
  pub table : IsTable c es
  pub buckets : (b : ℕ) → m b ≡ bucket b es
  pub numbered : Numbered c.next_seq es
  pub next_in : c.next_seq < 2 ^ 32
  pub few : c.hd_table_bufsize < 2 ^ 31

-- Where an entry stands, with the number of the newest entry and one.
abbrev pub Stands : ℕ → List HdEntry → HdEntry → Type 0
Stands n es p =
    (i : ℕ) × (i < length es)
    × (get_or es i no_entry ≡ p)
    × ((n + (2 ^ 32 - 1) + (2 ^ 32 - p.seq)) % 2 ^ 32 ≡ i % 2 ^ 32)
    × (p.seq < 2 ^ 32)

further :
    (n i s k : ℕ)
    → n ≡ (s + 1) % 2 ^ 32
    → k < 2 ^ 32
    → (s + (2 ^ 32 - 1) + (2 ^ 32 - k)) % 2 ^ 32 ≡ i % 2 ^ 32
    → (n + (2 ^ 32 - 1) + (2 ^ 32 - k)) % 2 ^ 32 ≡ suc i % 2 ^ 32
further n i s k e lt h = omega arith

behind :
    (n : ℕ) (x p : HdEntry) (es : List HdEntry)
    → n ≡ (x.seq + 1) % 2 ^ 32
    → Stands x.seq es p
    → Stands n (x ∷ es) p
behind n x p es e (i, lt, at_i, place_i, small) =
    (suc i, omega arith, at_i, further n i x.seq p.seq e small place_i, small)

pub All-map :
    (P Q : HdEntry → Type 0) (ps : List HdEntry) → ((p : HdEntry) → P p → Q p) → All P ps → All Q ps
All-map P Q [] f h = tt
All-map P Q (p ∷ ps) f h = (f p h.0, All-map P Q ps f h.1)

pub All-Stands : (n : ℕ) (es : List HdEntry) → Numbered n es → All (Stands n es) es
All-Stands n [] h = tt
All-Stands n (x ∷ es) (e, small, rest) = (
  (0, omega arith, refl, omega arith, small),
  All-map (Stands x.seq es) (Stands n (x ∷ es)) es (λ p. behind n x p es e)
      (All-Stands x.seq es rest),
)

pub All-bucket : (P : HdEntry → Type 0) (b : ℕ) (es : List HdEntry) → All P es → All P (bucket b es)
All-bucket P b [] h = tt
All-bucket P b (x ∷ es) h = elim (Bool-cases (bucket_of (entry_hash x) == b)) [
  | inl here ↦ rw here (h.0, All-bucket P b es h.1)
  | inr other ↦ rw other (All-bucket P b es h.1)
]

pub length-total : (es : List HdEntry) → length es ≤ total es
unfolding entry_room
length-total [] = omega arith
length-total (x ∷ es) = let rest = length-total es in omega arith

-- What nghttp2_hd_table_get gives at the index of an entry.
abbrev pub Indexed : Context → HdEntry → Type 0
Indexed c p =
    (index_of c p < get_max_index c)
    × (table_get c (index_of c p)
        ≡ ok (record {
          name = p.name;
          value = p.value;
          token = lookup_token p.name;
          no_index = false;
        }))

pub Stands-Indexed :
    (c : Context) (m : HdMap) (es : List HdEntry) (p : HdEntry)
    → IsMapped c m es
    → Stands c.next_seq es p
    → Indexed c p
unfolding table_get ringbuf_get
Stands-Indexed c m es p v (i, lt, at_i, place_i, small) =
    let len : length es ≡ c.hd_table.len =
      ap length (sym v.table.held) ∙ length-entries_from c.hd_table c.hd_table.len 0 in
    let short = length-total es in
    let room = v.table.accounted in
    let few = v.few in
    let index : index_of c p ≡ i + 61 = omega arith in
    let static : leb 61 (i + 61) ≡ true = ground arith in
    let inside : ltb i c.hd_table.len ≡ true = ground arith in
    let back : i + 61 - 61 ≡ i = omega arith in
    let here : place c.hd_table i ≡ p =
      ap (place c.hd_table) (omega arith)
      ∙ sym (get_or-entries_from c.hd_table c.hd_table.len 0 i (omega arith))
      ∙ ap (λ l. get_or l i no_entry) v.table.held
      ∙ at_i in
    (omega arith, rw (index, static, back, inside, here) refl)
