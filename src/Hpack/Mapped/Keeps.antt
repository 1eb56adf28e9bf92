-- ===== src/Hpack/Mapped/Keeps.antt =====
-- The map follows the table: evicting and adding entries keep it what the table holds.
use mathlib.Core.List.{append-nil}
use kitura_http.Prelude.{
  ℕ, zero, suc, ◌+◌, ◌-◌, ◌%◌, ◌^◌, ◌<◌, ◌≡◌, ◌≢◌, refl, sym, ap, subst, ◌∙◌, List, [], ◌∷◌, ◌++◌,
  true, false, ltb, ◌==◌, length, Bool-cases, inl, inr, arith,
}
use kitura_http.Hpack.Table.{HdEntry, Context, place, entries_from, evict_last, evict}
use kitura_http.Hpack.Table.Ring.{entries}
use kitura_http.Hpack.Table.Evict.{split_last, evict_last-IsTable}
use kitura_http.Hpack.Search.{HdMap, entry_hash, bucket_of, map_remove, unlink}
use kitura_http.Hpack.Search.Holds.{IsMapped, bucket, Numbered, length-total}
use kitura_http.Hpack.Mapped.{evict_mapped}

-- The numbers of the entries before the last one differ from its number.
abbrev Apart : ℕ → List HdEntry → Type 0
Apart seq [] = Unit
Apart seq (e ∷ es) = (e.seq ≢ seq) × Apart seq es

-- A number that comes `k` behind another.
far : (n s k : ℕ) → n ≡ (s + 1 + k) % 2 ^ 32 → s < 2 ^ 32 → k + 1 < 2 ^ 32 → n ≢ s
far n s k e lt few = λ same. absurd (omega arith)

-- The number of the newest, from that of the last one.
newest :
    (n : ℕ) (es : List HdEntry) (x : HdEntry)
    → Numbered n (es ++ x ∷ [])
    → (n ≡ (x.seq + 1 + length es) % 2 ^ 32) × (x.seq < 2 ^ 32)
newest n [] x (e, lt, rest) = (omega arith, lt)
newest n (y ∷ es) x (e, lt, rest) =
    let (later, small) = newest y.seq es x rest in (omega arith, small)

apart :
    (n : ℕ) (es : List HdEntry) (x : HdEntry)
    → Numbered n (es ++ x ∷ [])
    → length es < 2 ^ 31
    → Apart x.seq es
apart n [] x h few = tt
apart n (y ∷ es) x (e, lt, rest) few =
    let (later, small) = newest y.seq es x rest in
    (far y.seq x.seq (length es) later small (omega arith), apart y.seq es x rest (omega arith))

-- Unlinking the last entry, which is the only one with its number.
unlink-last :
    (b : ℕ) (x : HdEntry) (es : List HdEntry)
    → Apart x.seq es
    → unlink x.seq (bucket b es ++ x ∷ []) ≡ bucket b es
unfolding unlink
unlink-last b x [] h = let same : (x.seq == x.seq) ≡ true = ground arith in rw same refl
unlink-last b x (e ∷ es) h = elim (Bool-cases (bucket_of (entry_hash e) == b)) [
  | inl here ↦
      let other : (e.seq == x.seq) ≡ false = ground arith in
      rw (here, other) (ap (λ l. e ∷ l) (unlink-last b x es h.1))
  | inr there ↦ rw there (unlink-last b x es h.1)
]

bucket-append : (b : ℕ) (es fs : List HdEntry) → bucket b (es ++ fs) ≡ bucket b es ++ bucket b fs
bucket-append b [] fs = refl
bucket-append b (e ∷ es) fs = elim (Bool-cases (bucket_of (entry_hash e) == b)) [
  | inl here ↦ rw here (ap (λ l. e ∷ l) (bucket-append b es fs))
  | inr there ↦ rw there (bucket-append b es fs)
]

Numbered-start : (n : ℕ) (es fs : List HdEntry) → Numbered n (es ++ fs) → Numbered n es
Numbered-start n [] fs h = tt
Numbered-start n (e ∷ es) fs (a, lt, rest) = (a, lt, Numbered-start e.seq es fs rest)

remove-bucket :
    (m : HdMap) (n b : ℕ) (x : HdEntry) (es : List HdEntry)
    → ((b : ℕ) → m b ≡ bucket b (es ++ x ∷ []))
    → Numbered n (es ++ x ∷ [])
    → length es < 2 ^ 31
    → map_remove m x b ≡ bucket b es
unfolding map_remove
remove-bucket m n b x es buckets h few =
    let split = buckets b ∙ bucket-append b es (x ∷ []) in
    elim (Bool-cases (bucket_of (entry_hash x) == b)) [
      | inl here ↦
          let whole : m b ≡ bucket b es ++ x ∷ [] = rw here at split in
          rw (here, whole) (unlink-last b x es (apart n es x h few))
      | inr there ↦
          let whole : m b ≡ bucket b es ++ [] = rw there at split in
          rw there (whole ∙ append-nil (bucket b es))
    ]

-- A round that evicts an entry.
evict_last-IsMapped :
    (c : Context) (m : HdMap) (k : ℕ)
    → c.hd_table.len ≡ suc k
    → IsMapped c m (entries c.hd_table)
    → IsMapped
        (evict_last c)
        (map_remove m (place c.hd_table (c.hd_table.len - 1)))
        (entries (evict_last c).hd_table)
evict_last-IsMapped c m k e v =
    let x = place c.hd_table k in
    let es = entries_from c.hd_table k 0 in
    let split = split_last c k e in
    let w = evict_last-IsTable c k e v.table in
    let less : c.hd_table.len - 1 ≡ k = omega arith in
    let numbered : Numbered c.next_seq (es ++ x ∷ []) =
      subst (Numbered c.next_seq) split v.numbered in
    let short = length-total es in
    let size = w.accounted in
    let few = v.few in
    let left : IsMapped (evict_last c) (map_remove m x) es = record {
      table = w;
      buckets = λ b.
          remove-bucket m c.next_seq b x es (λ b. v.buckets b ∙ ap (bucket b) split) numbered
            (omega arith);
      numbered = Numbered-start c.next_seq es (x ∷ []) numbered;
      next_in = v.next_in;
      few = omega arith;
    } in
    subst
      (λ i.
        IsMapped (evict_last c) (map_remove m (place c.hd_table i))
          (entries (evict_last c).hd_table))
      (sym less) (subst (IsMapped (evict_last c) (map_remove m x)) (sym w.held) left)

-- The loop does to the table what it does without a map, and the map follows.
pub evict-IsMapped :
    (fuel room : ℕ) (c : Context) (m : HdMap)
    → IsMapped c m (entries c.hd_table)
    → let r = evict_mapped fuel room c m in
      (r.0 ≡ evict fuel room c) × IsMapped r.0 r.1 (entries r.0.hd_table)
unfolding evict_mapped evict
evict-IsMapped zero room c m v = (refl, v)
evict-IsMapped (suc fuel) room c m v =
    elim (Bool-cases (ltb c.hd_table_bufsize_max (c.hd_table_bufsize + room))) [
      | inr fits ↦ rw fits (refl, v)
      | inl over ↦ elim (Bool-cases (ltb 0 c.hd_table.len)) [
        | inr empty ↦ rw (over, empty) (refl, v)
        | inl more ↦
            let e : c.hd_table.len ≡ suc (c.hd_table.len - 1) = ground arith in
            rw (over, more)
              (evict-IsMapped fuel room (evict_last c) _ (evict_last-IsMapped c m _ e v))
      ]
    ]
